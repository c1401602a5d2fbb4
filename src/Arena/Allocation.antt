-- ===== src/Arena/Allocation.antt =====
-- `Allocate` and `AllocateAligned` of src/util/arena.cc keep the ranges sound.
use mini_leveldb.Prelude.{
  ℕ, ◌+◌, ◌-◌, ◌%◌, ◌/◌, ◌^◌, ◌<◌, ◌≤◌, leb, ltb, ◌==◌, if◌then◌else◌, Bool-cases, ◌≡◌, refl, inl,
  inr, List, [], ◌∷◌, bit_and, bit_and_mask, u64, arith,
}
use mini_leveldb.Arena.{
  Chunk, Arena, new_arena, block_size, allocate, allocate_aligned, allocate_new_block,
}
use mini_leveldb.Arena.Ranges.{
  Apart, Inside, free, Sound, IsAllocator, Within-old, Within-new, Within-Apart, all_old, all-Apart,
  take-Sound,
}

module _ (address : List Chunk → ℕ → ℕ) (o : IsAllocator address) where
  abbrev fresh : ℕ → Arena → Chunk
  fresh size a = record { start = address a.blocks size; size = size }

  -- A range that has a new block for itself.
  new-Sound :
      (a : Arena) (ranges : List Chunk) (size bytes : ℕ)
      → Sound a ranges
      → bytes ≤ size
      → Sound
          (allocate_new_block address size a).1
          (record { start = address a.blocks size; size = bytes } ∷ ranges)
  unfolding allocate_new_block
  new-Sound a ranges size bytes s le =
      let c = fresh size a in
      let part : Chunk = record { start = c.start; size = bytes } in
      let i : Inside part c = (omega arith, omega (arith, le)) in
      let new = o.apart a.blocks size in
      record {
        within = (Within-new part a.blocks c i, all_old a.blocks c ranges s.within);
        disjoint = ((all-Apart a.blocks c part ranges new i s.within).1, s.disjoint);
        rest = elim s.rest [
          | inl nothing ↦ inl nothing
          | inr (whole, apart) ↦ inr (
            Within-old (free a) a.blocks c whole,
            (other part (free a) c i (Within-Apart (free a) c a.blocks new whole), apart),
          )
        ];
      }
    where
      other : (part r c : Chunk) → Inside part c → Apart r c → Apart part r
      other part r c i (inl before) = inr (omega (arith, before, i.0))
      other part r c i (inr behind) = inl (omega (arith, behind, i.1))

  -- A new block becomes the current one.
  abbrev refilled : ℕ → Arena → Arena
  refilled size a = record (allocate_new_block address size a).1 {
    curr = address a.blocks size;
    avail = size;
  }

  refilled-Sound :
      (a : Arena) (ranges : List Chunk) (size : ℕ) → Sound a ranges → Sound (refilled size a) ranges
  unfolding allocate_new_block
  refilled-Sound a ranges size s =
      let c = fresh size a in
      let whole : Inside c c = (omega arith, omega arith) in
      record {
        within = all_old a.blocks c ranges s.within;
        disjoint = s.disjoint;
        rest = inr (
          Within-new c a.blocks c whole,
          (all-Apart a.blocks c c ranges (o.apart a.blocks size) whole s.within).0,
        );
      }

  abbrev Handed : ℕ → List Chunk → ℕ × Arena → Type 0
  Handed bytes ranges (start, a) = Sound a (record { start = start; size = bytes } ∷ ranges)

  from_free :
      (a : Arena) (ranges : List Chunk) (skip bytes : ℕ)
      → Sound a ranges
      → 0 < bytes
      → skip + bytes ≤ a.avail
      → (start curr avail : ℕ) → start ≡ a.curr + skip
      → curr ≡ a.curr + (skip + bytes)
      → avail ≡ a.avail - (skip + bytes)
      → Handed bytes ranges (start, record a { curr = curr; avail = avail })
  from_free a ranges skip bytes s some_bytes le start curr avail e f g =
      rw (e, f, g) (take-Sound a ranges skip bytes s some_bytes le)

  -- `Allocate` hands out a range of the arena's blocks that overlaps no other range handed out.
  pub allocate-Sound :
      (a : Arena) (ranges : List Chunk) (bytes : ℕ)
      → Sound a ranges
      → 0 < bytes
      → Handed bytes ranges (allocate address bytes a)
  unfolding allocate
  allocate-Sound a ranges bytes s some_bytes = elim (Bool-cases (leb bytes a.avail)) [
    | inl fits ↦ rw fits (
        from_free a ranges 0 bytes s some_bytes (ground (arith, fits)) _ _ _ (omega arith)
          (omega arith) (omega arith))
    | inr full ↦ elim (Bool-cases (ltb (block_size / 4) bytes)) [
      | inl large ↦ rw (full, large) (new-Sound a ranges bytes bytes s (omega arith))
      | inr small ↦
          rw (full, small)
            (from_free (refilled block_size a) ranges 0 bytes (refilled-Sound a ranges block_size s)
              some_bytes (ground (arith, small)) _ _ _ (omega arith) (omega arith) (omega arith))
    ]
  ]

  abbrev slop_of : Arena → ℕ
  slop_of a = if bit_and a.curr (8 - 1) == 0 then 0 else 8 - bit_and a.curr (8 - 1)

  slop : (a : Arena) → (slop_of a < 8) × ((a.curr + slop_of a) % 8 ≡ 0)
  slop a =
      let e : bit_and a.curr (8 - 1) ≡ a.curr % 8 = bit_and_mask 3 a.curr in rw e (ground arith)

  -- `AllocateAligned` hands out a range of the arena's blocks whose address is a multiple of 8 and
  -- that overlaps no other range handed out; for requests of less than 2^63 bytes.
  pub allocate_aligned-Sound :
      (a : Arena) (ranges : List Chunk) (bytes : ℕ)
      → Sound a ranges
      → 0 < bytes
      → bytes < 2 ^ 63
      → Handed bytes ranges (allocate_aligned address bytes a)
        × ((allocate_aligned address bytes a).0 % 8 ≡ 0)
  unfolding allocate_aligned
  allocate_aligned-Sound a ranges bytes s some_bytes few =
      let (short, multiple) = slop a in
      let needed : u64 (bytes + slop_of a) ≡ bytes + slop_of a = omega (arith, short) in
      elim (Bool-cases (leb (u64 (bytes + slop_of a)) a.avail)) [
        | inl fits ↦ rw fits (
          from_free a ranges (slop_of a) bytes s some_bytes (ground (arith, fits, needed)) _ _ _
              refl (omega (arith, needed)) (omega (arith, needed)),
          multiple,
        )
        | inr full ↦ rw full (
          new-Sound a ranges (u64 (bytes + slop_of a)) bytes s (omega (arith, needed)),
          unfold allocate_new_block in o.aligned a.blocks (u64 (bytes + slop_of a)),
        )
      ]

-- An arena starts with nothing handed out.
pub new_arena-Sound : Sound new_arena []
unfolding new_arena
new_arena-Sound = record { within = tt; disjoint = tt; rest = inl refl }
