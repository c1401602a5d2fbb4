-- ===== src/Arena/Ranges.antt =====
-- The ranges that src/util/arena.cc hands out: they lie in the arena's blocks and do not overlap.
use mini_leveldb.Prelude.{
  ℕ, ◌+◌, ◌-◌, ◌%◌, ◌<◌, ◌≤◌, ◌≡◌, ◌⊎◌, inl, inr, List, [], ◌∷◌, ◌++◌, All, arith,
}
use mini_leveldb.Arena.{Chunk, Arena}

-- Two ranges of addresses do not overlap.
abbrev pub Apart : Chunk → Chunk → Type 0
Apart r c = (r.start + r.size ≤ c.start) ⊎ (c.start + c.size ≤ r.start)

abbrev pub Inside : Chunk → Chunk → Type 0
Inside r c = (c.start ≤ r.start) × (r.start + r.size ≤ c.start + c.size)

-- A range lies in one of the blocks.
abbrev pub Within : Chunk → List Chunk → Type 0
Within r [] = ⊥
Within r (c ∷ cs) = Inside r c ⊎ Within r cs

abbrev pub Disjoint : List Chunk → Type 0
Disjoint [] = Unit
Disjoint (r ∷ rs) = All (λ s. Apart r s) rs × Disjoint rs

-- What is left of the current block.
abbrev pub free : Arena → Chunk
free a = record { start = a.curr; size = a.avail }

-- The ranges that have been handed out and the free one lie in the blocks, and no two overlap.
pub record Sound (a : Arena) (ranges : List Chunk) : Type 0 where
  pub within : All (λ r. Within r a.blocks) ranges
  pub disjoint : Disjoint ranges
  pub rest : (a.avail ≡ 0) ⊎ (Within (free a) a.blocks × All (λ r. Apart r (free a)) ranges)

-- `new char[size]` returns aligned memory that overlaps none that it returned before.
pub record IsAllocator (address : List Chunk → ℕ → ℕ) : Type 0 where
  pub aligned : (blocks : List Chunk) (size : ℕ) → address blocks size % 8 ≡ 0
  pub apart :
      (blocks : List Chunk) (size : ℕ)
      → All (λ c. Apart c (record { start = address blocks size; size = size })) blocks

pub Within-old : (r : Chunk) (cs : List Chunk) (c : Chunk) → Within r cs → Within r (cs ++ (c ∷ []))
Within-old r [] c w = absurd w
Within-old r (d ∷ cs) c (inl h) = inl h
Within-old r (d ∷ cs) c (inr h) = inr (Within-old r cs c h)

pub Within-new : (r : Chunk) (cs : List Chunk) (c : Chunk) → Inside r c → Within r (cs ++ (c ∷ []))
Within-new r [] c h = inl h
Within-new r (d ∷ cs) c h = inr (Within-new r cs c h)

pub Within-Apart :
    (r c : Chunk) (cs : List Chunk) → All (λ d. Apart d c) cs → Within r cs → Apart r c
Within-Apart r c [] h w = absurd w
Within-Apart r c (d ∷ cs) (inl before, hs) (inl i) = inl (omega (arith, before, i.0, i.1))
Within-Apart r c (d ∷ cs) (inr behind, hs) (inl i) = inr (omega (arith, behind, i.0, i.1))
Within-Apart r c (d ∷ cs) (h, hs) (inr w) = Within-Apart r c cs hs w

pub all_old :
    (cs : List Chunk) (c : Chunk) (ranges : List Chunk)
    → All (λ r. Within r cs) ranges
    → All (λ r. Within r (cs ++ (c ∷ []))) ranges
all_old cs c [] h = tt
all_old cs c (r ∷ rs) (h, hs) = (Within-old r cs c h, all_old cs c rs hs)

-- Ranges in old blocks are apart from what lies in a new one.
pub all-Apart :
    (cs : List Chunk) (c part : Chunk) (ranges : List Chunk)
    → All (λ d. Apart d c) cs
    → Inside part c
    → All (λ r. Within r cs) ranges
    → (All (λ r. Apart r part) ranges) × (All (λ r. Apart part r) ranges)
all-Apart cs c part [] h i w = (tt, tt)
all-Apart cs c part (r ∷ rs) h i (w, ws) =
    let (front, back) = all-Apart cs c part rs h i ws in
    let (p, q) = both (Within-Apart r c cs h w) in ((p, front), (q, back))
  where
    both : Apart r c → Apart r part × Apart part r
    both (inl before) =
        (inl (omega (arith, before, i.0, i.1)), inr (omega (arith, before, i.0, i.1)))
    both (inr behind) =
        (inr (omega (arith, behind, i.0, i.1)), inl (omega (arith, behind, i.0, i.1)))

-- Parts of the free range are apart from all that has been handed out.
pub part-Apart :
    (whole part : Chunk) (ranges : List Chunk)
    → Inside part whole
    → All (λ r. Apart r whole) ranges
    → (All (λ r. Apart r part) ranges) × (All (λ r. Apart part r) ranges)
part-Apart whole part [] i h = (tt, tt)
part-Apart whole part (r ∷ rs) i (h, hs) =
    let (front, back) = part-Apart whole part rs i hs in
    let (p, q) = both h in ((p, front), (q, back))
  where
    both : Apart r whole → Apart r part × Apart part r
    both (inl before) =
        (inl (omega (arith, before, i.0, i.1)), inr (omega (arith, before, i.0, i.1)))
    both (inr behind) =
        (inr (omega (arith, behind, i.0, i.1)), inl (omega (arith, behind, i.0, i.1)))

pub Within-Inside :
    (part whole : Chunk) (cs : List Chunk) → Inside part whole → Within whole cs → Within part cs
Within-Inside part whole [] i w = absurd w
Within-Inside part whole (c ∷ cs) i (inl h) = inl (omega (arith, i.0, h.0), omega (arith, i.1, h.1))
Within-Inside part whole (c ∷ cs) i (inr w) = inr (Within-Inside part whole cs i w)

-- From the free range: skip some bytes, hand out a range and keep what is behind it.
pub take-Sound :
    (a : Arena) (ranges : List Chunk) (skip bytes : ℕ)
    → Sound a ranges
    → 0 < bytes
    → skip + bytes ≤ a.avail
    → Sound
        (record a { curr = a.curr + (skip + bytes); avail = a.avail - (skip + bytes) })
        (record { start = a.curr + skip; size = bytes } ∷ ranges)
take-Sound a ranges skip bytes s some_bytes le =
    let part : Chunk = record { start = a.curr + skip; size = bytes } in
    let left : Chunk = record {
      start = a.curr + (skip + bytes);
      size = a.avail - (skip + bytes);
    } in
    let i : Inside part (free a) = (omega arith, omega (arith, le)) in
    let j : Inside left (free a) = (omega arith, omega (arith, le)) in
    elim s.rest [
      | inl nothing ↦ absurd (omega (arith, nothing))
      | inr (whole, apart) ↦ record {
        within = (Within-Inside part (free a) a.blocks i whole, s.within);
        disjoint = ((part-Apart (free a) part ranges i apart).1, s.disjoint);
        rest = inr (
          Within-Inside left (free a) a.blocks j whole,
          (inl (omega arith), (part-Apart (free a) left ranges j apart).0),
        );
      }
    ]
