-- ===== src/Block/Damaged.antt =====
-- The constructor of src/table/block.cc on any bytes.
use mini_leveldb.Prelude.{
  ℕ, zero, suc, ◌+◌, ◌-◌, ◌*◌, ◌^◌, ◌<◌, ◌≤◌, ltb, Bool-cases, true, false, subst, inl, inr, none,
  some, List, [], ◌∷◌, ◌≡◌, ◌↔◌, refl, Bytes, length, drop, length-drop, u32, arith,
}
use mini_leveldb.Coding.{decode_fixed32}
use mini_leveldb.Block.Reader.{new_block, read_restarts}

read_restarts_short :
    (n i j : ℕ) (p : Bytes)
    → i ≤ j
    → j < i + n
    → length p < u32 (j * 4) + 4
    → read_restarts n i p ≡ none
unfolding read_restarts
read_restarts_short zero i j p from to h = absurd (omega arith)
read_restarts_short (suc n) i j p from to h =
    let left : length (drop (u32 (i * 4)) p) ≡ length p - u32 (i * 4) =
      length-drop (u32 (i * 4)) p in
    elim (Bool-cases (ltb i j)) [
      | inl later ↦
          let run = read_restarts_short n (i + 1) j p (ground (arith, later)) (omega arith) h in
          ground (arith, run)
      | inr here ↦
          let same : j ≡ i = ground (arith, here, from) in
          let short : length p < u32 (i * 4) + 4 = subst (λ k. length p < u32 (k * 4) + 4) same h in
          let out : ltb (length (drop (u32 (i * 4)) p)) 4 ≡ true = ground (arith, left, short) in
          ground (arith, out)
    ]

read_restarts_enough :
    (n i : ℕ) (p : Bytes)
    → ((j : ℕ) → j < i + n → u32 (j * 4) + 4 ≤ length p)
    → (os : List ℕ) × (read_restarts n i p ≡ some os)
unfolding read_restarts
read_restarts_enough zero i p h = ([], refl)
read_restarts_enough (suc n) i p h =
    let (os, run) = read_restarts_enough n (i + 1) p (λ j to. h j (omega arith)) in
    let here = h i (omega arith) in
    let inside : ltb (length (drop (u32 (i * 4)) p)) 4 ≡ false =
      ground (arith, here, length-drop (u32 (i * 4)) p) in
    (decode_fixed32 (drop (u32 (i * 4)) p) ∷ os, ground (arith, run, inside))

-- The constructor reads outside the bytes of a block exactly if the number of restart points at its
-- end is 2^30 or more, and the product of 32 bits of it with 4, which has then wrapped around, fits
-- in front of it and is not 2^32 - 4, at which the offsets that wrap around too lie all inside.
pub new_block_overrun :
    (contents : Bytes)
    → 4 ≤ length contents
    → let count = decode_fixed32 (drop (length contents - 4) contents) in
      (new_block contents ≡ none) ↔ (
        (2 ^ 30 ≤ count) × (4 + u32 (count * 4) ≤ length contents) × (u32 (count * 4) + 4 < 2 ^ 32))
unfolding new_block
new_block_overrun contents long =
    let n = length contents in
    let count = decode_fixed32 (drop (n - 4) contents) in
    let size = u32 (count * 4) in
    let start = n - 4 - size in
    let left : length (drop start contents) ≡ n - start = length-drop start contents in
    elim (Bool-cases (ltb n (4 + size))) [
      | inl short ↦ ground (arith, long, short)
      | inr whole ↦
          let all : length (drop start contents) ≡ size + 4 = ground (arith, left, whole, long) in
          elim (Bool-cases (ltb count (2 ^ 30))) [
            | inl few ↦
                let (os, run) = read_restarts_enough count 0 (drop start contents) (λ j to.
                  inside count j size (length (drop start contents)) few (omega (arith, to)) refl
                    all) in
                ground (arith, long, whole, run, few)
            | inr many ↦ elim (Bool-cases (ltb (size + 4) (2 ^ 32))) [
              | inl over ↦
                  let last : length (drop start contents) < u32 ((2 ^ 30 - 1) * 4) + 4 =
                    ground (arith, all, over) in
                  let many_more : 2 ^ 30 ≤ count = ground (arith, many) in
                  let reached : 2 ^ 30 - 1 < 0 + count = omega (arith, many_more) in
                  let run =
                    read_restarts_short count 0 (2 ^ 30 - 1) (drop start contents) (omega arith)
                      reached last in
                  ground (arith, long, whole, run, many, over)
              | inr wrapped ↦
                  let (os, run) =
                    read_restarts_enough count 0 (drop start contents)
                      (λ j to. wraps j size (length (drop start contents)) wrapped all) in
                  ground (arith, long, whole, run, wrapped)
            ]
          ]
    ]
  where
    inside :
        (count j size m : ℕ)
        → ltb count (2 ^ 30) ≡ true
        → j < count
        → size ≡ u32 (count * 4)
        → m ≡ size + 4
        → u32 (j * 4) + 4 ≤ m
    inside count j size m few to e all =
        let below : count < 2 ^ 30 = ground (arith, few) in omega arith

    wraps : (j size m : ℕ) → ltb (size + 4) (2 ^ 32) ≡ false → m ≡ size + 4 → u32 (j * 4) + 4 ≤ m
    wraps j size m wrapped all =
        let above : 2 ^ 32 ≤ size + 4 = ground (arith, wrapped) in omega arith
