-- ===== src/Skiplist/Random.antt =====
-- The generator and the heights of src/db/skiplist.h.
use mini_leveldb.Prelude.{
  ℕ, zero, suc, ◌+◌, ◌-◌, ◌*◌, ◌/◌, ◌%◌, ◌^◌, ◌<◌, ◌≤◌, ltb, ◌==◌, true, ◌≡◌, ap, sym, ltb→lt,
  ltb→le, ◌∙◌, u32, u64, bit_and, ◌>>>◌, bit_and_mask, Bool-cases, inl, inr, arith,
}
use mini_leveldb.Skiplist.{
  random_init, random_next, random_height_loop, random_height, max_height, branching,
}

-- A seed that the generator can have.
pub record IsSeed (s : ℕ) : Type 0 where
  pub positive : 0 < s
  pub below : s < 2147483647

pub random_init-IsSeed : (s : ℕ) → IsSeed (random_init s)
unfolding random_init
random_init-IsSeed s =
    let seed : bit_and s 0x7fffffff ≡ s % 2 ^ 31 = bit_and_mask 31 s in
    record { positive = ground (arith, seed); below = ground (arith, seed) }

-- The modulus is prime to the factor.
no_multiple : (s k : ℕ) → 0 < s → s < 2147483647 → s * 16807 ≡ k * 2147483647 → ⊥
no_multiple s k p b e = omega arith

folded :
    (s : ℕ)
    → IsSeed s
    → u32 ((u64 (s * 16807) >>> 31) + bit_and (u64 (s * 16807)) 2147483647)
      ≡ s * 16807 / 2 ^ 31 + s * 16807 % 2 ^ 31
folded s h =
    let small : s < 2147483647 = h.below in
    let wide : u64 (s * 16807) ≡ s * 16807 = omega arith in
    let low = bit_and_mask 31 (s * 16807) in
    ap (λ t. u32 ((t >>> 31) + bit_and t 2147483647)) wide
    ∙ ap (λ (t : ℕ). u32 (s * 16807 / 2 ^ 31 + t)) low
    ∙ omega arith

remainder :
    (s t q : ℕ) → s * 16807 ≡ q * 2147483647 + t → t < 2147483647 → s * 16807 % 2147483647 ≡ t
remainder s t q e h = omega arith

-- `Next` is the next number of the sequence of Park and Miller, 16807 times the seed modulo the
-- prime 2^31 - 1, computed without a division; it is a seed again, never 0.
pub random_next-eq-mod :
    (s : ℕ) → IsSeed s → (random_next s ≡ s * 16807 % 2147483647) × IsSeed (random_next s)
unfolding random_next
random_next-eq-mod s h =
    let sum = folded s h in
    let q = s * 16807 / 2 ^ 31 in
    let r = s * 16807 % 2 ^ 31 in
    let whole : s * 16807 ≡ q * 2147483647 + (q + r) = omega arith in
    let small : s < 2147483647 = h.below in
    let positive : 0 < s = h.positive in
    let size : q + r < 2 * 2147483647 = omega arith in
    elim (Bool-cases (ltb 2147483647 (q + r))) [
      | inl large ↦
          let over = ltb→lt 2147483647 (q + r) large in
          let value : random_next s ≡ q + r - 2147483647 = ground (arith, sum, large) in
          let split : s * 16807 ≡ (q + 1) * 2147483647 + (q + r - 2147483647) =
            omega (arith, whole, over) in
          rw value (
            sym (remainder s (q + r - 2147483647) (q + 1) split (omega (arith, size))),
            record { positive = omega (arith, over); below = omega (arith, size) },
          )
      | inr fits ↦
          let under = ltb→le 2147483647 (q + r) fits in
          let value : random_next s ≡ q + r = ground (arith, sum, fits) in
          let not_modulus : q + r < 2147483647 = elim (Bool-cases (ltb (q + r) 2147483647)) [
            | inl e ↦ ltb→lt _ _ e
            | inr e ↦
                let multiple : s * 16807 ≡ (q + 1) * 2147483647 =
                  omega (arith, whole, under, ltb→le _ _ e) in
                absurd (no_multiple s (q + 1) positive small multiple)
          ] in
          let some_left : 0 < q + r = omega (arith, whole, positive) in
          rw value (
            sym (remainder s (q + r) q whole not_modulus),
            record { positive = some_left; below = not_modulus },
          )
    ]

-- A height that the list can hold, and a seed.
pub record IsDrawn (r : ℕ × ℕ) : Type 0 where
  pub positive : 0 < r.0
  pub at_most : r.0 ≤ max_height
  pub seed : IsSeed r.1

random_height_loop-IsDrawn :
    (fuel h s : ℕ) → 0 < h → h ≤ max_height → IsSeed s → IsDrawn (random_height_loop fuel h s)
unfolding random_height_loop
random_height_loop-IsDrawn zero h s p b v = record { positive = p; at_most = b; seed = v }
random_height_loop-IsDrawn (suc fuel) h s p b v =
    let next = (random_next-eq-mod s v).1 in
    elim (Bool-cases (ltb h max_height)) [
      | inr e ↦ rw e (record { positive = p; at_most = b; seed = v })
      | inl e ↦ elim (Bool-cases (random_next s % branching == 0)) [
        | inl up ↦
            rw (e, up)
              (random_height_loop-IsDrawn fuel (h + 1) (random_next s) (omega arith) (ltb→lt' h e)
                next)
        | inr stay ↦ rw (e, stay) (record { positive = p; at_most = b; seed = next })
      ]
    ]
  where
    ltb→lt' : (k : ℕ) → ltb k max_height ≡ true → k + 1 ≤ max_height
    ltb→lt' k e = omega (arith, ltb→lt k max_height e)

-- `RandomHeight` draws a height from 1 to 12 and leaves a seed of the generator.
pub random_height-IsDrawn : (s : ℕ) → IsSeed s → IsDrawn (random_height s)
unfolding random_height
random_height-IsDrawn s v = random_height_loop-IsDrawn max_height 1 s (omega arith) (omega arith) v
