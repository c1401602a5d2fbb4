-- ===== src/Skiplist/Prev.antt =====
-- The array `prev` of `Insert` in src/db/skiplist.h: on each level the last node below the key.
use mini_leveldb.Prelude.{
  ℕ, zero, suc, ◌+◌, ◌-◌, ◌≤◌, ◌<◌, Bool, ◌≡◌, refl, ap, ap₂, sym, ◌∙◌, List, [], ◌∷◌, ◌++◌,
  append-nil, append_assoc, take, replicate, arith,
}
use mini_leveldb.Skiplist.{Node}
use mini_leveldb.Skiplist.Chain.{tall, last_of, last_of-none}
use mini_leveldb.Skiplist.Search.{prevs}
use mini_leveldb.Skiplist.Store.{entries}

entries-append :
    (P : ℕ → ℕ) (k m i : ℕ) → entries P (k + m) i ≡ entries P k i ++ entries P m (i + k)
unfolding entries
entries-append P zero m i =
    let none_more : 0 + m ≡ m = omega arith in
    let e : i ≡ i + 0 = omega arith in ap₂ (entries P) none_more e
entries-append P (suc k) m i =
    let more : suc k + m ≡ suc (k + m) = omega arith in
    let at : i + 1 + k ≡ i + suc k = omega arith in
    ap (λ t. entries P t i) more
    ∙ ap (λ t. P i ∷ t)
        (entries-append P k m (i + 1) ∙ ap (λ t. entries P k (i + 1) ++ entries P m t) at)

take-entries : (P : ℕ → ℕ) (h m i : ℕ) → h ≤ m → take h (entries P m i) ≡ entries P h i
unfolding entries
take-entries P zero m i le = refl
take-entries P (suc h) zero i le = absurd (omega arith)
take-entries P (suc h) (suc m) i le = ap (λ t. P i ∷ t) (take-entries P h m (i + 1) (omega arith))

replicate-entries :
    (P : ℕ → ℕ) (k i : ℕ) → ((j : ℕ) → i ≤ j → P j ≡ 0) → replicate k 0 ≡ entries P k i
unfolding entries
replicate-entries P zero i h = refl
replicate-entries P (suc k) i h =
    ap₂ (λ x t. x ∷ t) (sym (h i (omega arith)))
      (replicate-entries P k (i + 1) (λ j le. h j (omega arith)))

-- No node stands on a level above all heights.
pub tall_above :
    (height : ℕ → ℕ) (i : ℕ) (xs : List ℕ) → ((a : ℕ) → height a ≤ i) → tall height i xs ≡ []
unfolding tall
tall_above height i [] h = refl
tall_above height i (a ∷ xs) h = ground (arith, h a, tall_above height i xs h)

module _ {ℓ} {K : Type ℓ} (less : K → K → Bool) (nodes : List (Node K)) (height : ℕ → ℕ)
    (key : K) where
  prevs-entries :
      (level x : ℕ) (xs prev : List ℕ)
      → prevs less nodes height key level x xs prev
        ≡ entries (λ i. last_of height i x xs) (level + 1) 0 ++ prev
  unfolding prevs entries
  prevs-entries zero x xs prev = refl
  prevs-entries (suc level) x xs prev =
      let P : ℕ → ℕ = λ i. last_of height i x xs in
      let last : entries P 1 (0 + (level + 1)) ≡ P (suc level) ∷ [] =
        let e : 0 + (level + 1) ≡ suc level = omega arith in ap (λ t. P t ∷ []) e in
      let count : level + 1 + 1 ≡ suc level + 1 = omega arith in
      prevs-entries level x xs (P (suc level) ∷ prev)
      ∙ sym (append_assoc (entries P (level + 1) 0) (P (suc level) ∷ []) prev)
      ∙ ap (λ t. (entries P (level + 1) 0 ++ t) ++ prev) (sym last)
      ∙ ap (λ t. t ++ prev) (sym (entries-append P (level + 1) 1 0))
      ∙ ap (λ t. entries P t 0 ++ prev) count

  -- `Insert` takes the head for the levels that the list did not have.
  pub prev_entries :
      (cur h : ℕ) (pre : List ℕ)
      → 0 < cur
      → ((a : ℕ) → height a ≤ cur)
      → take h (prevs less nodes height key (cur - 1) 0 pre [] ++ replicate (h - cur) 0)
        ≡ entries (λ i. last_of height i 0 pre) h 0
  prev_entries cur h pre has low =
      let P : ℕ → ℕ = λ i. last_of height i 0 pre in
      let count : cur - 1 + 1 ≡ cur = omega arith in
      let here : prevs less nodes height key (cur - 1) 0 pre [] ≡ entries P cur 0 =
        prevs-entries (cur - 1) 0 pre [] ∙ append-nil _ ∙ ap (λ t. entries P t 0) count in
      let at : cur ≡ 0 + cur = omega arith in
      let above : replicate (h - cur) 0 ≡ entries P (h - cur) (0 + cur) =
        replicate-entries P (h - cur) cur (λ j le.
          last_of-none height j 0 pre (tall_above height j pre (λ a. omega (arith, low a))))
        ∙ ap (entries P (h - cur)) at in
      ap₂ (λ s t. take h (s ++ t)) here above
      ∙ ap (take h) (sym (entries-append P cur (h - cur) 0))
      ∙ take-entries P h (cur + (h - cur)) 0 (omega arith)
