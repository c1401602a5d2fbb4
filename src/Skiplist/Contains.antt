-- ===== src/Skiplist/Contains.antt =====
-- `Contains` of src/db/skiplist.h on a list that holds keys in order.
use mini_leveldb.Prelude.{
  ℕ, Bool, true, false, not, ◌&&◌, ◌||◌, Bool-cases, ◌≡◌, refl, ap, sym, ◌∙◌, inl, inr, Option,
  none, some, List, [], ◌∷◌, Option-cases, All, arith,
}
use mini_leveldb.Skiplist.{SkipList, node_at, find_greater_or_equal, contains}
use mini_leveldb.Skiplist.Chain.{head_of}
use mini_leveldb.Skiplist.Sequence.{WeakOrder, Sorted, upper, first}
use mini_leveldb.Skiplist.Keys.{key_of, KeysAt, nil, cons}
use mini_leveldb.Skiplist.Refines.{Represents, position, search}

-- Whether a key stands in a sequence, up to the order.
unfoldable pub has {ℓ} : {K : Type ℓ} → (K → K → Bool) → K → List K → Bool
has less key [] = false
has less key (x ∷ xs) = (not (less x key) && not (less key x)) || has less key xs

module _ {ℓ} {K : Type ℓ} (less : K → K → Bool) (o : WeakOrder less) (key : K) where
  -- Behind a key above none is equal.
  has_above :
      (x : K) (xs : List K)
      → less key x ≡ true
      → All (λ y. less y x ≡ false) xs
      → has less key xs ≡ false
  unfolding has
  has_above x [] e s = refl
  has_above x (y ∷ xs) e (h, s) = elim (Bool-cases (less key y)) [
    | inl above ↦ ground (arith, above, has_above x xs e s)
    | inr beside ↦ let below = o.neg_trans x y key h beside in absurd cc
  ]

  -- The test of `Contains` on the first key that is not below.
  abbrev pub is_first : Option K → Bool
  is_first none = false
  is_first (some x) = not (less x key) && not (less key x)

  has-first :
      (keys : List K)
      → Sorted less keys
      → has less key keys ≡ is_first (first less key (upper less key keys))
  unfolding has upper
  has-first [] s = refl
  has-first (x ∷ xs) (h, s) = elim (Bool-cases (less x key)) [
    | inl below ↦ rw (below, has-first xs s) refl
    | inr not_below ↦ elim (Bool-cases (less key x)) [
      | inl above ↦ ground (arith, not_below, above, has_above x xs above h)
      | inr equal ↦ ground (arith, not_below, equal)
    ]
  ]

  contains-at :
      (l : SkipList K) (post : List ℕ) (high : List K) (prev : List ℕ)
      → find_greater_or_equal less l key ≡ some (head_of post, prev)
      → KeysAt l.nodes post high
      → contains less l key ≡ some (is_first (first less key high))
  unfolding contains key_of
  contains-at l _ _ prev e nil = ground (arith, e)
  contains-at l _ _ prev e (cons {a} {k} h hs) = elim (Option-cases (node_at l.nodes a)) [
    | inl missing ↦ ground (arith, missing, h)
    | inr (n, found) ↦ ground (arith, e, found, h)
  ]

-- `Contains` on a list that holds keys in order says whether one of them is equal to the key, that
-- is neither below nor above it.
pub contains-eq-has {ℓ} :
    {K : Type ℓ} (less : K → K → Bool) (o : WeakOrder less) (l : SkipList K) (keys : List K)
    (key : K)
    → Represents l keys
    → Sorted less keys
    → contains less l key ≡ some (has less key keys)
contains-eq-has less o l keys key r s =
    let p = position less o l keys key r s in
    let (prev, found) = search less o l keys key r s p in
    contains-at less o key l p.post (upper less key keys) prev found p.high
    ∙ ap some (sym (has-first less o key keys s))
