-- ===== src/Skiplist/Sequence.antt =====
-- What the list of src/db/skiplist.h is to its clients: a sequence of keys in order, where an
-- insertion goes in front of the first key that is not below.
use mini_leveldb.Prelude.{
  Bool, true, false, Bool-cases, if◌then◌else◌, ◌≡◌, refl, inl, inr, Option, none, some, List, [],
  ◌∷◌, ◌++◌, All, arith,
}

-- What `Insert` asks of its comparator: a strict weak order.
pub record WeakOrder {ℓ} {K : Type ℓ} (less : K → K → Bool) : Type ℓ where
  pub asym : (a b : K) → less a b ≡ true → less b a ≡ false
  pub neg_trans : (a b c : K) → less b a ≡ false → less c b ≡ false → less c a ≡ false

module _ {ℓ} {K : Type ℓ} (less : K → K → Bool) (key : K) where
  -- The keys below the key, and those from the first that is not.
  unfoldable pub lower : List K → List K
  lower [] = []
  lower (x ∷ xs) = let rest = lower xs in if less x key then x ∷ rest else []

  unfoldable pub upper : List K → List K
  upper [] = []
  upper (x ∷ xs) = let rest = upper xs in if less x key then rest else x ∷ xs

  abbrev pub insert_key : List K → List K
  insert_key xs = lower xs ++ (key ∷ upper xs)

  abbrev pub first : List K → Option K
  first [] = none
  first (x ∷ xs) = some x

  pub lower-upper : (xs : List K) → lower xs ++ upper xs ≡ xs
  unfolding lower upper
  lower-upper [] = refl
  lower-upper (x ∷ xs) = ground (arith, lower-upper xs)

  pub lower_below : (xs : List K) → All (λ x. less x key ≡ true) (lower xs)
  unfolding lower
  lower_below [] = tt
  lower_below (x ∷ xs) = elim (Bool-cases (less x key)) [
    | inl e ↦ rw e (e, lower_below xs)
    | inr e ↦ rw e tt
  ]

module _ {ℓ} {K : Type ℓ} (less : K → K → Bool) where
  abbrev pub Sorted : List K → Type 0
  Sorted [] = Unit
  Sorted (x ∷ xs) = All (λ y. less y x ≡ false) xs × Sorted xs

  module _ (o : WeakOrder less) (key : K) where
    not_below_rest :
        (x : K) (xs : List K)
        → less x key ≡ false
        → All (λ y. less y x ≡ false) xs
        → All (λ y. less y key ≡ false) xs
    not_below_rest x [] h s = tt
    not_below_rest x (y ∷ xs) h (k, s) = (o.neg_trans key x y h k, not_below_rest x xs h s)

    pub upper_not_below :
        (xs : List K) → Sorted xs → All (λ x. less x key ≡ false) (upper less key xs)
    unfolding upper
    upper_not_below [] s = tt
    upper_not_below (x ∷ xs) (h, s) = elim (Bool-cases (less x key)) [
      | inl e ↦ rw e (upper_not_below xs s)
      | inr e ↦ rw e (e, not_below_rest x xs e h)
    ]

    insert_all :
        (x : K) (xs : List K)
        → less x key ≡ true
        → All (λ y. less y x ≡ false) xs
        → All (λ y. less y x ≡ false) (insert_key less key xs)
    unfolding lower upper
    insert_all x [] e s = (o.asym x key e, tt)
    insert_all x (y ∷ xs) e (h, s) = elim (Bool-cases (less y key)) [
      | inl below ↦ rw below (h, insert_all x xs e s)
      | inr above ↦ rw above (o.asym x key e, (h, s))
    ]

    -- An insertion keeps the order.
    pub insert_key-Sorted : (xs : List K) → Sorted xs → Sorted (insert_key less key xs)
    unfolding lower upper
    insert_key-Sorted [] s = (tt, tt)
    insert_key-Sorted (x ∷ xs) (h, s) = elim (Bool-cases (less x key)) [
      | inl e ↦ rw e (insert_all x xs e h, insert_key-Sorted xs s)
      | inr e ↦ rw e ((e, not_below_rest x xs e h), (h, s))
    ]
