-- ===== src/Skiplist/Chain.antt =====
-- The levels of the list of src/db/skiplist.h: along each level the pointers visit the nodes that
-- are tall enough, in one order for all levels.
use mini_leveldb.Prelude.{
  ℕ, ◌<◌, ltb, if◌then◌else◌, Bool-cases, ltb→lt, ◌≡◌, refl, ap, ◌⊎◌, inl, inr, Option, none, some,
  List, [], ◌∷◌, ◌++◌, arith,
}
use mini_leveldb.Skiplist.{Node, next_of}

abbrev pub head_of : List ℕ → Option ℕ
head_of [] = none
head_of (a ∷ xs) = some a

module _ (height : ℕ → ℕ) where
  -- The nodes of level `i`, of these in their order.
  unfoldable pub tall : ℕ → List ℕ → List ℕ
  tall i [] = []
  tall i (a ∷ xs) = let rest = tall i xs in if ltb i (height a) then a ∷ rest else rest

  -- The last node of level `i`, `x` if there is none.
  unfoldable pub last_of : ℕ → ℕ → List ℕ → ℕ
  last_of i x [] = x
  last_of i x (a ∷ xs) =
      let there = last_of i a xs in
      let here = last_of i x xs in if ltb i (height a) then there else here

  pub tall-append : (i : ℕ) (xs ys : List ℕ) → tall i (xs ++ ys) ≡ tall i xs ++ tall i ys
  unfolding tall
  tall-append i [] ys = refl
  tall-append i (a ∷ xs) ys = ground (arith, tall-append i xs ys)

  -- The first node of a level.
  pub first_tall :
      (i : ℕ) (xs : List ℕ)
      → (tall i xs ≡ [])
        ⊎ ((front : List ℕ) × (a : ℕ) × (back : List ℕ) × (front ++ (a ∷ back) ≡ xs)
            × (tall i front ≡ [])
            × (i < height a))
  unfolding tall
  first_tall i [] = inl refl
  first_tall i (a ∷ xs) = elim (Bool-cases (ltb i (height a))) [
    | inl e ↦ inr ([], a, xs, refl, refl, ltb→lt _ _ e)
    | inr e ↦ elim (first_tall i xs) [
      | inl none_left ↦ inl (ground (arith, e, none_left))
      | inr (front, b, back, parts, skipped, high) ↦
          inr (a ∷ front, b, back, ap (λ t. a ∷ t) parts, ground (arith, e, skipped), high)
    ]
  ]

  pub last_of-none : (i x : ℕ) (xs : List ℕ) → tall i xs ≡ [] → last_of i x xs ≡ x
  unfolding tall last_of
  last_of-none i x [] h = refl
  last_of-none i x (a ∷ xs) h = ground (arith, h, last_of-none i x xs)

  pub last_of-append :
      (i x : ℕ) (front : List ℕ) (a : ℕ) (back : List ℕ)
      → i < height a
      → last_of i x (front ++ (a ∷ back)) ≡ last_of i a back
  unfolding last_of
  last_of-append i x [] a back h = ground (arith, h)
  last_of-append i x (b ∷ front) a back h =
      ground (arith, last_of-append i b front a back h, last_of-append i x front a back h)

  -- Every node stands on level 0.
  pub tall_all : ((a : ℕ) → 0 < height a) → (xs : List ℕ) → tall 0 xs ≡ xs
  unfolding tall
  tall_all h [] = refl
  tall_all h (a ∷ xs) = ground (arith, h a, tall_all h xs)

-- The pointers of level `i` from `x` on visit these nodes and end.
unfoldable pub Links {ℓ} : {K : Type ℓ} → List (Node K) → ℕ → ℕ → List ℕ → Type 0
Links nodes i x [] = next_of nodes x i ≡ none
Links nodes i x (a ∷ xs) = (next_of nodes x i ≡ some a) × Links nodes i a xs

module _ {ℓ} {K : Type ℓ} (nodes : List (Node K)) (i : ℕ) where
  pub Links-next : (x : ℕ) (xs : List ℕ) → Links nodes i x xs → next_of nodes x i ≡ head_of xs
  unfolding Links
  Links-next x [] h = h
  Links-next x (a ∷ xs) h = h.0

  pub Links-after :
      (x : ℕ) (front : List ℕ) (a : ℕ) (back : List ℕ)
      → Links nodes i x (front ++ (a ∷ back))
      → Links nodes i a back
  unfolding Links
  Links-after x [] a back h = h.1
  Links-after x (b ∷ front) a back h = Links-after b front a back h.1
