-- ===== src/Skiplist/Splice.antt =====
-- A level of the list of src/db/skiplist.h with one node put in.
use mini_leveldb.Prelude.{
  ℕ, ltb, ◌==◌, false, Bool-cases, ◌≡◌, refl, ◌∙◌, inl, inr, some, List, [], ◌∷◌, ◌++◌, All, arith,
}
use mini_leveldb.Skiplist.{Node, next_of}
use mini_leveldb.Skiplist.Chain.{tall, last_of, Links}

-- Another address.
abbrev pub Apart : ℕ → ℕ → Type 0
Apart a b = (b == a) ≡ false

-- No address twice.
abbrev pub Distinct : List ℕ → Type 0
Distinct [] = Unit
Distinct (a ∷ xs) = All (Apart a) xs × Distinct xs

unfoldable pub last_or : ℕ → List ℕ → ℕ
last_or x [] = x
last_or x (a ∷ xs) = last_or a xs

pub last_of-tall :
    (height : ℕ → ℕ) (i x : ℕ) (xs : List ℕ) → last_of height i x xs ≡ last_or x (tall height i xs)
unfolding last_of last_or tall
last_of-tall height i x [] = refl
last_of-tall height i x (a ∷ xs) =
    ground (arith, last_of-tall height i a xs, last_of-tall height i x xs)

pub All-append : (P : ℕ → Type 0) (xs ys : List ℕ) → All P xs → All P ys → All P (xs ++ ys)
All-append P [] ys h k = k
All-append P (a ∷ xs) ys (h, hs) k = (h, All-append P xs ys hs k)

pub All-front : (P : ℕ → Type 0) (xs ys : List ℕ) → All P (xs ++ ys) → All P xs
All-front P [] ys h = tt
All-front P (a ∷ xs) ys (h, hs) = (h, All-front P xs ys hs)

pub All-back : (P : ℕ → Type 0) (xs ys : List ℕ) → All P (xs ++ ys) → All P ys
All-back P [] ys h = h
All-back P (a ∷ xs) ys (h, hs) = All-back P xs ys hs

pub All-tall :
    (P : ℕ → Type 0) (height : ℕ → ℕ) (i : ℕ) (xs : List ℕ) → All P xs → All P (tall height i xs)
unfolding tall
All-tall P height i [] h = tt
All-tall P height i (a ∷ xs) (h, hs) = elim (Bool-cases (ltb i (height a))) [
  | inl e ↦ rw e (h, All-tall P height i xs hs)
  | inr e ↦ rw e (All-tall P height i xs hs)
]

pub Distinct-tall :
    (height : ℕ → ℕ) (i : ℕ) (xs : List ℕ) → Distinct xs → Distinct (tall height i xs)
unfolding tall
Distinct-tall height i [] h = tt
Distinct-tall height i (a ∷ xs) (h, hs) = elim (Bool-cases (ltb i (height a))) [
  | inl e ↦ rw e (All-tall (Apart a) height i xs h, Distinct-tall height i xs hs)
  | inr e ↦ rw e (Distinct-tall height i xs hs)
]

last_or-Apart : (x a : ℕ) (xs : List ℕ) → Apart x a → All (Apart x) xs → Apart x (last_or a xs)
unfolding last_or
last_or-Apart x a [] h hs = h
last_or-Apart x a (b ∷ xs) h (k, hs) = last_or-Apart x b xs k hs

module _ {ℓ} {K : Type ℓ} (nodes nodes' : List (Node K)) (n i p : ℕ) where
  -- On level `i` the node `n` has been put in behind `p`.
  pub record Spliced : Type 0 where
    pub at_prev : next_of nodes' p i ≡ some n
    pub at_new : next_of nodes' n i ≡ next_of nodes p i
    pub others : (b : ℕ) → Apart p b → Apart n b → next_of nodes' b i ≡ next_of nodes b i

-- Where neither the place nor the new node is met, a level stays as it was.
Links-kept {ℓ} :
    {K : Type ℓ} (nodes nodes' : List (Node K)) (n i p : ℕ) (x : ℕ) (xs : List ℕ)
    → Spliced nodes nodes' n i p
    → All (Apart p) (x ∷ xs)
    → All (Apart n) (x ∷ xs)
    → Links nodes i x xs
    → Links nodes' i x xs
unfolding Links
Links-kept nodes nodes' n i p x [] s (a, as_p) (b, as_n) links = s.others x a b ∙ links
Links-kept nodes nodes' n i p x (y ∷ xs) s (a, as_p) (b, as_n) (next, links) =
    (s.others x a b ∙ next, Links-kept nodes nodes' n i p y xs s as_p as_n links)

pub Apart-sym : (a b : ℕ) → Apart a b → Apart b a
Apart-sym a b h = ground arith

pub Links-splice {ℓ} :
    {K : Type ℓ} (nodes nodes' : List (Node K)) (n i x : ℕ) (pre post : List ℕ)
    → Spliced nodes nodes' n i (last_or x pre)
    → Distinct (x ∷ (pre ++ post))
    → All (Apart n) (x ∷ (pre ++ post))
    → Links nodes i x (pre ++ post)
    → Links nodes' i x (pre ++ (n ∷ post))
unfolding Links last_or
Links-splice nodes nodes' n i x [] [] s d f links = (s.at_prev, s.at_new ∙ links)
Links-splice nodes nodes' n i x [] (y ∷ post) s (apart, d) (f, fs) (next, links) =
    (s.at_prev, (s.at_new ∙ next, Links-kept nodes nodes' n i x y post s apart fs links))
Links-splice nodes nodes' n i x (a ∷ pre) post s ((apart, aparts), d) (f, fs) (next, links) =
    let away = last_or-Apart x a pre apart (All-front (Apart x) pre post aparts) in
    (
      s.others x (Apart-sym x _ away) f ∙ next,
      Links-splice nodes nodes' n i a pre post s d fs links,
    )

pub All-between :
    (P : ℕ → Type 0) (pre : List ℕ) (n : ℕ) (post : List ℕ)
    → All P (pre ++ post)
    → P n
    → All P (pre ++ (n ∷ post))
All-between P pre n post h k =
    All-append P pre (n ∷ post) (All-front P pre post h) (k, All-back P pre post h)

pub Distinct-between :
    (pre : List ℕ) (n : ℕ) (post : List ℕ)
    → Distinct (pre ++ post)
    → All (Apart n) (pre ++ post)
    → Distinct (pre ++ (n ∷ post))
Distinct-between [] n post d f = (f, d)
Distinct-between (a ∷ pre) n post (h, d) (f, fs) =
    (All-between (Apart a) pre n post h (Apart-sym n a f), Distinct-between pre n post d fs)
