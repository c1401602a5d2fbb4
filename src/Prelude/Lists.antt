-- ===== src/Prelude/Lists.antt =====
-- Byte sequences as lists, measured and indexed by native numbers.
use Prim.Native.Nat.{ℕ, zero, suc, ◌+◌, ◌-◌, ◌≤◌, ◌<◌, min}
use Prim.Native.Char.{code}
use Prim.Native.String.{String}
use mathlib.Core.Path.{◌≡◌, refl, ap, ap₂, sym, ◌∙◌}
use mathlib.Core.Logic.{◌⊎◌, inl, inr}
use mathlib.Core.List.{List, [], ◌∷◌, ◌++◌}
use native.Mathlib.Omega.{arith}

-- A byte is a number below 256. A Slice or std::string is a list of bytes.
abbrev pub Bytes : Type 0
Bytes = List ℕ

-- The bytes of an ASCII text.
abbrev pub codes : String → Bytes
codes String.[] = []
codes (String.◌∷◌ c s) = code c ∷ codes s

module _ {ℓ} {A : Type ℓ} where
  abbrev pub length : List A → ℕ
  length [] = 0
  length (x ∷ xs) = suc (length xs)

  abbrev pub get_or : List A → ℕ → A → A
  get_or [] i d = d
  get_or (x ∷ xs) zero d = x
  get_or (x ∷ xs) (suc i) d = get_or xs i d

  abbrev pub take : ℕ → List A → List A
  take zero xs = []
  take (suc n) [] = []
  take (suc n) (x ∷ xs) = x ∷ take n xs

  abbrev pub drop : ℕ → List A → List A
  drop zero xs = xs
  drop (suc n) [] = []
  drop (suc n) (x ∷ xs) = drop n xs

  abbrev pub replicate : ℕ → A → List A
  replicate zero a = []
  replicate (suc n) a = a ∷ replicate n a

  abbrev pub All {κ} : (A → Type κ) → List A → Type κ
  All P [] = Unit {κ}
  All P (x ∷ xs) = P x × All P xs

module _ {ℓ} {A : Type ℓ} where
  pub length-append : (xs ys : List A) → length (xs ++ ys) ≡ length xs + length ys
  length-append [] ys = omega arith
  length-append (x ∷ xs) ys = omega (arith, length-append xs ys)

  pub take-append-drop : (n : ℕ) (xs : List A) → take n xs ++ drop n xs ≡ xs
  take-append-drop zero xs = refl
  take-append-drop (suc n) [] = refl
  take-append-drop (suc n) (x ∷ xs) = ap (λ t. x ∷ t) (take-append-drop n xs)

  pub length-take : (n : ℕ) (xs : List A) → length (take n xs) ≡ min n (length xs)
  length-take zero xs = omega arith
  length-take (suc n) [] = omega arith
  length-take (suc n) (x ∷ xs) = omega (arith, length-take n xs)

  pub length-drop : (n : ℕ) (xs : List A) → length (drop n xs) ≡ length xs - n
  length-drop zero xs = omega arith
  length-drop (suc n) [] = omega arith
  length-drop (suc n) (x ∷ xs) = omega (arith, length-drop n xs)

  pub length-replicate : (n : ℕ) (a : A) → length (replicate n a) ≡ n
  length-replicate zero a = refl
  length-replicate (suc n) a = ap suc (length-replicate n a)

  -- `take` and `drop` at the length of a front part.
  pub take-append : (n : ℕ) (xs ys : List A) → length xs ≡ n → take n (xs ++ ys) ≡ xs
  take-append zero [] ys h = refl
  take-append zero (x ∷ xs) ys h = absurd (omega arith)
  take-append (suc n) [] ys h = absurd (omega arith)
  take-append (suc n) (x ∷ xs) ys h = ap (λ t. x ∷ t) (take-append n xs ys (omega arith))

  pub drop-append : (n : ℕ) (xs ys : List A) → length xs ≡ n → drop n (xs ++ ys) ≡ ys
  drop-append zero [] ys h = refl
  drop-append zero (x ∷ xs) ys h = absurd (omega arith)
  drop-append (suc n) [] ys h = absurd (omega arith)
  drop-append (suc n) (x ∷ xs) ys h = drop-append n xs ys (omega arith)

  pub take_all : (n : ℕ) (xs : List A) → length xs ≤ n → take n xs ≡ xs
  take_all zero [] h = refl
  take_all zero (x ∷ xs) h = absurd (omega arith)
  take_all (suc n) [] h = refl
  take_all (suc n) (x ∷ xs) h = ap (λ t. x ∷ t) (take_all n xs (omega arith))

  pub drop_all : (n : ℕ) (xs : List A) → length xs ≤ n → drop n xs ≡ []
  drop_all zero [] h = refl
  drop_all zero (x ∷ xs) h = absurd (omega arith)
  drop_all (suc n) [] h = refl
  drop_all (suc n) (x ∷ xs) h = drop_all n xs (omega arith)

  pub drop-nil : (k : ℕ) → drop {A = A} k [] ≡ []
  drop-nil zero = refl
  drop-nil (suc k) = refl

  pub drop-drop : (n m : ℕ) (xs : List A) → drop n (drop m xs) ≡ drop (m + n) xs
  drop-drop n zero xs = ap (λ t. drop t xs) (omega arith)
  drop-drop n (suc m) [] = drop-nil n ∙ sym (drop-nil (suc m + n))
  drop-drop n (suc m) (x ∷ xs) =
      let e : suc m + n ≡ suc (m + n) = omega arith in
      drop-drop n m xs ∙ sym (ap (λ t. drop t (x ∷ xs)) e)

  -- `drop` past two parts.
  pub drop-append-append :
      (n m : ℕ) (xs ys zs : List A)
      → length xs ≡ n
      → length ys ≡ m
      → drop (n + m) (xs ++ (ys ++ zs)) ≡ zs
  drop-append-append n m xs ys zs hx hy =
      sym (drop-drop m n (xs ++ (ys ++ zs)))
      ∙ ap (drop m) (drop-append n xs (ys ++ zs) hx)
      ∙ drop-append m ys zs hy

  -- Two ways to cut one list, the second cut not behind the first.
  pub append_split :
      (front back cut rest : List A)
      → front ++ back ≡ cut ++ rest
      → length cut ≤ length front
      → (front ≡ cut ++ drop (length cut) front) × (drop (length cut) front ++ back ≡ rest)
  append_split front back [] rest e h = (refl, e)
  append_split [] back (x ∷ cut) rest e h = absurd (omega arith)
  append_split (y ∷ front) back (x ∷ cut) rest e h =
      let tails : front ++ back ≡ cut ++ rest = cc in
      let heads : y ≡ x = cc in
      let (same, left) = append_split front back cut rest tails (omega arith) in
      (ap₂ ◌∷◌ heads same, left)

  pub get_or-append :
      (xs ys : List A) (i : ℕ) (d : A) → i < length xs → get_or (xs ++ ys) i d ≡ get_or xs i d
  get_or-append [] ys i d h = absurd (omega arith)
  get_or-append (x ∷ xs) ys zero d h = refl
  get_or-append (x ∷ xs) ys (suc i) d h = get_or-append xs ys i d (omega arith)

  pub length-eq-zero : (xs : List A) → length xs ≡ 0 → xs ≡ []
  length-eq-zero [] h = refl
  length-eq-zero (x ∷ xs) h = absurd (omega arith)

  -- A proper front part of two parts ends in the first, or has all of it.
  pub append_cut :
      (front : List A) (y : A) (back part rest : List A)
      → front ++ (y ∷ back) ≡ part ++ rest
      → ((z : A) × (zs : List A) × (front ++ (z ∷ zs) ≡ part))
        ⊎ ((front' : List A) × (front ≡ part ++ front') × (front' ++ (y ∷ back) ≡ rest))
  append_cut front y back [] rest e = inr (front, refl, e)
  append_cut [] y back (x ∷ part) rest e = inl (x, part, refl)
  append_cut (z ∷ front) y back (x ∷ part) rest e =
      let tails : front ++ (y ∷ back) ≡ part ++ rest = cc in
      let heads : z ≡ x = cc in
      elim (append_cut front y back part rest tails) [
        | inl (w, ws, same) ↦ inl (w, ws, ap₂ ◌∷◌ heads same)
        | inr (front', same, left) ↦ inr (front', ap₂ ◌∷◌ heads same, left)
      ]

  pub append-ne-nil : (front : List A) (y : A) (back : List A) → ¬ (front ++ (y ∷ back) ≡ [])
  append-ne-nil [] y back e = cc
  append-ne-nil (x ∷ front) y back e = cc

  pub cons_of : (xs : List A) → 0 < length xs → (y : A) × (ys : List A) × (y ∷ ys ≡ xs)
  cons_of [] h = absurd (omega arith)
  cons_of (x ∷ xs) h = (x, xs, refl)

  pub take-nil : (n : ℕ) → take {A = A} n [] ≡ []
  take-nil zero = refl
  take-nil (suc n) = refl
