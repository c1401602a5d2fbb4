-- ===== src/Slice/Order.antt =====
-- `Slice::compare` is the lexicographic order of byte strings, and a total order.
use mini_leveldb.Prelude.{
  ap, ℕ, zero, suc, ◌≤◌, ◌<◌, min, ltb, if◌then◌else◌, true, ◌≡◌, refl, ◌↔◌, inl, inr, [], ◌∷◌,
  ◌++◌, Bytes, length, Bool-cases, drop, ltb→lt, arith, Comparison, less, same, more, length-append,
}
use mathlib.Core.Path.{subst}
use mini_leveldb.Slice.{
  is_same, is_less, slice_eq, slice_ne, slice_lt, memcmp, compare_lengths, compare, starts_with,
}

-- The order by the first difference, a proper prefix first.
pub data Below : Bytes → Bytes → Type 0 where
  prefix : {y : ℕ} {b : Bytes} → Below [] (y ∷ b)
  byte : {x y : ℕ} {a b : Bytes} → x < y → Below (x ∷ a) (y ∷ b)
  tail : {x : ℕ} {a b : Bytes} → Below a b → Below (x ∷ a) (x ∷ b)

-- The same order as a comparison.
unfoldable pub lex : Bytes → Bytes → Comparison
lex [] [] = same
lex [] (y ∷ b) = less
lex (x ∷ a) [] = more
lex (x ∷ a) (y ∷ b) = if ltb x y then less else if ltb y x then more else lex a b

compare-eq-lex_upto :
    (k : ℕ) (a b : Bytes)
    → k ≡ min (length a) (length b)
    → compare_lengths (memcmp k a b) (length a) (length b) ≡ lex a b
unfolding memcmp compare_lengths lex
compare-eq-lex_upto zero [] [] h = refl
compare-eq-lex_upto zero [] (y ∷ b) h = ground arith
compare-eq-lex_upto zero (x ∷ a) [] h = ground arith
compare-eq-lex_upto zero (x ∷ a) (y ∷ b) h = absurd (omega arith)
compare-eq-lex_upto (suc k) [] b h = absurd (omega arith)
compare-eq-lex_upto (suc k) (x ∷ a) [] h = absurd (omega arith)
compare-eq-lex_upto (suc k) (x ∷ a) (y ∷ b) h = ground (arith, compare-eq-lex_upto k a b)

-- `compare` finds the first difference.
pub compare-eq-lex : (a b : Bytes) → compare a b ≡ lex a b
unfolding compare
compare-eq-lex a b = compare-eq-lex_upto _ a b refl

pub lex-eq-same : (a b : Bytes) → lex a b ≡ same → a ≡ b
unfolding lex
lex-eq-same [] [] h = refl
lex-eq-same [] (y ∷ b) h = cc
lex-eq-same (x ∷ a) [] h = cc
lex-eq-same (x ∷ a) (y ∷ b) h = ground (arith, lex-eq-same a b)

pub lex_refl : (a : Bytes) → lex a a ≡ same
unfolding lex
lex_refl [] = refl
lex_refl (x ∷ a) = ground (arith, lex_refl a)

unfoldable pub flip : Comparison → Comparison
flip less = more
flip same = same
flip more = less

pub lex-flip : (a b : Bytes) → lex b a ≡ flip (lex a b)
unfolding lex flip
lex-flip [] [] = refl
lex-flip [] (y ∷ b) = refl
lex-flip (x ∷ a) [] = refl
lex-flip (x ∷ a) (y ∷ b) = ground (arith, lex-flip a b)

pub lex_trans : (a b c : Bytes) → lex a b ≡ less → lex b c ≡ less → lex a c ≡ less
unfolding lex
lex_trans [] [] c p q = cc
lex_trans [] (y ∷ b) [] p q = cc
lex_trans [] (y ∷ b) (z ∷ c) p q = refl
lex_trans (x ∷ a) [] c p q = cc
lex_trans (x ∷ a) (y ∷ b) [] p q = cc
lex_trans (x ∷ a) (y ∷ b) (z ∷ c) p q = ground (arith, lex_trans a b c)

less→Below : (a b : Bytes) → lex a b ≡ less → Below a b
unfolding lex
less→Below [] [] h = cc
less→Below [] (y ∷ b) h = prefix
less→Below (x ∷ a) [] h = cc
less→Below (x ∷ a) (y ∷ b) h = elim (Bool-cases (ltb x y)) [
  | inl below ↦ byte (ltb→lt x y below)
  | inr above ↦
      let e : x ≡ y = ground arith in
      let rest : lex a b ≡ less = ground arith in
      subst (λ z. Below (x ∷ a) (z ∷ b)) e (tail (less→Below a b rest))
]

Below→less : {a b : Bytes} → Below a b → lex a b ≡ less
unfolding lex
Below→less prefix = refl
Below→less (byte h) = ground arith
Below→less (tail h) = ground (arith, Below→less h)

pub Below-trans : {a b c : Bytes} → Below a b → Below b c → Below a c
Below-trans {a} {b} {c} p q = less→Below a c (lex_trans a b c (Below→less p) (Below→less q))

-- `compare` is negative exactly when the first string stands before the second in dictionary
-- order, zero exactly on equal strings, and changes its sign with its arguments swapped.
pub compare_iff :
    (a b : Bytes)
    → ((compare a b ≡ less) ↔ Below a b)
      × ((compare a b ≡ same) ↔ (a ≡ b))
      × (compare b a ≡ flip (compare a b))
compare_iff a b =
    rw (compare-eq-lex a b, compare-eq-lex b a)
      (
        (less→Below a b, Below→less),
        (lex-eq-same a b, λ e. subst (λ z. lex a z ≡ same) e (lex_refl a)),
        lex-flip a b,
      )

same-memcmp :
    (p a : Bytes) → length p ≤ length a → memcmp (length p) a p ≡ same → a ≡ p ++ drop (length p) a
unfolding memcmp
same-memcmp [] a h e = refl
same-memcmp (x ∷ p) [] h e = absurd (omega arith)
same-memcmp (x ∷ p) (y ∷ a) h e = ground (arith, same-memcmp p a)

memcmp-append : (p rest : Bytes) → memcmp (length p) (p ++ rest) p ≡ same
unfolding memcmp
memcmp-append [] rest = refl
memcmp-append (x ∷ p) rest = ground (arith, memcmp-append p rest)

-- `starts_with` holds exactly of the strings that the prefix begins.
pub starts_with_iff : (a p : Bytes) → (starts_with a p ≡ true) ↔ ((rest : Bytes) × (a ≡ p ++ rest))
unfolding starts_with
starts_with_iff a p = (
  λ h. (drop (length p) a, ground (arith, same-memcmp p a)),
  λ (rest, e). rw (e, memcmp-append p rest) (ground (arith, length-append p rest)),
)

is_same_same : (r : Comparison) → is_same r ≡ true → r ≡ same
unfolding is_same
is_same_same less h = absurd cc
is_same_same same h = refl
is_same_same more h = absurd cc

pub slice_eq_iff : (a b : Bytes) → (slice_eq a b ≡ true) ↔ (a ≡ b)
unfolding slice_eq is_same
slice_eq_iff a b =
    (λ h. (compare_iff a b).1.0 (is_same_same _ h), λ e. ap is_same ((compare_iff a b).1.1 e))

is_less_less : (r : Comparison) → is_less r ≡ true → r ≡ less
unfolding is_less
is_less_less less h = refl
is_less_less same h = absurd cc
is_less_less more h = absurd cc

pub slice_lt_iff : (a b : Bytes) → (slice_lt a b ≡ true) ↔ Below a b
unfolding slice_lt is_less
slice_lt_iff a b =
    (λ h. (compare_iff a b).0.0 (is_less_less _ h), λ e. ap is_less ((compare_iff a b).0.1 e))

slice_ne_iff : (a b : Bytes) → (slice_ne a b ≡ true) ↔ ¬ (a ≡ b)
unfolding slice_ne
slice_ne_iff a b = elim (Bool-cases (slice_eq a b)) [
  | inl here ↦ rw here (λ h. absurd cc, λ other. absurd (other ((slice_eq_iff a b).0 here)))
  | inr other ↦ rw other (λ h e. let here = (slice_eq_iff a b).1 e in absurd cc, λ h. refl)
]

-- `operator<` holds exactly of two strings in dictionary order, `operator==` exactly of equal strings
-- and `operator!=` exactly of strings that are not equal.
pub operators_iff :
    (a b : Bytes)
    → ((slice_lt a b ≡ true) ↔ Below a b)
      × ((slice_eq a b ≡ true) ↔ (a ≡ b))
      × ((slice_ne a b ≡ true) ↔ ¬ (a ≡ b))
operators_iff a b = (slice_lt_iff a b, slice_eq_iff a b, slice_ne_iff a b)
