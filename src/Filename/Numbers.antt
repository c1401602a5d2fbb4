-- ===== src/Filename/Numbers.antt =====
-- The decimal numbers in file names.
use mini_leveldb.Prelude.{
  ℕ, zero, suc, ◌+◌, ◌-◌, ◌*◌, ◌/◌, ◌%◌, ◌^◌, ◌<◌, min, ltb, true, false, ◌&&◌, ◌≡◌, refl, ap, ◌∙◌,
  Bool-cases, inl, inr, ltb→le, [], ◌∷◌, ◌++◌, append_assoc, Bytes, length, length-append, IsU64,
  arith,
}
use mini_leveldb.Filename.{decimal_digits, decimal, only_digits, digits_value, strtoull, is_digit}

only_digits-append : (a b : Bytes) → only_digits (a ++ b) ≡ (only_digits a && only_digits b)
unfolding only_digits
only_digits-append [] b = refl
only_digits-append (c ∷ a) b = ground (arith, only_digits-append a b)

decimal_digits_only : (fuel n : ℕ) → only_digits (decimal_digits fuel n) ≡ true
unfolding decimal_digits only_digits
decimal_digits_only zero n = refl
decimal_digits_only (suc fuel) n = ground (
  arith,
  decimal_digits_only fuel (n / 10),
  only_digits-append (decimal_digits fuel (n / 10)) ((48 + n % 10) ∷ []),
)

pub only_digits-decimal : (n : ℕ) → only_digits (decimal n) ≡ true
unfolding decimal
only_digits-decimal n = decimal_digits_only (suc n) n

pub decimal_some : (n : ℕ) → 0 < length (decimal n)
unfolding decimal decimal_digits
decimal_some n = ground (arith, length-append (decimal_digits n (n / 10)) ((48 + n % 10) ∷ []))

digits_value-decimal :
    (fuel n : ℕ) (rest : Bytes)
    → n < fuel
    → digits_value 0 (decimal_digits fuel n ++ rest) ≡ digits_value n rest
unfolding digits_value decimal_digits
digits_value-decimal zero n rest h = absurd (omega arith)
digits_value-decimal (suc fuel) n rest h = elim (Bool-cases (ltb n 10)) [
  | inl small ↦ ground (arith, small)
  | inr large ↦
      let front = decimal_digits fuel (n / 10) in
      let digit = 48 + n % 10 in
      let less : n / 10 < fuel = omega (arith, ltb→le n 10 large) in
      let value : n / 10 * 10 + (digit - 48) ≡ n = omega arith in
      let last : digits_value (n / 10) (digit ∷ rest) ≡ digits_value n rest =
        ground (arith, value) in
      ground (
        arith,
        large,
        append_assoc front (digit ∷ []) rest,
        digits_value-decimal fuel (n / 10) (digit ∷ rest) less,
        last,
      )
]

-- A number is read back in front of anything that is no digit.
pub strtoull-decimal :
    (n c : ℕ) (rest : Bytes) → IsU64 n → is_digit c ≡ false → strtoull (decimal n ++ (c ∷ rest)) ≡ n
unfolding strtoull decimal
strtoull-decimal n c rest h stop =
    let stops : digits_value n (c ∷ rest) ≡ n = unfold digits_value in ground (arith, stop) in
    ap (λ (t : ℕ). min t (2 ^ 64 - 1))
      (digits_value-decimal (suc n) n (c ∷ rest) (omega arith) ∙ stops)
    ∙ omega arith
