-- ===== src/Prelude/Word.antt =====
-- Machine words as native numbers: wrap by `%`, shift by `*` and `/`; `|` of disjoint fields.
use Prim.Native.Nat.{ℕ, zero, suc, ◌+◌, ◌-◌, ◌*◌, ◌/◌, ◌%◌, ◌^◌, ◌≤◌, ◌<◌, max}
use Prim.Native.Nat.{min, bit_and, bit_or, digits, bit_and-bitwise, bit_or-bitwise}
use mathlib.Core.Path.{◌≡◌, refl, ap, ◌∙◌, subst}
use native.Mathlib.Nat.{
  div-div-eq-div-mul, pow-suc, one-le-pow, mod-lt, mod-eq_of_lt, div-add-mod, mul-add-mod_self_left,
}
use native.Mathlib.Numerals.{towards_suc}
use native.Mathlib.Omega.{arith}

abbrev pub u8 : ℕ → ℕ
u8 n = n % 2 ^ 8

abbrev pub u32 : ℕ → ℕ
u32 n = n % 2 ^ 32

abbrev pub u64 : ℕ → ℕ
u64 n = n % 2 ^ 64

infixl 60 ◌<<<◌ ◌>>>◌
abbrev pub ◌<<<◌ : ℕ → ℕ → ℕ
x <<< k = x * 2 ^ k

abbrev pub ◌>>>◌ : ℕ → ℕ → ℕ
x >>> k = x / 2 ^ k

abbrev pub IsByte : ℕ → Type 0
IsByte b = b < 256

abbrev pub IsU32 : ℕ → Type 0
IsU32 v = v < 2 ^ 32

abbrev pub IsU64 : ℕ → Type 0
IsU64 v = v < 2 ^ 64

digits_same :
    (empty : ℕ → ℕ) (op : ℕ → ℕ → ℕ) (n m a b : ℕ)
    → a ≤ n
    → a ≤ m
    → digits empty op n a b ≡ digits empty op m a b
digits_same empty op zero zero a b h k = refl
digits_same empty op zero (suc m) a b h k =
    let none_left : 0 ≡ a = omega arith in
    subst (λ t. digits empty op 0 t b ≡ digits empty op (suc m) t b) none_left refl
digits_same empty op (suc n) zero a b h k =
    let none_left : 0 ≡ a = omega arith in
    subst (λ t. digits empty op (suc n) t b ≡ digits empty op 0 t b) none_left refl
digits_same empty op (suc n) (suc m) zero b h k = refl
digits_same empty op (suc n) (suc m) (suc a) b h k =
    let step = digits_same empty op n m (suc a / 2) (b / 2) (omega arith) (omega arith) in
    ap (λ (t : ℕ). t * 2 + op (suc a % 2) (b % 2)) step

-- A bitwise operation reads no more digits than its first number has.
digits_enough :
    (empty : ℕ → ℕ) (op : ℕ → ℕ → ℕ) (a n b : ℕ)
    → a ≤ n
    → digits empty op n a b ≡ digits empty op a a b
digits_enough empty op a n b h = digits_same empty op n a a b h (omega arith)

pub zero-bit_or : (b : ℕ) → bit_or 0 b ≡ b
zero-bit_or b = bit_or-bitwise 0 b

-- The lowest digit of `|`.
pub bit_or_low : (a b : ℕ) → bit_or a b ≡ bit_or (a / 2) (b / 2) * 2 + max (a % 2) (b % 2)
bit_or_low zero b = let rest = zero-bit_or (b / 2) in omega (arith, zero-bit_or b, rest)
bit_or_low (suc a) b =
    let halves = bit_or-bitwise (suc a / 2) (b / 2) in
    let enough = digits_enough (λ y. y) max (suc a / 2) a (b / 2) (omega arith) in
    bit_or-bitwise (suc a) b ∙ omega (arith, enough, halves)

all_digits : (n a : ℕ) → a ≤ n → digits (λ y. y) max n a 0 ≡ a
all_digits zero a h = omega arith
all_digits (suc n) zero h = refl
all_digits (suc n) (suc a) h = omega (arith, all_digits n (suc a / 2) (omega arith))

pub bit_or-zero : (a : ℕ) → bit_or a 0 ≡ a
bit_or-zero a = bit_or-bitwise a 0 ∙ all_digits a a (omega arith)

two_pow : (q k : ℕ) → q * 2 ^ suc k ≡ 2 * (q * 2 ^ k)
two_pow q k = omega (arith, ap (λ (t : ℕ). q * t) (pow-suc 2 k))

-- `r | (q << k)` is a sum when `r` fits `k` bits.
pub bit_or_shifted : (k r q : ℕ) → r < 2 ^ k → bit_or r (q <<< k) ≡ r + q * 2 ^ k
bit_or_shifted zero zero q h = omega (arith, zero-bit_or (q * 1))
bit_or_shifted zero (suc r) q h = absurd (omega arith)
bit_or_shifted (suc k) r q h =
    let half : q * 2 ^ suc k / 2 ≡ q * 2 ^ k = omega (arith, two_pow q k) in
    omega (
      arith,
      bit_or_low r (q * 2 ^ suc k),
      two_pow q k,
      ap (bit_or (r / 2)) half,
      bit_or_shifted k (r / 2) q (omega (arith, pow-suc 2 k)),
    )

-- One more byte, and seven more bits, of a power.
pub pow_byte : (i : ℕ) → 2 ^ (8 * (i + 1)) ≡ 256 * 2 ^ (8 * i)
pow_byte i =
    let e : 8 * (i + 1) ≡ 8 * i + 8 = omega arith in
    ap (λ (t : ℕ). 2 ^ t) e ∙ simp towards_suc (omega arith)

pub pow_seven : (s : ℕ) → 2 ^ (s + 7) ≡ 128 * 2 ^ s
pow_seven s = simp towards_suc (omega arith)

-- The low digits of a number and the next digit to the base `c`.
pub mod_mul : (v p c : ℕ) → 0 < p → 0 < c → v % (c * p) ≡ v % p + v / p % c * p
mod_mul v p c hp hc =
    let q = v / p / c in
    let low = v % p + v / p % c * p in
    let whole : v ≡ c * p * q + low =
      omega (arith, div-add-mod v p, ap (λ (t : ℕ). p * t) (div-add-mod (v / p) c)) in
    let small : low < c * p = grind (arith, mod-lt v hp, mod-lt (v / p) hc) in
    ap (λ (t : ℕ). t % (c * p)) whole ∙ mul-add-mod_self_left (c * p) q low ∙ mod-eq_of_lt small

-- The lowest digit of `&`.
pub bit_and_low : (a b : ℕ) → bit_and a b ≡ bit_and (a / 2) (b / 2) * 2 + min (a % 2) (b % 2)
bit_and_low zero b =
    let half = bit_and-bitwise 0 (b / 2) in bit_and-bitwise 0 b ∙ omega (arith, half)
bit_and_low (suc a) b =
    let halves = bit_and-bitwise (suc a / 2) (b / 2) in
    let enough = digits_enough (λ y. zero) min (suc a / 2) a (b / 2) (omega arith) in
    bit_and-bitwise (suc a) b ∙ omega (arith, enough, halves)

no_digits : (n a : ℕ) → digits (λ y. zero) min n a 0 ≡ 0
no_digits zero zero = refl
no_digits zero (suc a) = refl
no_digits (suc n) zero = refl
no_digits (suc n) (suc a) = omega (arith, no_digits n (suc a / 2))

pub bit_and-zero : (a : ℕ) → bit_and a 0 ≡ 0
bit_and-zero a = bit_and-bitwise a 0 ∙ no_digits a a

-- A mask of low ones is a remainder.
pub bit_and_mask : (k a : ℕ) → bit_and a (2 ^ k - 1) ≡ a % 2 ^ k
bit_and_mask zero a = omega (arith, bit_and-zero a)
bit_and_mask (suc k) a =
    let p = 2 ^ k in
    let pos : 0 < p = one-le-pow k 2 (omega arith) in
    let double : 2 ^ suc k ≡ p * 2 = pow-suc 2 k in
    let half : (2 ^ suc k - 1) / 2 ≡ p - 1 = omega (arith, double) in
    let cut : a % 2 ^ suc k ≡ a % 2 + a / 2 % p * 2 =
      ap (λ (t : ℕ). a % t) double ∙ mod_mul a 2 p (omega arith) pos in
    omega (
      arith,
      double,
      cut,
      bit_and_low a (2 ^ suc k - 1),
      ap (bit_and (a / 2)) half,
      bit_and_mask k (a / 2),
    )

-- The mask of one bit.
pub bit_and_bit : (k a : ℕ) → bit_and a (2 ^ k) ≡ a / 2 ^ k % 2 * 2 ^ k
bit_and_bit zero a = omega (arith, bit_and_low a 1, bit_and-zero (a / 2))
bit_and_bit (suc k) a =
    let p = 2 ^ k in
    let double : 2 ^ suc k ≡ p * 2 = pow-suc 2 k in
    let half : 2 ^ suc k / 2 ≡ p = omega (arith, double) in
    let cut : a / 2 / p ≡ a / 2 ^ suc k =
      div-div-eq-div-mul a 2 p ∙ ap (λ (t : ℕ). a / t) (omega (arith, double)) in
    omega (
      arith,
      double,
      ap (λ (t : ℕ). t % 2 * 2 ^ suc k) cut,
      ap (λ (t : ℕ). a / 2 / p % 2 * t) double,
      bit_and_low a (2 ^ suc k),
      ap (bit_and (a / 2)) half,
      bit_and_bit k (a / 2),
    )
