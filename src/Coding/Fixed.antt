-- ===== src/Coding/Fixed.antt =====
-- The fixed-width integers of src/util/coding.h read back what they wrote.
use mini_leveldb.Prelude.{
  ℕ, zero, suc, ◌+◌, ◌*◌, ◌/◌, ◌%◌, ◌^◌, ◌≤◌, ◌<◌, ◌≡◌, refl, sym, ap, ◌∙◌, ◌++◌, bit_or, Bytes,
  length, All, IsByte, IsU32, IsU64, u8, u32, u64, ◌<<<◌, ◌>>>◌, bit_or_shifted, pow_byte, mod_mul,
  arith,
}
use native.Mathlib.Nat.{mod-lt, one-le-pow, pow-le-pow_right}
use mini_leveldb.Coding.{encode_fixed_loop, decode_fixed_loop}
use mini_leveldb.Coding.{encode_fixed32, decode_fixed32, encode_fixed64, decode_fixed64}

pub length-encode_fixed_loop : (n i v : ℕ) → length (encode_fixed_loop n i v) ≡ n
unfolding encode_fixed_loop
length-encode_fixed_loop zero i v = refl
length-encode_fixed_loop (suc n) i v = ap suc (length-encode_fixed_loop n (i + 1) v)

encode_fixed_loop-IsByte : (n i v : ℕ) → All IsByte (encode_fixed_loop n i v)
unfolding encode_fixed_loop
encode_fixed_loop-IsByte zero i v = tt
encode_fixed_loop-IsByte (suc n) i v = (omega arith, encode_fixed_loop-IsByte n (i + 1) v)

-- A byte shifted to place `i` fits the word.
place_fits :
    (wrap : ℕ → ℕ) (i m b : ℕ)
    → ((x : ℕ) → x < 2 ^ (8 * m) → wrap x ≡ x)
    → i + 1 ≤ m
    → b < 256
    → wrap (b <<< (8 * i)) ≡ b * 2 ^ (8 * i)
place_fits wrap i m b fits h hb =
    let room : 2 ^ (8 * (i + 1)) ≤ 2 ^ (8 * m) =
      pow-le-pow_right {n = 2} (omega arith) {i = 8 * (i + 1)} {j = 8 * m} (omega arith) in
    fits _ (grind (arith, room, pow_byte i, one-le-pow (8 * i) 2))

-- With the low `i` bytes read, the loop reads the next `n`.
decode-encode_fixed_loop :
    (wrap : ℕ → ℕ) (n i m v : ℕ) (rest : Bytes)
    → ((x : ℕ) → x < 2 ^ (8 * m) → wrap x ≡ x)
    → i + n ≡ m
    → decode_fixed_loop wrap n i (v % 2 ^ (8 * i)) (encode_fixed_loop n i v ++ rest)
      ≡ v % 2 ^ (8 * m)
unfolding encode_fixed_loop decode_fixed_loop
decode-encode_fixed_loop wrap zero i m v rest fits e =
    let e' : i ≡ m = omega arith in ap (λ (t : ℕ). v % 2 ^ (8 * t)) e'
decode-encode_fixed_loop wrap (suc n) i m v rest fits e =
    let p = 2 ^ (8 * i) in
    let pos : 0 < p = one-le-pow (8 * i) 2 (omega arith) in
    let step : bit_or (v % p) (wrap (u8 (v >>> (8 * i)) <<< (8 * i))) ≡ v % 2 ^ (8 * (i + 1)) =
      ap (bit_or (v % p))
        (place_fits wrap i m (u8 (v >>> (8 * i))) fits (omega arith) (omega arith))
      ∙ bit_or_shifted (8 * i) (v % p) (v / p % 256) (mod-lt v pos)
      ∙ sym (mod_mul v p 256 pos (omega arith))
      ∙ sym (ap (λ (t : ℕ). v % t) (pow_byte i)) in
    ap (λ t. decode_fixed_loop wrap n (i + 1) t (encode_fixed_loop n (i + 1) v ++ rest)) step
    ∙ decode-encode_fixed_loop wrap n (i + 1) m v rest fits (omega arith)

-- `DecodeFixed32` reads back what `EncodeFixed32` wrote, whatever follows.
pub decode-encode_fixed32 :
    (v : ℕ) (rest : Bytes) → IsU32 v → decode_fixed32 (encode_fixed32 v ++ rest) ≡ v
unfolding decode_fixed32 encode_fixed32
decode-encode_fixed32 v rest h =
    let low : 0 ≡ v % 2 ^ (8 * 0) = omega arith in
    ap (λ t. decode_fixed_loop u32 4 0 t (encode_fixed_loop 4 0 v ++ rest)) low
    ∙ decode-encode_fixed_loop u32 4 0 4 v rest (λ x l. omega arith) refl
    ∙ omega arith

-- `DecodeFixed64` reads back what `EncodeFixed64` wrote, whatever follows.
pub decode-encode_fixed64 :
    (v : ℕ) (rest : Bytes) → IsU64 v → decode_fixed64 (encode_fixed64 v ++ rest) ≡ v
unfolding decode_fixed64 encode_fixed64
decode-encode_fixed64 v rest h =
    let low : 0 ≡ v % 2 ^ (8 * 0) = omega arith in
    ap (λ t. decode_fixed_loop u64 8 0 t (encode_fixed_loop 8 0 v ++ rest)) low
    ∙ decode-encode_fixed_loop u64 8 0 8 v rest (λ x l. omega arith) refl
    ∙ omega arith

pub length-encode_fixed32 : (v : ℕ) → length (encode_fixed32 v) ≡ 4
unfolding encode_fixed32
length-encode_fixed32 v = length-encode_fixed_loop 4 0 v

pub length-encode_fixed64 : (v : ℕ) → length (encode_fixed64 v) ≡ 8
unfolding encode_fixed64
length-encode_fixed64 v = length-encode_fixed_loop 8 0 v
