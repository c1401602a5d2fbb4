-- ===== src/Coding.antt =====
-- src/util/coding.h and src/util/coding.cc: fixed-width and variable-length integers, and byte
-- strings behind their length. A `std::string` or `Slice` is a list of bytes; a function that
-- appends to `*dst` returns the new string, and one that advances `*input` returns the new slice.
pub mod Fixed
pub mod Varint
mod Tests
use mini_leveldb.Prelude.{
  ℕ, zero, suc, ◌+◌, ◌*◌, ◌/◌, ◌%◌, ◌^◌, ◌≤◌, ◌<◌, bit_and, bit_or, ltb, leb, ◌==◌, if◌then◌else◌,
  Bool, Option, none, some, List, [], ◌∷◌, ◌++◌, Bytes, length, take, drop, u8, u32, u64, ◌<<<◌,
  ◌>>>◌, Acc, lt_wf, dec_lt, arith,
}
use mathlib.Core.Logic.{dite}

-- The loop `for (i = 0; i < 4; i++) p[i] = (uint8_t)(value >> (8 * i))` with `n` rounds left.
pub encode_fixed_loop : ℕ → ℕ → ℕ → Bytes
encode_fixed_loop zero i value = []
encode_fixed_loop (suc n) i value = u8 (value >>> (8 * i)) ∷ encode_fixed_loop n (i + 1) value

-- The four bytes that `EncodeFixed32` writes at `dst`.
unfoldable pub encode_fixed32 : ℕ → Bytes
unfolding encode_fixed_loop
encode_fixed32 value = encode_fixed_loop 4 0 value

unfoldable pub encode_fixed64 : ℕ → Bytes
unfolding encode_fixed_loop
encode_fixed64 value = encode_fixed_loop 8 0 value

-- The loop `result |= (uint)p[i] << (8 * i)` with `n` rounds left, in the word that `wrap` cuts to.
-- The caller has at least that many bytes; a read past them is undefined in the source, and ends
-- the loop here.
pub decode_fixed_loop : (ℕ → ℕ) → ℕ → ℕ → ℕ → Bytes → ℕ
decode_fixed_loop wrap zero i result p = result
decode_fixed_loop wrap (suc n) i result [] = result
decode_fixed_loop wrap (suc n) i result (b ∷ p) =
    decode_fixed_loop wrap n (i + 1) (bit_or result (wrap (b <<< (8 * i)))) p

unfoldable pub decode_fixed32 : Bytes → ℕ
unfolding decode_fixed_loop
decode_fixed32 p = decode_fixed_loop u32 4 0 0 p

unfoldable pub decode_fixed64 : Bytes → ℕ
unfolding decode_fixed_loop
decode_fixed64 p = decode_fixed_loop u64 8 0 0 p

pub shift_shrinks : (v : ℕ) → 127 < v → v / 2 ^ 7 < v
shift_shrinks v h = omega arith

-- `while (v >= 128) { *ptr++ = (v & 0x7F) | 0x80; v >>= 7; } *ptr++ = v;`
pub encode_varint_loop : (v : ℕ) → Acc ◌<◌ v → Bytes
encode_varint_loop v (Acc.intro _ smaller) =
    dite (dec_lt 127 v)
      (λ more.
        u8 (bit_or (bit_and v 0x7f) 0x80)
        ∷ encode_varint_loop (v >>> 7) (smaller _ (shift_shrinks v more)))
      (λ _. u8 v ∷ [])

unfoldable pub encode_varint : ℕ → Bytes
unfolding encode_varint_loop lt_wf dec_lt
encode_varint v = encode_varint_loop v (lt_wf.apply v)

unfoldable pub put_varint32 : Bytes → ℕ → Bytes
put_varint32 dst v = dst ++ encode_varint v

unfoldable pub put_varint64 : Bytes → ℕ → Bytes
put_varint64 dst v = dst ++ encode_varint v

-- The loop of `GetVarint32Ptr` (last shift 28) and of `GetVarint64Ptr` (last shift 63). `p` holds
-- the bytes up to `limit`; `none` is the null pointer.
pub get_varint_loop : (ℕ → ℕ) → ℕ → Bytes → ℕ → ℕ → Option (ℕ × Bytes)
get_varint_loop wrap last [] shift result = none
get_varint_loop wrap last (byte ∷ p) shift result =
    let more =
      get_varint_loop wrap last p (shift + 7) (bit_or result (wrap (bit_and byte 127 <<< shift))) in
    if leb shift last
    then (if bit_and byte 128 == 0 then some (bit_or result (wrap (byte <<< shift)), p) else more)
    else none

-- `GetVarint32` and `GetVarint64`: the value and the advanced input, or false with the input as it
-- was.
unfoldable pub get_varint32 : Bytes → Option (ℕ × Bytes)
unfolding get_varint_loop
get_varint32 input = get_varint_loop u32 28 input 0 0

unfoldable pub get_varint64 : Bytes → Option (ℕ × Bytes)
unfolding get_varint_loop
get_varint64 input = get_varint_loop u64 63 input 0 0

-- The size goes through a `uint32_t` parameter.
unfoldable pub put_length_prefixed_slice : Bytes → Bytes → Bytes
put_length_prefixed_slice dst value = put_varint32 dst (u32 (length value)) ++ value

-- The result, if any, and the input as the call leaves it: a length that does not fit has been
-- taken off the input all the same.
unfoldable pub get_length_prefixed_slice : Bytes → Option Bytes × Bytes
get_length_prefixed_slice input = elim (get_varint32 input) [
  | none ↦ (none, input)
  | some (len, rest) ↦
      if leb len (length rest) then (some (take len rest), drop len rest) else (none, rest)
]
