-- ===== src/Coding/Varint.antt =====
-- The variable-length integers and the length-prefixed strings of src/util/coding.cc.
use mini_leveldb.Prelude.{
  ℕ, zero, suc, ◌+◌, ◌*◌, ◌/◌, ◌%◌, ◌^◌, ◌≤◌, ◌<◌, ◌≡◌, refl, ap, ◌∙◌, some, [], ◌∷◌, ◌++◌,
  append_assoc, bit_or, bit_and, Bytes, length, length-append, take-append, drop-append, All,
  IsByte, IsU32, IsU64, u8, u32, u64, ◌<<<◌, bit_or_shifted, bit_and_mask, bit_and_bit,
  Option-cases, length-drop, pow_seven, ltb, Bool-cases, inl, inr, tests, if◌then◌else◌, Acc, lt_wf,
  arith,
}
use native.Mathlib.Nat.{div-add-mod}
use mini_leveldb.Coding.{
  encode_varint_loop, encode_varint, get_varint_loop, get_varint32, get_varint64, put_varint32,
  put_varint64, put_length_prefixed_slice, get_length_prefixed_slice,
}

-- The groups of seven bits of `v`, lowest first, for `v` below 128 ^ (k + 1): every byte but the
-- last has its top bit set.
pub groups : ℕ → ℕ → Bytes
groups zero v = v ∷ []
groups (suc k) v =
    let rest = groups k (v / 128) in if ltb v 128 then v ∷ [] else (v % 128 + 128) ∷ rest

inner_byte : (v : ℕ) → u8 (bit_or (bit_and v 0x7f) 0x80) ≡ v % 128 + 128
inner_byte v = omega (
  arith,
  ap (λ (t : ℕ). bit_or t 0x80) (bit_and_mask 7 v),
  bit_or_shifted 7 (v % 128) 1 (omega arith),
)

encode_varint_loop-eq-groups :
    (k v : ℕ) (w : Acc ◌<◌ v) → v < 128 ^ suc k → encode_varint_loop v w ≡ groups k v
unfolding encode_varint_loop groups
encode_varint_loop-eq-groups zero v (Acc.intro _ smaller) h = ground arith
encode_varint_loop-eq-groups (suc k) v (Acc.intro _ smaller) h = grind (
  arith,
  inner_byte v,
  λ (w : Acc ◌<◌ (v / 128)). encode_varint_loop-eq-groups k (v / 128) w (omega arith),
)

-- A value of `k + 1` groups of seven bits is written as its groups.
pub encode_varint-eq-groups : (k v : ℕ) → v < 128 ^ suc k → encode_varint v ≡ groups k v
unfolding encode_varint
encode_varint-eq-groups k v h = encode_varint_loop-eq-groups k v (lt_wf.apply v) h

pub length-groups : (k v : ℕ) → (1 ≤ length (groups k v)) × (length (groups k v) ≤ k + 1)
unfolding groups
length-groups zero v = omega arith
length-groups (suc k) v = ground (arith, length-groups k (v / 128))

pub groups-IsByte : (k v : ℕ) → v < 128 ^ suc k → All IsByte (groups k v)
unfolding groups
groups-IsByte zero v h = omega arith
groups-IsByte (suc k) v h = ground (arith, groups-IsByte k (v / 128) (omega arith))

-- `EncodeVarint` fits the buffers of its two callers, `buf[5]` for a `uint32_t` and `buf[10]` for a
-- `uint64_t`, and writes bytes.
pub encode_varint_bounds :
    (v w : ℕ)
    → IsU32 v
    → IsU64 w
    → (length (encode_varint v) ≤ 5)
      × (length (encode_varint w) ≤ 10)
      × All IsByte (encode_varint w)
encode_varint_bounds v w hv hw = (
  rw (encode_varint-eq-groups 4 v (omega arith)) (length-groups 4 v).1,
  rw (encode_varint-eq-groups 9 w (omega arith)) (length-groups 9 w).1,
  rw (encode_varint-eq-groups 9 w (omega arith)) (groups-IsByte 9 w (omega arith)),
)

module _ (wrap : ℕ → ℕ) (last : ℕ) where
  -- One round of the read loop on a last byte, and on a byte with the top bit set.
  last_group :
      (v shift result : ℕ) (rest : Bytes)
      → shift ≤ last
      → v < 128
      → result < 2 ^ shift
      → wrap (v <<< shift) ≡ v * 2 ^ shift
      → get_varint_loop wrap last (v ∷ rest) shift result ≡ some (result + v * 2 ^ shift, rest)
  unfolding get_varint_loop
  last_group v shift result rest hs hv hr fits =
      ground (arith, bit_and_bit 7 v, bit_or_shifted shift result v hr)

  inner_group :
      (g shift result : ℕ) (rest : Bytes)
      → shift ≤ last
      → g < 128
      → result < 2 ^ shift
      → wrap (g <<< shift) ≡ g * 2 ^ shift
      → get_varint_loop wrap last ((g + 128) ∷ rest) shift result
        ≡ get_varint_loop wrap last rest (shift + 7) (result + g * 2 ^ shift)
  unfolding get_varint_loop
  inner_group g shift result rest hs hg hr fits =
      ground
        (arith, bit_and_bit 7 (g + 128), bit_and_mask 7 (g + 128), bit_or_shifted shift result g hr)

split_group : (v s : ℕ) → v * 2 ^ s ≡ v % 128 * 2 ^ s + v / 128 * 2 ^ (s + 7)
split_group v s = omega (
  arith,
  ap (λ (t : ℕ). t * 2 ^ s) (div-add-mod v 128),
  ap (λ (t : ℕ). v / 128 * t) (pow_seven s),
)

grown_result : (g s result : ℕ) → g < 128 → result < 2 ^ s → result + g * 2 ^ s < 2 ^ (s + 7)
grown_result g s result hg hr = grind (arith, pow_seven s)

-- `v` is what is still to be read, and it counts from bit `shift` on.
get_varint_loop-groups :
    (wrap : ℕ → ℕ) (last limit : ℕ)
    → ((x : ℕ) → x < limit → wrap x ≡ x)
    → (k v shift result : ℕ) (rest : Bytes) → shift + 7 * k ≤ last
    → v < 128 ^ suc k
    → result < 2 ^ shift
    → v * 2 ^ shift < limit
    → get_varint_loop wrap last (groups k v ++ rest) shift result
      ≡ some (result + v * 2 ^ shift, rest)
unfolding groups
get_varint_loop-groups wrap last limit id_below zero v shift result rest hs hv hr fits =
    last_group wrap last v shift result rest (omega arith) (omega arith) hr (id_below _ fits)
get_varint_loop-groups wrap last limit id_below (suc k) v shift result rest hs hv hr fits =
    let split = split_group v shift in
    let one = id_below (v % 128 * 2 ^ shift) (omega arith) in
    elim (Bool-cases (ltb v 128)) [
      | inl small ↦ rw small (
          last_group wrap last v shift result rest (omega arith) (omega tests) hr (id_below _ fits))
      | inr large ↦ rw large (
          inner_group wrap last (v % 128) shift result (groups k (v / 128) ++ rest) (omega arith)
            (omega arith) hr one
          ∙ get_varint_loop-groups wrap last limit id_below k (v / 128) (shift + 7)
              (result + v % 128 * 2 ^ shift) rest (omega arith) (omega arith)
              (grown_result (v % 128) shift result (omega arith) hr) (omega arith)
          ∙ ap (λ (t : ℕ). some (t, rest)) (omega arith))
    ]

pub get_varint32-encode :
    (v : ℕ) (rest : Bytes) → IsU32 v → get_varint32 (encode_varint v ++ rest) ≡ some (v, rest)
unfolding get_varint32
get_varint32-encode v rest h = rw (encode_varint-eq-groups 4 v (omega arith)) (
    get_varint_loop-groups u32 28 (2 ^ 32) (λ x l. omega arith) 4 v 0 0 rest (omega arith)
      (omega arith) (omega arith) (omega arith)
    ∙ ap (λ (t : ℕ). some (t, rest)) (omega arith))

pub get_varint64-encode :
    (v : ℕ) (rest : Bytes) → IsU64 v → get_varint64 (encode_varint v ++ rest) ≡ some (v, rest)
unfolding get_varint64
get_varint64-encode v rest h = rw (encode_varint-eq-groups 9 v (omega arith)) (
    get_varint_loop-groups u64 63 (2 ^ 64) (λ x l. omega arith) 9 v 0 0 rest (omega arith)
      (omega arith) (omega arith) (omega arith)
    ∙ ap (λ (t : ℕ). some (t, rest)) (omega arith))

-- `GetVarint32` reads back the `uint32_t` that `PutVarint32` appended, and `GetVarint64` the
-- `uint64_t` of `PutVarint64`; whatever follows stays in the input.
pub get-put_varint :
    (v w : ℕ) (rest : Bytes)
    → IsU32 v
    → IsU64 w
    → (get_varint32 (put_varint32 [] v ++ rest) ≡ some (v, rest))
      × (get_varint64 (put_varint64 [] w ++ rest) ≡ some (w, rest))
unfolding put_varint32 put_varint64
get-put_varint v w rest hv hw = (get_varint32-encode v rest hv, get_varint64-encode w rest hw)

-- What `PutLengthPrefixedSlice` appends.
pub prefixed : Bytes → Bytes
prefixed value = encode_varint (length value) ++ value

pub put_length_prefixed_slice-eq-append :
    (dst value : Bytes)
    → IsU32 (length value)
    → put_length_prefixed_slice dst value ≡ dst ++ prefixed value
unfolding put_length_prefixed_slice put_varint32 prefixed
put_length_prefixed_slice-eq-append dst value h =
    let e : u32 (length value) ≡ length value = omega arith in
    ap (λ t. (dst ++ encode_varint t) ++ value) e
    ∙ append_assoc dst (encode_varint (length value)) value

-- `GetLengthPrefixedSlice` reads back the string that `PutLengthPrefixedSlice` appended, if its
-- length fits 32 bits, and leaves whatever follows.
pub get-put_length_prefixed_slice :
    (value rest : Bytes)
    → IsU32 (length value)
    → get_length_prefixed_slice (put_length_prefixed_slice [] value ++ rest) ≡ (some value, rest)
unfolding get_length_prefixed_slice prefixed
get-put_length_prefixed_slice value rest h =
    let n = length value in
    ap (λ t. get_length_prefixed_slice (t ++ rest)) (put_length_prefixed_slice-eq-append [] value h)
    ∙ ap get_length_prefixed_slice (append_assoc (encode_varint n) value rest)
    ∙ ground (
      arith,
      get_varint32-encode n (value ++ rest) h,
      take-append n value rest refl,
      drop-append n value rest refl,
      length-append value rest,
    )

get_varint_loop_shorter :
    (wrap : ℕ → ℕ) (last : ℕ) (p : Bytes) (shift result v : ℕ) (rest : Bytes)
    → get_varint_loop wrap last p shift result ≡ some (v, rest)
    → length rest < length p
unfolding get_varint_loop
get_varint_loop_shorter wrap last [] shift result v rest e = cc
get_varint_loop_shorter wrap last (byte ∷ p) shift result v rest e = ground (
  arith,
  get_varint_loop_shorter wrap last p (shift + 7)
      (bit_or result (wrap (bit_and byte 127 <<< shift))) v rest,
)

-- A string that is read takes a byte at least off the input, and no call makes the input longer.
pub get_length_prefixed_slice_shorter :
    (input : Bytes)
    → (length (get_length_prefixed_slice input).1 ≤ length input)
      × ((value : Bytes)
          → (get_length_prefixed_slice input).0 ≡ some value
          → length (get_length_prefixed_slice input).1 < length input)
get_length_prefixed_slice_shorter input = elim (Option-cases (get_varint32 input)) [
  | inl e ↦ unfold get_length_prefixed_slice in (ground (arith, e), λ value h. ground (arith, e))
  | inr ((len, rest), e) ↦
      let shorter : length rest < length input =
        unfold get_varint32 in get_varint_loop_shorter u32 28 input 0 0 len rest e in
      unfold get_length_prefixed_slice in
      (ground (arith, e, length-drop len rest), λ value h. ground (arith, e, length-drop len rest))
]
