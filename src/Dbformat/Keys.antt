-- ===== src/Dbformat/Keys.antt =====
-- Internal keys of src/db/dbformat.h: what is appended is parsed back, and the comparator's order.
use mini_leveldb.Prelude.{
  ℕ, ◌+◌, ◌-◌, ◌*◌, ◌<◌, ◌≤◌, ◌^◌, ltb, ◌≡◌, refl, sym, ap, ◌∙◌, true, false, some, [], ◌++◌, ◌⊎◌,
  Bool-cases, ltb→lt, ltb→le, lt→ltb, if◌then◌else◌, not, Comparison, less, same, more, ◌↔◌, inl,
  inr, Bytes, length, drop, length-append, append-nil, bit_or, bit_or-zero, bit_or_low, ◌/◌, u64,
  ◌<<<◌, take-append, drop-append, bit_and, bit_and_mask, arith, IsU64,
}
use mini_leveldb.Coding.{encode_fixed64, decode_fixed64}
use mini_leveldb.Coding.Fixed.{decode-encode_fixed64, length-encode_fixed64}
use mini_leveldb.Slice.{compare, is_same, is_less}
use mini_leveldb.Slice.Order.{Below, compare_iff}
use mini_leveldb.Dbformat.{
  ValueType, type_value, type_deletion, type_code, pack_sequence_and_type, extract_user_key,
  extract_tag, append_internal_key, parse_internal_key, internal_key_less,
}

pub pack-eq-sum :
    (seq : ℕ) (t : ValueType)
    → seq < 2 ^ 56
    → pack_sequence_and_type seq t ≡ seq * 256 + type_code t
unfolding pack_sequence_and_type
pack-eq-sum seq t h =
    let whole : u64 (seq <<< 8) ≡ seq * 256 = omega arith in
    ap (λ x. bit_or x (type_code t)) whole ∙ or_type t
  where
    or_type : (s : ValueType) → bit_or (seq * 256) (type_code s) ≡ seq * 256 + type_code s
    or_type type_deletion = bit_or-zero (seq * 256) ∙ omega arith
    or_type type_value = omega (arith, bit_or_low (seq * 256) 1, bit_or-zero (seq * 256 / 2))

-- An internal key is a user key and eight bytes.
pub internal_parts :
    (key : Bytes) (seq : ℕ) (t : ValueType)
    → (extract_user_key (append_internal_key [] key seq t) ≡ key)
      × (length (append_internal_key [] key seq t) ≡ length key + 8)
      × (drop (length (append_internal_key [] key seq t) - 8) (append_internal_key [] key seq t)
          ≡ encode_fixed64 (pack_sequence_and_type seq t))
unfolding extract_user_key append_internal_key
internal_parts key seq t =
    let tag = encode_fixed64 (pack_sequence_and_type seq t) in
    let eight : length tag ≡ 8 = length-encode_fixed64 (pack_sequence_and_type seq t) in
    let size : length (key ++ tag) ≡ length key + 8 = omega (arith, length-append key tag, eight) in
    let front : length key ≡ length (key ++ tag) - 8 = omega (arith, size) in
    (take-append _ key tag front, size, drop-append _ key tag front)

type_code_bound : (t : ValueType) → type_code t < 2
type_code_bound type_deletion = omega arith
type_code_bound type_value = omega arith

pub extract_tag-append :
    (key : Bytes) (seq : ℕ) (t : ValueType)
    → seq < 2 ^ 56
    → extract_tag (append_internal_key [] key seq t) ≡ seq * 256 + type_code t
unfolding extract_tag
extract_tag-append key seq t h =
    let (_, _, tag) = internal_parts key seq t in
    let sum = pack-eq-sum seq t h in
    let small : IsU64 (pack_sequence_and_type seq t) = omega (arith, sum, type_code_bound t) in
    ap decode_fixed64 (tag ∙ sym (append-nil _))
    ∙ decode-encode_fixed64 (pack_sequence_and_type seq t) [] small
    ∙ sum

-- `ParseInternalKey` takes an internal key apart into the user key, the sequence number and the
-- type that `AppendInternalKey` put together, for a sequence number of 56 bits.
pub parse-append_internal_key :
    (key : Bytes) (seq : ℕ) (t : ValueType)
    → seq < 2 ^ 56
    → parse_internal_key (append_internal_key [] key seq t)
      ≡ some (record { user_key = key; sequence = seq; type = type_code t })
unfolding parse_internal_key
parse-append_internal_key key seq t h =
    let (user, size, _) = internal_parts key seq t in
    let tag = extract_tag-append key seq t h in
    let c = type_code t in
    let bound = type_code_bound t in
    let high : (seq * 256 + c) / 2 ^ 8 ≡ seq = omega (arith, bound) in
    let low : bit_and (seq * 256 + c) 0xff ≡ c = bit_and_mask 8 _ ∙ omega (arith, bound) in
    let long : ltb (length (append_internal_key [] key seq t)) 8 ≡ false = ground (arith, size) in
    rw (long, user, tag, high, low) refl

-- An entry stands before another of the same user key if it is newer, or a value against a
-- deletion of the same number.
abbrev pub Newer : ℕ → ValueType → ℕ → ValueType → Type 0
Newer s t s' t' = (s' < s) ⊎ ((s ≡ s') × (type_code t' < type_code t))

newer_iff :
    (s s' : ℕ) (t t' : ValueType)
    → (s' * 256 + type_code t' < s * 256 + type_code t) ↔ Newer s t s' t'
newer_iff s s' t t' = (
  λ l. elim (Bool-cases (ltb s' s)) [
    | inl e ↦ inl (ltb→lt s' s e)
    | inr e ↦
        let le : s ≤ s' = ltb→le s' s e in
        inr (
          omega (arith, type_code_bound t, type_code_bound t'),
          omega (arith, type_code_bound t, type_code_bound t'),
        )
  ],
  λ n. elim n [
    | inl l ↦ omega (arith, type_code_bound t, type_code_bound t')
    | inr (e, l) ↦ omega arith
  ],
)

by_comparison :
    (k k' : Bytes) (s s' : ℕ) (t t' : ValueType) (r : Comparison)
    → r ≡ compare k k'
    → ((if not (is_same r)
          then is_less r
          else ltb (s' * 256 + type_code t') (s * 256 + type_code t))
        ≡ true)
      ↔ (Below k k' ⊎ ((k ≡ k') × Newer s t s' t'))
unfolding is_same is_less
by_comparison k k' s s' t t' less e = (λ h. inl ((compare_iff k k').0.0 (sym e)), λ h. refl)
by_comparison k k' s s' t t' same e = (
  λ h. inr ((compare_iff k k').1.0 (sym e), (newer_iff s s' t t').0 (ltb→lt _ _ h)),
  λ h. elim h [
    | inl below ↦ let other = (compare_iff k k').0.1 below in absurd cc
    | inr (_, n) ↦ lt→ltb _ _ ((newer_iff s s' t t').1 n)
  ],
)
by_comparison k k' s s' t t' more e = (
  λ h. absurd cc,
  λ h. elim h [
    | inl below ↦ let other = (compare_iff k k').0.1 below in absurd cc
    | inr (equal, n) ↦ let other = (compare_iff k k').1.1 equal in absurd cc
  ],
)

-- `InternalKeyComparator` puts internal keys in the order of their user keys and, for one user key,
-- newer entries first.
pub internal_key_less_iff :
    (k k' : Bytes) (s s' : ℕ) (t t' : ValueType)
    → s < 2 ^ 56
    → s' < 2 ^ 56
    → (internal_key_less (append_internal_key [] k s t) (append_internal_key [] k' s' t') ≡ true)
      ↔ (Below k k' ⊎ ((k ≡ k') × Newer s t s' t'))
unfolding internal_key_less
internal_key_less_iff k k' s s' t t' h h' =
    rw
      (
        (internal_parts k s t).0,
        (internal_parts k' s' t').0,
        extract_tag-append k s t h,
        extract_tag-append k' s' t' h',
      )
      (by_comparison k k' s s' t t' (compare k k') refl)
