-- ===== src/Dbformat.antt =====
-- src/db/dbformat.h. An internal key is a user key with an eight-byte tag behind it, the sequence
-- number and the type of the entry.
pub mod Keys
pub mod Comparator
mod Tests
use mini_leveldb.Prelude.{
  ℕ, ◌-◌, ◌^◌, ltb, ◌==◌, not, if◌then◌else◌, Bool, Option, none, some, ◌++◌, Bytes, length, take,
  drop, u64, bit_or, bit_and, ◌<<<◌, ◌>>>◌,
}
use mini_leveldb.Coding.{encode_fixed64, decode_fixed64}
use mini_leveldb.Slice.{compare, is_same, is_less}

pub data ValueType : Type 0 where
  type_deletion type_value : ValueType

abbrev pub type_code : ValueType → ℕ
type_code type_deletion = 0
type_code type_value = 1

abbrev pub max_sequence_number : ℕ
max_sequence_number = 2 ^ 56 - 1

-- The type of a parsed key is whatever byte the key holds.
pub record ParsedInternalKey : Type 0 where
  pub user_key : Bytes
  pub sequence : ℕ
  pub type : ℕ

unfoldable pub pack_sequence_and_type : ℕ → ValueType → ℕ
pack_sequence_and_type seq t = bit_or (u64 (seq <<< 8)) (type_code t)

-- On a key of eight bytes at least, which all callers pass.
unfoldable pub extract_user_key : Bytes → Bytes
extract_user_key internal_key = take (length internal_key - 8) internal_key

unfoldable pub extract_tag : Bytes → ℕ
extract_tag internal_key = decode_fixed64 (drop (length internal_key - 8) internal_key)

unfoldable pub append_internal_key : Bytes → Bytes → ℕ → ValueType → Bytes
append_internal_key dst user_key seq type =
    (dst ++ user_key) ++ encode_fixed64 (pack_sequence_and_type seq type)

unfoldable pub parse_internal_key : Bytes → Option ParsedInternalKey
parse_internal_key internal =
    let tag = extract_tag internal in
    if ltb (length internal) 8
    then none
    else some record {
      user_key = extract_user_key internal;
      sequence = tag >>> 8;
      type = bit_and tag 0xff;
    }

-- `InternalKeyComparator`: user keys upwards, tags downwards.
unfoldable pub internal_key_less : Bytes → Bytes → Bool
internal_key_less a b =
    let r = compare (extract_user_key a) (extract_user_key b) in
    if not (is_same r) then is_less r else ltb (extract_tag b) (extract_tag a)
