-- ===== src/Log/Format.antt =====
-- src/db/log_format.h: blocks of 32 KB, each a row of physical records that no block border cuts.
use mini_leveldb.Prelude.{ℕ, ◌/◌, ◌^◌, bit_and, [], ◌∷◌, ◌++◌, Bytes, length}
use mini_leveldb.Coding.{encode_fixed32}
use mini_leveldb.Crc32c.{extend, value, mask_crc32c}

abbrev pub block_size : ℕ
block_size = 32768

abbrev pub header_size : ℕ
header_size = 7

pub data RecordType : Type 0 where
  zero_type full_type first_type middle_type last_type : RecordType

abbrev pub type_code : RecordType → ℕ
type_code zero_type = 0
type_code full_type = 1
type_code first_type = 2
type_code middle_type = 3
type_code last_type = 4

-- `MaskCrc32c(Extend(Value(type, 1), payload, len))`, which both sides compute.
unfoldable pub record_crc : ℕ → Bytes → ℕ
record_crc type payload = mask_crc32c (extend (value (type ∷ [])) payload)

-- The seven bytes in front of a payload.
unfoldable pub header : RecordType → Bytes → Bytes
header type payload =
    encode_fixed32 (record_crc (type_code type) payload)
    ++ (bit_and (length payload) 0xff
        ∷ (bit_and (length payload / 2 ^ 8) 0xff ∷ (type_code type ∷ [])))
