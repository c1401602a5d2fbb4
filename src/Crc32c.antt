-- ===== src/Crc32c.antt =====
-- src/util/crc32c.h and src/util/crc32c.cc: the CRC-32C checksum, four bytes at a time by tables,
-- and its mask. The tables are functions of their index.
pub mod Mask
mod Tests
use mini_leveldb.Prelude.{
  ℕ, zero, suc, ◌+◌, ◌-◌, ◌*◌, ◌/◌, ◌%◌, ◌^◌, bit_and, bit_or, bit_xor, ◌==◌, if◌then◌else◌, [],
  ◌∷◌, Bytes, u32, ◌<<<◌, ◌>>>◌,
}

abbrev pub polynomial : ℕ
polynomial = 0x82f63b78

-- `(c & 1) ? (c >> 1) ^ kPoly : (c >> 1)`
pub shift_bit : ℕ → ℕ
shift_bit c = if bit_and c 1 == 1 then bit_xor (c >>> 1) polynomial else c >>> 1

pub shift_bits : ℕ → ℕ → ℕ
shift_bits zero c = c
shift_bits (suc k) c = shift_bits k (shift_bit c)

-- `Tables::t[lvl][i]`
unfoldable pub table : ℕ → ℕ → ℕ
unfolding shift_bits shift_bit
table zero i = shift_bits 8 i
table (suc lvl) i = let c = table lvl i in bit_xor (c >>> 8) (shift_bits 8 (bit_and c 0xff))

-- `~c` on 32 bits.
abbrev pub complement : ℕ → ℕ
complement c = 2 ^ 32 - 1 - c

-- `while (n--)`
pub extend_bytes : ℕ → Bytes → ℕ
extend_bytes c [] = c
extend_bytes c (b ∷ p) = extend_bytes (bit_xor (table 0 (bit_and (bit_xor c b) 0xff)) (c >>> 8)) p

-- The four table lookups of one round, `c` with the word already mixed in.
pub fold_word : ℕ → ℕ
fold_word c =
    bit_xor
      (bit_xor (bit_xor (table 3 (bit_and c 0xff)) (table 2 (bit_and (c >>> 8) 0xff)))
        (table 1 (bit_and (c >>> 16) 0xff)))
      (table 0 (c >>> 24))

-- `while (n >= 4)`, then the tail. `memcpy` into the word puts the first byte lowest: the hosts are
-- little endian.
pub extend_words : ℕ → Bytes → ℕ
extend_words c (b0 ∷ (b1 ∷ (b2 ∷ (b3 ∷ p)))) =
    let word = b0 + 2 ^ 8 * b1 + 2 ^ 16 * b2 + 2 ^ 24 * b3 in
    extend_words (fold_word (bit_xor c word)) p
extend_words c p = extend_bytes c p

unfoldable pub extend : ℕ → Bytes → ℕ
unfolding extend_words extend_bytes fold_word
extend crc data_ = complement (extend_words (complement crc) data_)

unfoldable pub value : Bytes → ℕ
value data_ = extend 0 data_

abbrev pub mask_delta : ℕ
mask_delta = 0xa282ead8

unfoldable pub mask_crc32c : ℕ → ℕ
mask_crc32c crc = u32 (bit_or (crc >>> 15) (u32 (crc <<< 17)) + mask_delta)

unfoldable pub unmask_crc32c : ℕ → ℕ
unmask_crc32c masked =
    let rot = u32 (masked + 2 ^ 32 - mask_delta) in bit_or (rot >>> 17) (u32 (rot <<< 15))
