-- ===== src/Crc32c/Mask.antt =====
-- The mask of src/util/crc32c.h.
use mini_leveldb.Prelude.{
  ℕ, ◌+◌, ◌-◌, ◌*◌, ◌/◌, ◌%◌, ◌^◌, ◌≡◌, ap, ◌∙◌, bit_or, u32, IsU32, ◌<<<◌, ◌>>>◌, bit_or_shifted,
  arith,
}
use mini_leveldb.Crc32c.{mask_crc32c, unmask_crc32c, mask_delta}

pub mask_crc32c-IsU32 : (crc : ℕ) → IsU32 (mask_crc32c crc)
unfolding mask_crc32c
mask_crc32c-IsU32 crc = omega arith

-- `(x >> 15) | (x << 17)` and `(x >> 17) | (x << 15)` as sums of the two halves.
rotate_right :
    (x : ℕ) → IsU32 x → bit_or (x >>> 15) (u32 (x <<< 17)) ≡ x / 2 ^ 15 + x % 2 ^ 15 * 2 ^ 17
rotate_right x h =
    ap (bit_or (x >>> 15)) (omega arith) ∙ bit_or_shifted 17 (x / 2 ^ 15) (x % 2 ^ 15) (omega arith)

rotate_left :
    (x : ℕ) → IsU32 x → bit_or (x >>> 17) (u32 (x <<< 15)) ≡ x / 2 ^ 17 + x % 2 ^ 17 * 2 ^ 15
rotate_left x h =
    ap (bit_or (x >>> 17)) (omega arith) ∙ bit_or_shifted 15 (x / 2 ^ 17) (x % 2 ^ 17) (omega arith)

-- `UnmaskCrc32c` takes back what `MaskCrc32c` did to a 32-bit checksum.
pub unmask-mask : (crc : ℕ) → IsU32 crc → unmask_crc32c (mask_crc32c crc) ≡ crc
unfolding mask_crc32c unmask_crc32c
unmask-mask crc h =
    let turned = crc / 2 ^ 15 + crc % 2 ^ 15 * 2 ^ 17 in
    let rot : u32 (mask_crc32c crc + 2 ^ 32 - mask_delta) ≡ turned =
      omega (arith, rotate_right crc h) in
    ap (λ t. bit_or (t >>> 17) (u32 (t <<< 15))) rot
    ∙ rotate_left turned (omega arith)
    ∙ omega arith
