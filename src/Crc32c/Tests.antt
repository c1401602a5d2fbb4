-- ===== src/Crc32c/Tests.antt =====
-- The check value of CRC-32C.
use mini_leveldb.Prelude.{◌≡◌, refl, codes, arith}
use mini_leveldb.Crc32c.{table, extend, value, mask_crc32c, unmask_crc32c}
use mini_leveldb.Crc32c.Mask.{unmask-mask}

check_value : value (codes "123456789") ≡ 0xe3069283
unfolding value extend table
check_value = refl

unmask-mask_example : unmask_crc32c (mask_crc32c 0xe3069283) ≡ 0xe3069283
unmask-mask_example = unmask-mask 0xe3069283 (omega arith)
