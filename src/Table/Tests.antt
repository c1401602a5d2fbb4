-- ===== src/Table/Tests.antt =====
-- Runs of the table format.
use mini_leveldb.Prelude.{
  ◌+◌, ◌^◌, ◌≡◌, refl, true, ◌≤◌, take, none, some, [], ◌∷◌, ◌++◌, Bytes, codes, length, drop,
  arith,
}
use mini_leveldb.Coding.{encode_fixed32, decode_fixed32, put_varint64, encode_varint}
use mini_leveldb.Crc32c.{extend, value, table, mask_crc32c, unmask_crc32c}
use mini_leveldb.Status.{success, is_ok}
use mini_leveldb.Stdio.{File, on_device}
use mini_leveldb.Table.Format.{
  BlockHandle, Footer, encode_footer, decode_footer, encode_handle, resize, write_block, read_block,
  check_block, trailer, block_crc, block_trailer_size, no_compression,
}
use mini_leveldb.Table.Footers.{IsHandle, decode-encode_footer, decode_footer_overrun}
use mini_leveldb.Table.Blocks.{write_block_result, read-write_block, read_block_accepts}

abbrev near : BlockHandle
near = record { offset = 300; size = 70000 }

abbrev far : BlockHandle
far = record { offset = 2 ^ 40; size = 5 }

abbrev footer : Footer
footer = record { metaindex_handle = near; index_handle = far }

near-IsHandle : IsHandle near
near-IsHandle = record { offset_fits = omega arith; size_fits = omega arith }

far-IsHandle : IsHandle far
far-IsHandle = record { offset_fits = omega arith; size_fits = omega arith }

size_of_footer_run : length (encode_footer footer []) ≡ 48
unfolding encode_footer encode_handle resize put_varint64 encode_varint encode_fixed32
size_of_footer_run = refl

decode-encode_footer_example :
    let result =
      decode_footer
        (record { metaindex_handle = far; index_handle = far })
        (encode_footer footer [] ++ (1 ∷ [])) in
    (result.0 ≡ success) × (result.1 ≡ footer)
decode-encode_footer_example =
    decode-encode_footer footer near-IsHandle far-IsHandle
      (record { metaindex_handle = far; index_handle = far }) (1 ∷ [])

decode_footer_overrun_example :
    decode_footer footer (encode_footer footer []) ≡ (success, footer, none)
decode_footer_overrun_example = decode_footer_overrun footer near-IsHandle far-IsHandle footer

abbrev small_file : File
small_file = record { contents = 7 ∷ (8 ∷ []); capacity = 12; takes = λ before. 100 }

write_block_result_example :
    let r = write_block small_file (codes "abc") near in
    let bytes = codes "abc" ++ trailer (codes "abc") in
    (on_device r.2 ≡ take 12 (small_file.contents ++ bytes))
    × (length (codes "abc") + block_trailer_size ≤ 10 → is_ok r.0 ≡ true)
    × (is_ok r.0 ≡ true → r.2.contents ≡ small_file.contents ++ bytes)
    × (r.1 ≡ record { offset = 2; size = 3 })
write_block_result_example = write_block_result small_file (codes "abc") near (omega arith)

read-write_block_example :
    let r = write_block small_file (codes "abc") near in
    (is_ok r.0 ≡ true) × (read_block (on_device r.2 ++ (9 ∷ [])) r.1 ≡ some (success, codes "abc"))
read-write_block_example =
    read-write_block small_file (codes "abc") (9 ∷ []) near (omega arith) (omega arith)
      (omega arith)

-- A block of one byte behind two others.
abbrev with_block : Bytes
with_block = 7 ∷ (8 ∷ (codes "a" ++ trailer (codes "a")))

read_run : read_block with_block (record { offset = 2; size = 1 }) ≡ some (success, codes "a")
unfolding read_block check_block trailer block_crc extend value table mask_crc32c unmask_crc32c
    encode_fixed32 decode_fixed32
read_run = refl

read_block_accepts_example :
    (stored more : Bytes) × (drop 2 with_block ≡ (codes "a" ++ (no_compression ∷ stored)) ++ more)
    × (length (codes "a") ≡ 1)
    × (length stored ≡ 4)
    × (unmask_crc32c (decode_fixed32 stored) ≡ block_crc no_compression (codes "a"))
read_block_accepts_example =
    read_block_accepts with_block (codes "a") (record { offset = 2; size = 1 }) read_run
