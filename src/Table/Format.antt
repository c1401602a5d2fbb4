-- ===== src/Table/Format.antt =====
-- src/table/format.h and src/table/format.cc: block handles, the footer, and the blocks of a file.
use mini_leveldb.Prelude.{
  ℕ, ◌+◌, ◌-◌, ◌*◌, ◌^◌, ltb, leb, ◌==◌, not, if◌then◌else◌, Option, none, some, [], ◌∷◌, ◌++◌,
  Bytes, codes, length, take, drop, get_or, replicate, u32, u64, bit_and, ◌>>>◌,
}
use mini_leveldb.Coding.{encode_fixed32, decode_fixed32, decode_fixed64, put_varint64, get_varint64}
use mini_leveldb.Crc32c.{extend, value, mask_crc32c, unmask_crc32c}
use mini_leveldb.Status.{Status, success, corruption_status, io_error_status, is_ok}
use mini_leveldb.Stdio.{File, fwrite, ftell}

abbrev pub table_magic_number : ℕ
table_magic_number = 0xdb4775248b80fb57

pub record BlockHandle : Type 0 where
  pub offset : ℕ
  pub size : ℕ

abbrev pub max_encoded_length : ℕ
max_encoded_length = 10 + 10

-- `BlockHandle::EncodeTo`
unfoldable pub encode_handle : BlockHandle → Bytes → Bytes
encode_handle h dst = put_varint64 (put_varint64 dst h.offset) h.size

-- `BlockHandle::DecodeFrom`: the handle and the input as the call leaves them.
unfoldable pub decode_handle : BlockHandle → Bytes → Status × BlockHandle × Bytes
decode_handle h input = elim (get_varint64 input) [
  | none ↦ (corruption_status (codes "bad block handle"), h, input)
  | some (offset, rest) ↦ elim (get_varint64 rest) [
    | none ↦ (corruption_status (codes "bad block handle"), record h { offset = offset }, rest)
    | some (size, rest') ↦ (success, record { offset = offset; size = size }, rest')
  ]
]

pub record Footer : Type 0 where
  pub metaindex_handle : BlockHandle
  pub index_handle : BlockHandle

abbrev pub encoded_length : ℕ
encoded_length = 2 * max_encoded_length + 8

-- `std::string::resize`: cut, or filled up with zeros.
unfoldable pub resize : ℕ → Bytes → Bytes
resize n s = take n s ++ replicate (n - length s) 0

-- `Footer::EncodeTo`
unfoldable pub encode_footer : Footer → Bytes → Bytes
encode_footer f dst =
    let handles = encode_handle f.index_handle (encode_handle f.metaindex_handle dst) in
    resize (length dst + 2 * max_encoded_length) handles
    ++ (encode_fixed32 (bit_and table_magic_number 0xffffffff)
        ++ encode_fixed32 (u32 (table_magic_number >>> 32)))

-- `remove_prefix` of a `std::string_view`: `none` if the view is shorter, which is undefined.
unfoldable pub checked_remove_prefix : ℕ → Bytes → Option Bytes
checked_remove_prefix n input = if leb n (length input) then some (drop n input) else none

-- `Footer::DecodeFrom`: the footer and the input as the call leaves them.
unfoldable pub decode_footer : Footer → Bytes → Status × Footer × Option Bytes
decode_footer f input =
    if ltb (length input) encoded_length
    then (corruption_status (codes "not an sstable (too small)"), f, some input)
    else if not (decode_fixed64 (drop (encoded_length - 8) input) == table_magic_number)
    then (corruption_status (codes "bad magic number"), f, some input)
    else let (s, metaindex, rest) = decode_handle f.metaindex_handle input in
      let (s', index, rest') = decode_handle f.index_handle rest in
      if is_ok s
      then (
        s',
        record { metaindex_handle = metaindex; index_handle = index },
        (if is_ok s' then checked_remove_prefix encoded_length rest' else some rest'),
      )
      else (s, record f { metaindex_handle = metaindex }, some rest)

abbrev pub block_trailer_size : ℕ
block_trailer_size = 5

abbrev pub no_compression : ℕ
no_compression = 0

-- The checksum of a block, `Extend(Value(&type, 1), contents)`.
unfoldable pub block_crc : ℕ → Bytes → ℕ
block_crc type contents = extend (value (type ∷ [])) contents

unfoldable pub trailer : Bytes → Bytes
trailer contents = no_compression ∷ encode_fixed32 (mask_crc32c (block_crc no_compression contents))

-- `WriteBlock`: the status, the handle and the file as the call leaves them.
unfoldable pub write_block : File → Bytes → BlockHandle → Status × BlockHandle × File
write_block file contents handle = elim (ftell file) [
  | none ↦ (io_error_status (codes "ftell failed"), handle, file)
  | some off ↦
      let handle' : BlockHandle = record { offset = off; size = length contents } in
      let (wrote, file') = fwrite contents file in
      let (wrote', file'') = fwrite (trailer contents) file' in
      if not (wrote == length contents)
      then (io_error_status (codes "while writing block"), handle', file')
      else if not (wrote' == block_trailer_size)
      then (io_error_status (codes "while writing block trailer"), handle', file'')
      else (success, handle', file'')
]

-- The checks of `ReadBlock` on the bytes read, `n` those of the block.
unfoldable pub check_block : ℕ → Bytes → Status × Bytes
check_block n scratch =
    let type = get_or scratch n 0 in
    if not (type == no_compression)
    then (corruption_status (codes "bad block type"), [])
    else if not
        (unmask_crc32c (decode_fixed32 (drop (n + 1) scratch)) == block_crc type (take n scratch))
    then (corruption_status (codes "block checksum mismatch"), [])
    else (success, take n scratch)

-- `ReadBlock`, on a file with these contents: the status and the result. `none` is a size so large
-- that it wraps around with the trailer's, where the code reads outside `scratch`. `fseek` takes the
-- offset as a `long`, which may not be negative.
unfoldable pub read_block : Bytes → BlockHandle → Option (Status × Bytes)
read_block contents handle =
    let n = handle.size in
    let total = u64 (n + block_trailer_size) in
    let scratch = take total (drop handle.offset contents) in
    if leb (2 ^ 63) handle.offset
    then some (io_error_status (codes "while seeking to block"), [])
    else if not (length scratch == total)
    then some (io_error_status (codes "while reading block"), [])
    else if ltb total n
    then none
    else some (check_block n scratch)
