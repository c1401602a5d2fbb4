-- ===== src/Table/Builder.antt =====
-- src/table/table_builder.h and src/table/table_builder.cc: sorted entries become a table file.
use mini_leveldb.Prelude.{
  ℕ, ◌+◌, ◌*◌, leb, not, ◌==◌, if◌then◌else◌, Bool, true, false, [], Bytes, codes, length, u64,
}
use mini_leveldb.Status.{Status, success, io_error_status, invalid_argument_status, is_ok}
use mini_leveldb.Stdio.{File, fwrite, fflush}
use mini_leveldb.Table.Format.{
  BlockHandle, Footer, encode_handle, encode_footer, write_block, block_trailer_size,
}
use mini_leveldb.Block.Builder.{BlockBuilder, reset, finish, current_size_estimate, is_empty}
use mini_leveldb.Block.Builder

abbrev pub block_size : ℕ
block_size = 4 * 1024

-- Handles and footers as their constructors leave them.
abbrev pub no_handle : BlockHandle
no_handle = record { offset = 0; size = 0 }

abbrev pub no_footer : Footer
no_footer = record { metaindex_handle = no_handle; index_handle = no_handle }

pub record TableBuilder : Type 0 where
  pub file : File
  pub data_block : BlockBuilder
  pub index_block : BlockBuilder
  pub last_key : Bytes
  pub file_size : ℕ
  pub finished : Bool

unfoldable pub new_table_builder : File → TableBuilder
new_table_builder file = record {
  file = file;
  data_block = reset;
  index_block = reset;
  last_key = [];
  file_size = 0;
  finished = false;
}

-- `FlushDataBlock`
unfoldable pub flush_data_block : TableBuilder → Status × TableBuilder
flush_data_block b =
    let (contents, data_block') = finish b.data_block in
    let (s, handle, file') = write_block b.file contents no_handle in
    if is_empty b.data_block
    then (success, b)
    else if not (is_ok s)
    then (s, record b { file = file'; data_block = data_block' })
    else (
      success,
      record b {
        file = file';
        data_block = reset;
        index_block = Builder.add b.last_key (encode_handle handle []) b.index_block;
        file_size = u64 (b.file_size + (length contents + block_trailer_size));
      },
    )

-- `Add`
unfoldable pub add : Bytes → Bytes → TableBuilder → Status × TableBuilder
unfolding flush_data_block
add key value b =
    let b' : TableBuilder = record b {
      data_block = Builder.add key value b.data_block;
      last_key = key;
    } in
    if b.finished
    then (invalid_argument_status (codes "table already finished"), b)
    else if leb block_size (current_size_estimate b'.data_block)
    then flush_data_block b'
    else (success, b')

-- `Finish` behind the data blocks: the index block and the footer. `fflush` is called at the end, and
-- what it returns is thrown away.
unfoldable pub finish_index : TableBuilder → Status × TableBuilder
finish_index b =
    let (contents, index_block') = finish b.index_block in
    let (s, handle, file') = write_block b.file contents no_handle in
    let footer = encode_footer (record no_footer { index_handle = handle }) [] in
    let (wrote, file'') = fwrite footer file' in
    let size = u64 (b.file_size + (length contents + block_trailer_size)) in
    if not (is_ok s)
    then (s, record b { file = file'; index_block = index_block' })
    else if not (wrote == length footer)
    then (
      io_error_status (codes "while writing footer"),
      record b { file = file''; index_block = index_block'; file_size = size },
    )
    else (
      success,
      record b {
        file = (fflush file'').1;
        index_block = index_block';
        file_size = u64 (size + length footer);
        finished = true;
      },
    )

-- `Finish`
unfoldable pub finish_table : TableBuilder → Status × TableBuilder
unfolding flush_data_block finish_index
finish_table b =
    let (s, b') = flush_data_block b in
    if b.finished
    then (invalid_argument_status (codes "table already finished"), b)
    else if not (is_ok s)
    then (s, b')
    else finish_index b'
