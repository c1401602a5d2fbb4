-- ===== src/Table/Runs.antt =====
-- Runs of the table builder and of lookups in a table.
use mini_leveldb.Prelude.{
  ◌≡◌, ◌^◌, refl, true, ltb, ltb→lt, some, List, [], ◌∷◌, codes, length, All, arith,
}
use mini_leveldb.Coding.{
  encode_fixed32, encode_fixed64, decode_fixed64, encode_varint, put_varint32, put_varint64,
}
use mini_leveldb.Slice.{compare, is_less, is_same, slice_eq, slice_ne, starts_with}
use mini_leveldb.Status.{success, is_ok}
use mini_leveldb.Stdio.{File, fwrite, fflush, ftell, on_device}
use mini_leveldb.Dbformat.{
  type_value, type_deletion, append_internal_key, pack_sequence_and_type, extract_user_key,
  extract_tag, internal_key_less,
}
use mini_leveldb.Skiplist.Sequence.{Sorted}
use mini_leveldb.Memtable.{entry_less, found_value}
use mini_leveldb.Memtable.Lookup.{Write, newest, state_of}
use mini_leveldb.Memtable.Newest.{entries_of, Numbered}
use mini_leveldb.Table.Newest.{key_values_of, NoPrefix}
use mini_leveldb.Block.Builder.{
  reset, append_entry, count_shared, append_restarts, finish, current_size_estimate, is_empty,
}
use mini_leveldb.Block.Builder
use mini_leveldb.Block.Layout.{Fits}
use mini_leveldb.Table.Format.{encode_handle, encode_footer, resize, write_block, trailer}
use mini_leveldb.Table.Builder.{
  new_table_builder, flush_data_block, add, finish_index, finish_table,
}
use mini_leveldb.Table.Reader.{Table, open_table, get}
use mini_leveldb.Table.Finished.{add_each, build_table}
use mini_leveldb.Table.Opened.{get-build_table}

-- Two versions of a key, the newer one in front, and a deletion.
abbrev newer : Write
newer = record { key = codes "k"; seq = 100; type = type_value; value = codes "new" }

abbrev older : Write
older = record { key = codes "k"; seq = 50; type = type_value; value = codes "old" }

abbrev removed : Write
removed = record { key = codes "m"; seq = 70; type = type_deletion; value = [] }

abbrev three : List Write
three = newer ∷ (older ∷ (removed ∷ []))

abbrev new_file : File
new_file = record { contents = []; capacity = 1000; takes = λ before. 0 }

three-Numbered : Numbered three
three-Numbered = (omega arith, (omega arith, (omega arith, tt)))

three-Fits : All Fits (key_values_of three)
unfolding append_internal_key pack_sequence_and_type encode_fixed64
three-Fits =
    ((omega arith, omega arith), ((omega arith, omega arith), ((omega arith, omega arith), tt)))

three-Sorted : Sorted entry_less (entries_of three)
unfolding entry_less internal_key_less append_internal_key pack_sequence_and_type extract_user_key
    extract_tag encode_fixed64 decode_fixed64 compare is_less is_same slice_eq slice_ne
three-Sorted = ((refl, (refl, tt)), ((refl, tt), (tt, tt)))

three_written : is_ok (build_table (key_values_of three) new_file).0 ≡ true
unfolding build_table add_each new_table_builder add flush_data_block finish_table finish_index
    Builder.add reset append_entry count_shared append_restarts finish current_size_estimate
    is_empty encode_handle encode_footer resize write_block trailer fwrite ftell encode_fixed32
    encode_varint put_varint32 put_varint64 append_internal_key pack_sequence_and_type
    encode_fixed64
three_written = refl

three_flushed : (fflush (build_table (key_values_of three) new_file).1.file).0 ≡ true
unfolding build_table add_each new_table_builder add flush_data_block finish_table finish_index
    Builder.add reset append_entry count_shared append_restarts finish current_size_estimate
    is_empty encode_handle encode_footer resize write_block trailer fwrite fflush ftell
    encode_fixed32 encode_varint put_varint32 put_varint64 append_internal_key
    pack_sequence_and_type encode_fixed64
three_flushed = refl

three_short :
    ltb (length (build_table (key_values_of three) new_file).1.file.contents) (2 ^ 32) ≡ true
unfolding build_table add_each new_table_builder add flush_data_block finish_table finish_index
    Builder.add reset append_entry count_shared append_restarts finish current_size_estimate
    is_empty encode_handle encode_footer resize write_block trailer fwrite fflush ftell
    encode_fixed32 encode_varint put_varint32 put_varint64 append_internal_key
    pack_sequence_and_type encode_fixed64
three_short = refl

no_prefix : NoPrefix (codes "k") three
unfolding starts_with is_same
no_prefix = (λ e. refl, (λ e. refl, (λ e. absurd cc, tt)))

three_run : newest (codes "k") three ≡ found_value (codes "new")
unfolding newest state_of slice_eq is_same compare
three_run = refl

get-build_table_example :
    (t : Table) × (open_table true
        (codes "db/5.ldb")
        (some (on_device (build_table (key_values_of three) new_file).1.file))
      ≡ some (success, some t))
    × (get (codes "k") t ≡ some (newest (codes "k") three))
get-build_table_example =
    get-build_table three new_file (codes "db/5.ldb") (codes "k") three-Numbered three-Fits
      three-Sorted three_written three_flushed (ltb→lt _ _ three_short) no_prefix
