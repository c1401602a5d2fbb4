-- ===== src/Memtable/Tests.antt =====
-- Runs on memory tables.
use mini_leveldb.Prelude.{if◌then◌else◌, ◌≡◌, refl, Option, none, some, [], codes, arith}
use mini_leveldb.Coding.{encode_fixed64, decode_fixed64}
use mini_leveldb.Slice.{compare, slice_eq, slice_ne, is_same, is_less}
use mini_leveldb.Dbformat.{
  type_value, type_deletion, append_internal_key, pack_sequence_and_type, extract_user_key,
  extract_tag, internal_key_less,
}
use mini_leveldb.Skiplist.{
  new_list, new_node, insert, find_greater_or_equal, next_of, store_next, steps_to, random_init,
  random_next, random_height,
}
use mini_leveldb.Memtable.{
  LookupState, found_value, MemTable, new_table, add, get, judge, lookup_key, entry_less,
}
use mini_leveldb.Memtable.Lookup.{Write, newest, state_of}
use mini_leveldb.Memtable.Newest.{insert_write}
use mini_leveldb.Memtable.Get.{Holds, get-newest, new_table-Holds, add-Holds, get-add}

abbrev and_then : Option MemTable → (MemTable → Option MemTable) → Option MemTable
and_then none f = none
and_then (some t) f = f t

abbrev state : Option MemTable → Option LookupState
state none = none
state (some t) = get (codes "a") t

get_run :
    state (
      and_then
        (add 1 type_value (codes "a") (codes "x") new_table)
        (add 2 type_value (codes "b") (codes "y")))
    ≡ some (found_value (codes "x"))
unfolding encode_fixed64 decode_fixed64 compare slice_eq slice_ne is_same is_less
    append_internal_key pack_sequence_and_type extract_user_key extract_tag internal_key_less
    new_list new_node insert find_greater_or_equal next_of store_next steps_to random_init
    random_next random_height new_table add get judge lookup_key entry_less
get_run = refl

abbrev written : Write
written = record { key = codes "a"; seq = 7; type = type_value; value = codes "x" }

abbrev removed : Write
removed = record { key = codes "a"; seq = 9; type = type_deletion; value = [] }

abbrev one_write :
    (t : MemTable) × (add 7 type_value (codes "a") (codes "x") new_table ≡ some t)
    × Holds t (insert_write written [])
one_write = add-Holds new_table [] written new_table-Holds (omega arith)

get-newest_example :
    get (codes "a") one_write.0 ≡ some (newest (codes "a") (insert_write written []))
get-newest_example = get-newest one_write.0 (insert_write written []) (codes "a") one_write.2

get-add_example :
    (t : MemTable) × (add 9 type_deletion (codes "a") [] one_write.0 ≡ some t)
    × (get (codes "b") t ≡ (
        if slice_eq (codes "a") (codes "b")
        then some (state_of type_deletion [])
        else get (codes "b") one_write.0))
unfolding insert_write
get-add_example =
    get-add one_write.0 (insert_write written []) removed (codes "b") one_write.2 (omega arith)
      (omega arith, tt)
