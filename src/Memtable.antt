-- ===== src/Memtable.antt =====
-- src/db/memtable.h and src/db/memtable.cc: the skip list of entries. An entry's bytes in the arena
-- are the two views that the list holds.
pub mod Lookup
pub mod Newest
pub mod Get
mod Tests
use mini_leveldb.Prelude.{ℕ, ◌==◌, if◌then◌else◌, Bool, Option, none, some, [], Bytes, bit_and}
use mini_leveldb.Slice.{slice_ne}
use mini_leveldb.Dbformat.{
  ValueType, type_value, type_code, max_sequence_number, extract_user_key, extract_tag,
  append_internal_key, internal_key_less,
}
use mini_leveldb.Skiplist.{SkipList, new_list, insert, find_greater_or_equal, node_at}

-- `LookupState`, a value with its bytes.
pub data LookupState : Type 0 where
  not_found : LookupState
  found_value : Bytes → LookupState
  deleted : LookupState

-- `MemTable::Key`
pub record Entry : Type 0 where
  pub ikey : Bytes
  pub value : Bytes

-- `MemTable::Cmp`
unfoldable pub entry_less : Entry → Entry → Bool
entry_less a b = internal_key_less a.ikey b.ikey

abbrev pub MemTable : Type 0
MemTable = SkipList Entry

unfoldable pub new_table : MemTable
new_table = new_list (record { ikey = []; value = [] })

-- `Add`
unfoldable pub add : ℕ → ValueType → Bytes → Bytes → MemTable → Option MemTable
add seq type key value table =
    insert entry_less (record { ikey = append_internal_key [] key seq type; value = value }) table

-- The key that `Get` seeks, whose tag is the largest.
unfoldable pub lookup_key : Bytes → Entry
lookup_key user_key = record {
  ikey = append_internal_key [] user_key max_sequence_number type_value;
  value = [];
}

-- What `Get` makes of the entry it has found.
unfoldable pub judge : Bytes → Entry → LookupState
judge user_key entry =
    if slice_ne (extract_user_key entry.ikey) user_key
    then not_found
    else if bit_and (extract_tag entry.ikey) 0xff == type_code type_value
    then found_value entry.value
    else deleted

-- `Get`; `none` means that the search's fuel ran out.
unfoldable pub get : Bytes → MemTable → Option LookupState
get user_key table = elim (find_greater_or_equal entry_less table (lookup_key user_key)) [
  | none ↦ none
  | some (none, prev) ↦ some not_found
  | some (some a, prev) ↦ elim (node_at table.nodes a) [
    | none ↦ some not_found
    | some n ↦ some (judge user_key n.key)
  ]
]
