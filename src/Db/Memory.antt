-- ===== src/Db/Memory.antt =====
-- The memory table of src/db/memtable.h with its arena, and `MemTableInserter` of src/db/db_impl.cc.
use mini_leveldb.Prelude.{ℕ, ◌+◌, ◌*◌, Option, none, some, List, [], ◌∷◌, Bytes, length}
use mini_leveldb.Arena.{Chunk, Arena, new_arena, allocate_aligned, memory_usage}
use mini_leveldb.Dbformat.{ValueType, type_value, type_deletion}
use mini_leveldb.Skiplist.{all_keys}
use mini_leveldb.Memtable.{Entry, MemTable, new_table, add}
use mini_leveldb.WriteBatch.{Handler}
use mini_leveldb.Block.Layout.{KeyValue}

-- `sizeof(Node)`: a key of two views and twelve pointers, of eight bytes a word.
abbrev pub node_size : ℕ
node_size = 2 * 16 + 12 * 8

pub record Memory : Type 0 where
  pub table : MemTable
  pub arena : Arena

module _ (address : List Chunk → ℕ → ℕ) where
  -- The constructor: the skip list's head node.
  unfoldable pub new_memory : Memory
  new_memory = record {
    table = new_table;
    arena = (allocate_aligned address node_size new_arena).1;
  }

  -- `Add`: the entry's bytes, then the skip list's node. `none` means that the search's fuel ran out.
  unfoldable pub add_entry : ℕ → ValueType → Bytes → Bytes → Memory → Option Memory
  add_entry seq type key value m =
      let klen = length key + 8 in
      let arena' = (allocate_aligned address (klen + length value) m.arena).1 in
      elim (add seq type key value m.table) [
        | none ↦ none
        | some table' ↦
            some record { table = table'; arena = (allocate_aligned address node_size arena').1 }
      ]

  unfoldable pub insert_put : ℕ → Bytes → Bytes → Option Memory → Option Memory
  unfolding add_entry
  insert_put seq key value none = none
  insert_put seq key value (some m) = add_entry seq type_value key value m

  unfoldable pub insert_delete : ℕ → Bytes → Option Memory → Option Memory
  unfolding add_entry
  insert_delete seq key none = none
  insert_delete seq key (some m) = add_entry seq type_deletion key [] m

  -- `MemTableInserter`
  abbrev pub inserter : Handler (Option Memory)
  inserter = record { put = insert_put; delete = insert_delete }

-- `ApproximateMemoryUsage`
unfoldable pub approximate_memory_usage : Memory → ℕ
unfolding memory_usage
approximate_memory_usage m = memory_usage m.arena

key_values : List Entry → List KeyValue
key_values [] = []
key_values (e ∷ es) = record { key = e.ikey; value = e.value } ∷ key_values es

-- What the table's iterator visits from `SeekToFirst` on.
unfoldable pub visited : Memory → List KeyValue
unfolding key_values
visited m = key_values (all_keys m.table)
