-- ===== src/Db/Applied.antt =====
-- The batch of one `Put` or `Delete` of src/db/db_impl.cc, and its replay into the memory table.
use mini_leveldb.Prelude.{ℕ, ◌+◌, ◌^◌, ◌<◌, ◌≡◌, ap, ◌∙◌, Option, some, [], ◌∷◌, length, arith}
use mini_leveldb.Status.{Status, success}
use mini_leveldb.Arena.{Arena, allocate_aligned, memory_usage}
use mini_leveldb.Dbformat.{type_value, type_deletion}
use mini_leveldb.WriteBatch.{WriteBatch, set_sequence, count, iterate}
use mini_leveldb.WriteBatch.Shape.{
  Op, put_op, delete_op, Fits, apply, ops_bytes, apply-clear, batch, set_sequence-batch,
  count-batch,
}
use mini_leveldb.WriteBatch.Replay.{handle, replay, iterate-batch}
use mini_leveldb.Memtable.{LookupState, not_found, found_value, deleted, MemTable, add}
use mini_leveldb.Memtable
use mini_leveldb.Memtable.Lookup.{Write}
use mini_leveldb.Db.Memory.{
  Memory, add_entry, inserter, insert_put, insert_delete, approximate_memory_usage, node_size,
}
use mini_leveldb.Db.Files.{System, Db}
use mini_leveldb.Db.Calls.{write, put, delete, apply_batch, max_mem_table_bytes}

-- An update by `Put` or by `Delete`.
unfoldable pub update : System → Op → Db → Option (Status × Db)
update sys (put_op key value) db = put sys key value db
update sys (delete_op key) db = delete sys key db

-- The write that an update makes under a sequence number.
abbrev pub write_of : ℕ → Op → Write
write_of seq (put_op key value) = record { key = key; seq = seq; type = type_value; value = value }
write_of seq (delete_op key) = record { key = key; seq = seq; type = type_deletion; value = [] }

-- The arena behind an entry of so many bytes.
abbrev pub grown : System → Write → Arena → Arena
grown sys w a =
    (allocate_aligned sys.address node_size
      (allocate_aligned sys.address (length w.key + 8 + length w.value) a).1).1

add_entry-some :
    (sys : System) (w : Write) (m : Memory) (table' : MemTable)
    → Memtable.add w.seq w.type w.key w.value m.table ≡ some table'
    → add_entry sys.address w.seq w.type w.key w.value m
      ≡ some (record { table = table'; arena = grown sys w m.arena })
unfolding add_entry
add_entry-some sys w m table' run = ground (arith, run)

-- The replay of one update.
replay-update :
    (sys : System) (op : Op) (seq : ℕ) (m : Memory) (table' : MemTable)
    → (let w = write_of seq op in Memtable.add w.seq w.type w.key w.value m.table ≡ some table')
    → replay (inserter sys.address) seq (op ∷ []) (some m)
      ≡ some (record { table = table'; arena = grown sys (write_of seq op) m.arena })
unfolding replay handle insert_put insert_delete
replay-update sys (put_op key value) seq m table' run =
    add_entry-some sys (write_of seq (put_op key value)) m table' run
replay-update sys (delete_op key) seq m table' run =
    add_entry-some sys (write_of seq (delete_op key)) m table' run

-- The batch of one update, before and after its sequence number is set.
abbrev pub filled : Op → WriteBatch
filled op = batch 0 1 (ops_bytes (op ∷ []))

abbrev pub batch_of : Op → ℕ → WriteBatch
batch_of op seq = set_sequence seq (filled op)

batch_of-batch : (op : Op) (seq : ℕ) → batch_of op seq ≡ batch seq 1 (ops_bytes (op ∷ []))
batch_of-batch op seq = set_sequence-batch 0 seq 1 (ops_bytes (op ∷ []))

pub update-write :
    (sys : System) (op : Op) (db : Db) → Fits op → update sys op db ≡ write sys (filled op) db
unfolding update put delete apply
update-write sys (put_op key value) db f =
    let run = apply-clear (put_op key value) f in ground (arith, run)
update-write sys (delete_op key) db f =
    let run = apply-clear (delete_op key) f in ground (arith, run)

count-batch_of : (op : Op) (seq : ℕ) → count (batch_of op seq) ≡ 1
count-batch_of op seq = ap count (batch_of-batch op seq) ∙ count-batch seq 1 _ (omega arith)

-- Behind the log: the memory table takes the write, and the sequence number moves on.
pub apply_batch-update :
    (sys : System) (op : Op) (db : Db) (table' : MemTable)
    → Fits op
    → db.last_seq + 1 < 2 ^ 56
    → (let w = write_of (db.last_seq + 1) op in
        Memtable.add w.seq w.type w.key w.value db.mem.table ≡ some table')
    → memory_usage (grown sys (write_of (db.last_seq + 1) op) db.mem.arena) < max_mem_table_bytes
    → apply_batch sys (batch_of op (db.last_seq + 1)) db
      ≡ some (
        success,
        record db {
          mem = record {
            table = table';
            arena = grown sys (write_of (db.last_seq + 1) op) db.mem.arena;
          };
          last_seq = db.last_seq + 1;
        },
      )
unfolding apply_batch approximate_memory_usage
apply_batch-update sys op db table' f few run small =
    let seq = db.last_seq + 1 in
    let replayed : iterate (inserter sys.address) (batch_of op seq) (some db.mem)
        ≡ some (
          success,
          some (record { table = table'; arena = grown sys (write_of seq op) db.mem.arena }),
        ) =
      ap (λ b. iterate (inserter sys.address) b (some db.mem)) (batch_of-batch op seq)
      ∙ iterate-batch (inserter sys.address) (op ∷ []) seq (some db.mem) (f, tt) (omega arith)
          (omega arith)
      ∙ ap (λ t. some (success, t)) (replay-update sys op seq db.mem table' run) in
    let one = count-batch_of op seq in ground (arith, replayed, one, few, small)
