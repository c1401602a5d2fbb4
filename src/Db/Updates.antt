-- ===== src/Db/Updates.antt =====
-- `Put` and `Delete` of src/db/db_impl.cc, and what `Get` answers behind them.
use mini_leveldb.Prelude.{
  ℕ, ◌+◌, ◌^◌, ◌<◌, ◌≤◌, ◌&&◌, Bool-cases, if◌then◌else◌, true, ◌≡◌, refl, sym, ap, ap₂, subst, ◌∙◌,
  inl, inr, Option, none, some, List, [], ◌∷◌, Bytes, All, u64, arith,
}
use mini_leveldb.Slice.{slice_eq}
use mini_leveldb.Status.{Status, success, not_found_status, is_ok}
use mini_leveldb.Arena.{memory_usage}
use mini_leveldb.Log.Format.{block_size}
use mini_leveldb.Log.Writer.{LogWriter, add_record}
use mini_leveldb.Log.Written.{add_record_written}
use mini_leveldb.Log.Pieces.{record_pieces-Pieces}
use mini_leveldb.WriteBatch.{WriteBatch, set_sequence}
use mini_leveldb.WriteBatch.Shape.{Op, put_op, delete_op, Fits, batch}
use mini_leveldb.Memtable.{LookupState, not_found, found_value, deleted, MemTable, add}
use mini_leveldb.Memtable
use mini_leveldb.Memtable.Lookup.{Write, state_of}
use mini_leveldb.Memtable.Newest.{insert_write, insert_write-All, newest-insert_write}
use mini_leveldb.Memtable.Get.{Holds, get-newest, add-Holds}
use mini_leveldb.Db.Files.{System, Db}
use mini_leveldb.Db.Calls.{write, get, answer_from, apply_batch, max_mem_table_bytes}
use mini_leveldb.Db.Applied.{
  update, write_of, grown, filled, batch_of, update-write, apply_batch-update,
}

seq-write_of : (seq : ℕ) (op : Op) → (write_of seq op).seq ≡ seq
seq-write_of seq (put_op key value) = refl
seq-write_of seq (delete_op key) = refl

-- What `Get` answers for the key of an update.
abbrev pub said : Op → Bytes → Status × Option Bytes
said (put_op key value) k = (success, some value)
said (delete_op key) k = (not_found_status k, none)

-- A database whose log is open, at an offset within a block, and whose memory table holds these
-- writes, all of them numbered at most as its last sequence number.
pub record Ready (db : Db) (ws : List Write) : Type 0 where
  pub holds : Holds db.mem.table ws
  pub older : All (λ v. v.seq < db.last_seq + 1) ws
  pub log : LogWriter
  pub has_log : db.log ≡ some log
  pub in_block : log.block_offset ≤ block_size

-- `Get` of a database with the same tables and one more write in memory.
get-said :
    (k : Bytes) (op : Op) (seq : ℕ) (db db' : Db)
    → db'.tables ≡ db.tables
    → (let w = write_of seq op in
        Memtable.get k db'.mem.table ≡ (
          if slice_eq w.key k then some (state_of w.type w.value) else Memtable.get k db.mem.table))
    → get k db' ≡ (if slice_eq (write_of seq op).key k then some (said op k) else get k db)
unfolding get state_of answer_from
get-said k (put_op key value) seq db db' same mem = elim (Bool-cases (slice_eq key k)) [
  | inl here ↦
      let new : Memtable.get k db'.mem.table ≡ some (found_value value) = mem ∙ rw here refl in
      rw here (ap₂ (answer_from k) new same)
  | inr other ↦
      let old : Memtable.get k db'.mem.table ≡ Memtable.get k db.mem.table = mem ∙ rw other refl in
      rw other (ap₂ (answer_from k) old same)
]
get-said k (delete_op key) seq db db' same mem = elim (Bool-cases (slice_eq key k)) [
  | inl here ↦
      let new : Memtable.get k db'.mem.table ≡ some (deleted) = mem ∙ rw here refl in
      rw here (ap₂ (answer_from k) new same)
  | inr other ↦
      let old : Memtable.get k db'.mem.table ≡ Memtable.get k db.mem.table = mem ∙ rw other refl in
      rw other (ap₂ (answer_from k) old same)
]

weaken : (m n : ℕ) (ws : List Write) → m ≤ n → All (λ v. v.seq < m) ws → All (λ v. v.seq < n) ws
weaken m n [] le h = tt
weaken m n (w ∷ ws) le (h, hs) = (omega arith, weaken m n ws le hs)

-- What an update comes to.
abbrev pub Updated : System → Op → Db → List Write → Type 0
Updated sys op db ws =
    (s : Status) × (db' : Db) × (update sys op db ≡ some (s, db'))
    × (is_ok s ≡ true → Ready db' (insert_write (write_of (db.last_seq + 1) op) ws))
    × ((k : Bytes)
        → get k db' ≡ (
            if is_ok s && slice_eq (write_of (db.last_seq + 1) op).key k
            then some (said op k)
            else get k db))

write-logged :
    (sys : System) (batch : WriteBatch) (db : Db) (log log' : LogWriter) (s : Status)
    → db.log ≡ some log
    → db.last_seq + 1 < 2 ^ 56
    → add_record (set_sequence (db.last_seq + 1) batch).rep log ≡ some (s, log')
    → write sys batch db ≡ (
        if is_ok s
        then apply_batch sys (set_sequence (db.last_seq + 1) batch) (record db { log = some log' })
        else some (s, record db { log = some log' }))
unfolding write
write-logged sys batch db log log' s has_log few run =
    let seq : u64 (db.last_seq + 1) ≡ db.last_seq + 1 = omega arith in
    let run' : add_record (set_sequence (u64 (db.last_seq + 1)) batch).rep log ≡ some (s, log') =
      ap (λ n. add_record (set_sequence n batch).rep log) seq ∙ run in
    let logged : Db = record db { log = some log' } in
    let here : write sys batch db ≡ (
        if is_ok s
        then apply_batch sys (set_sequence (u64 (db.last_seq + 1)) batch) logged
        else some (s, logged)) =
      ground (arith, has_log, run') in
    here
    ∙ ap (λ n. if is_ok s then apply_batch sys (set_sequence n batch) logged else some (s, logged))
        seq

-- `Put` or `Delete` ends, on any device for the log, if the log is open (not null) and at an offset
-- within its block, and if the memory table is a well-formed list of writes that are all numbered at
-- most as the database's last sequence number. If it reports success, `Get` answers with the new
-- value, or that the key is not found, for its key, and as before for every other key, and these
-- conditions hold again, with the write in the memory table; if it fails, `Get` answers as before for
-- all keys. The key and value are shorter than 2^32 bytes, the sequence number stays below 2^56, and
-- the memory table stays below the size at which it is flushed.
pub update-get :
    (sys : System) (op : Op) (db : Db) (ws : List Write)
    → Ready db ws
    → Fits op
    → db.last_seq + 1 < 2 ^ 56
    → memory_usage (grown sys (write_of (db.last_seq + 1) op) db.mem.arena) < max_mem_table_bytes
    → Updated sys op db ws
update-get sys op db ws ready f few small =
    let seq = db.last_seq + 1 in
    let w = write_of seq op in
    let ((s, log'), run, _, _, at_end) =
      add_record_written (batch_of op seq).rep ready.log ready.in_block in
    let logged : Db = record db { log = some log' } in
    let wrote =
      update-write sys op db f
      ∙ write-logged sys (filled op) db ready.log log' s ready.has_log few run in
    let number : w.seq ≡ seq = seq-write_of seq op in
    let below : w.seq < 2 ^ 56 = omega (arith, number) in
    let older : All (λ v. v.seq < w.seq) ws =
      subst (λ n. All (λ v. v.seq < n) ws) (sym number) ready.older in
    let (table', added, held) = add-Holds db.mem.table ws w ready.holds below in
    elim (Bool-cases (is_ok s)) [
      | inr failed ↦
          (s, logged, wrote ∙ rw failed refl, λ ok. absurd cc, λ k. rw failed (unfold get in refl))
      | inl fine ↦
          let arena' = grown sys w db.mem.arena in
          let db' : Db = record logged {
            mem = record { table = table'; arena = arena' };
            last_seq = seq;
          } in
          let mem : (k : Bytes)
              → Memtable.get k table' ≡ (
                  if slice_eq w.key k
                  then some (state_of w.type w.value)
                  else Memtable.get k db.mem.table) =
            λ k.
              get-newest table' (insert_write w ws) k held
              ∙ ap some (newest-insert_write k w ws below ready.holds.numbered older)
              ∙ rw (get-newest db.mem.table ws k ready.holds) (ground arith) in
          (
            success,
            db',
            wrote ∙ rw fine (apply_batch-update sys op logged table' f few added small),
            λ ok. record {
              holds = held;
              older =
                  insert_write-All (λ v. v.seq < seq + 1) w ws (omega (arith, number))
                    (weaken seq (seq + 1) ws (omega arith) ready.older);
              log = log';
              has_log = refl;
              in_block =
                  subst (λ q. q ≤ block_size) (sym (at_end fine).1)
                    (record_pieces-Pieces ready.log.block_offset (batch_of op seq).rep
                      ready.in_block).2;
            },
            λ k. get-said k op seq db db' refl (mem k),
          )
    ]
