-- ===== src/Db/Calls.antt =====
-- `Write`, `FlushMemTable`, `Put`, `Delete` and `Get` of src/db/db_impl.cc, under the mutex. `none`
-- stands for what C++ leaves undefined, a null log among it, and for fuel that runs out.
use mini_leveldb.Prelude.{
  ℕ, ◌+◌, ◌*◌, leb, not, ◌&&◌, length, if◌then◌else◌, Option, none, some, List, [], ◌∷◌, ◌++◌,
  Bytes, codes, u64,
}
use mini_leveldb.Status.{Status, success, io_error_status, not_found_status, is_ok}
use mini_leveldb.Filename.{temp_file_name, table_file_name, log_file_name}
use mini_leveldb.Stdio.{File, fflush, on_device}
use mini_leveldb.Log.Writer.{open_writer, add_record}
use mini_leveldb.WriteBatch.{WriteBatch, clear, set_sequence, count, iterate, sign_extend}
use mini_leveldb.WriteBatch
use mini_leveldb.Memtable.{LookupState, not_found, found_value, deleted}
use mini_leveldb.Memtable
use mini_leveldb.Table.Reader.{Table, open_table}
use mini_leveldb.Table.Reader
use mini_leveldb.Table.Finished.{build_table}
use mini_leveldb.Db.Memory.{new_memory, inserter, approximate_memory_usage, visited}
use mini_leveldb.Db.Files.{Files, contents_of, without, System, Db}

abbrev pub max_mem_table_bytes : ℕ
max_mem_table_bytes = 4 * 1024 * 1024

abbrev bytes_of : Option Bytes → Bytes
bytes_of none = []
bytes_of (some contents) = contents

-- The last step of a flush: the log of that number is opened, with a new memory table.
unfoldable pub open_log : System → ℕ → Db → Status × Db
open_log sys number db =
    let name = log_file_name db.dbname number in
    elim (sys.room name) [
      | none ↦ (
        io_error_status (codes "create new log failed: " ++ name),
        record db { log_number = number; log = none },
      )
      | some room ↦
          let contents = bytes_of (contents_of name db.files) in
          let file : File = record {
            contents = contents;
            capacity = length contents + room;
            takes = sys.takes name;
          } in
          (
            success,
            record db {
              log_number = number;
              log = some (open_writer file 0);
              mem = new_memory sys.address;
            },
          )
    ]

-- The old log is closed and removed. `fclose` fails if bytes are left that the device does not take.
unfoldable pub replace_log : System → ℕ → Db → Option (Status × Db)
unfolding open_log
replace_log sys number db = elim db.log [
  | none ↦ none
  | some w ↦
      let old = log_file_name db.dbname db.log_number in
      let files' : Files = (old, on_device w.file) ∷ without old db.files in
      if not (sys.closes old && (fflush w.file).0)
      then some (
        io_error_status (codes "close old log failed: " ++ old),
        record db { log = none; files = files' },
      )
      else if not (sys.removes old)
      then some (
        io_error_status (codes "remove old log failed: " ++ old),
        record db { log = none; files = files' },
      )
      else some (open_log sys number (record db { log = none; files = without old files' }))
]

-- The finished table gets its name and is opened.
unfoldable pub install_table : System → ℕ → ℕ → Bytes → Db → Option (Status × Db)
unfolding replace_log
install_table sys table_number log_number contents db =
    let tmp_name = temp_file_name db.dbname table_number in
    let table_name = table_file_name db.dbname table_number in
    let files' : Files = (table_name, contents) ∷ without table_name (without tmp_name db.files) in
    if not (sys.renames tmp_name)
    then some (io_error_status (codes "rename tmp table failed: " ++ tmp_name), db)
    else elim (open_table sys.past_end table_name
        (if sys.readable table_name then some contents else none)) [
          | none ↦ none
          | some (s, none) ↦ some (s, record db { files = files' })
          | some (s, some table) ↦
              replace_log sys log_number (record db { files = files'; tables = table ∷ db.tables })
        ]

-- `FlushMemTable`. The builder's destructor closes the file, whatever `fclose` returns.
unfoldable pub flush_mem_table : System → Db → Option (Status × Db)
unfolding install_table
flush_mem_table sys db = elim (visited db.mem) [
  | [] ↦ some (success, db)
  | e ∷ es ↦
      let table_number = db.next_file_number in
      let new_log_number = u64 (db.next_file_number + 1) in
      let numbered : Db = record db { next_file_number = u64 (db.next_file_number + 2) } in
      let tmp_name = temp_file_name db.dbname table_number in
      elim (sys.room tmp_name) [
        | none ↦ some (io_error_status (codes "create tmp table failed: " ++ tmp_name), numbered)
        | some room ↦
            let file : File = record {
              contents = [];
              capacity = room;
              takes = sys.takes tmp_name;
            } in
            let (s, b) = build_table (e ∷ es) file in
            let written : Db = record numbered {
              files = (tmp_name, on_device b.file) ∷ without tmp_name db.files;
            } in
            if is_ok s
            then install_table sys table_number new_log_number (on_device b.file) written
            else some (s, written)
      ]
]

-- `Write` behind the log: the batch is replayed into the memory table.
unfoldable pub apply_batch : System → WriteBatch → Db → Option (Status × Db)
unfolding flush_mem_table
apply_batch sys batch db = elim (iterate (inserter sys.address) batch (some db.mem)) [
  | none ↦ none
  | some (s, none) ↦ none
  | some (s, some mem') ↦
      let db' : Db = record db {
        mem = mem';
        last_seq = u64 (db.last_seq + sign_extend (count batch));
      } in
      if not (is_ok s)
      then some (s, record db { mem = mem' })
      else if leb max_mem_table_bytes (approximate_memory_usage mem')
      then flush_mem_table sys db'
      else some (success, db')
]

-- `Write`
unfoldable pub write : System → WriteBatch → Db → Option (Status × Db)
unfolding apply_batch
write sys batch db =
    let batch' = set_sequence (u64 (db.last_seq + 1)) batch in
    elim db.log [
      | none ↦ none
      | some log ↦ elim (add_record batch'.rep log) [
        | none ↦ none
        | some (s, log') ↦
            let logged : Db = record db { log = some log' } in
            if is_ok s then apply_batch sys batch' logged else some (s, logged)
      ]
    ]

-- `Put` and `Delete`
unfoldable pub put : System → Bytes → Bytes → Db → Option (Status × Db)
unfolding write
put sys key value db = elim (WriteBatch.put key value clear) [
  | none ↦ none
  | some batch ↦ write sys batch db
]

unfoldable pub delete : System → Bytes → Db → Option (Status × Db)
unfolding write
delete sys key db = elim (WriteBatch.delete key clear) [
  | none ↦ none
  | some batch ↦ write sys batch db
]

-- What `Get` answers when a layer knows the key.
abbrev answer : Bytes → LookupState → Option (Status × Option Bytes)
answer key not_found = none
answer key (found_value value) = some (success, some value)
answer key deleted = some (not_found_status key, none)

-- `Get` in the tables, from the newest on.
unfoldable pub get_in_tables : Bytes → List Table → Option (Status × Option Bytes)
get_in_tables key [] = some (not_found_status key, none)
get_in_tables key (t ∷ tables) =
    let older = get_in_tables key tables in
    elim (Reader.get key t) [
      | none ↦ none
      | some state ↦ elim (answer key state) [ none ↦ older | some result ↦ some result ]
    ]

-- `Get` behind the memory table.
unfoldable pub answer_from :
    Bytes → Option LookupState → List Table → Option (Status × Option Bytes)
unfolding get_in_tables
answer_from key none tables = none
answer_from key (some state) tables = elim (answer key state) [
  | none ↦ get_in_tables key tables
  | some result ↦ some result
]

-- `Get`: the status, and the value if there is one.
unfoldable pub get : Bytes → Db → Option (Status × Option Bytes)
unfolding answer_from
get key db = answer_from key (Memtable.get key db.mem.table) db.tables
