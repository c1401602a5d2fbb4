-- ===== src/Db/Tests.antt =====
-- Runs on databases.
use mini_leveldb.Prelude.{ℕ, ◌+◌, ◌-◌, ◌%◌, ◌<◌, refl, true, some, List, [], ◌∷◌, codes, arith}
use mini_leveldb.Arena.{Chunk, new_arena, allocate_aligned, allocate_new_block, memory_usage}
use mini_leveldb.Log.Writer.{LogWriter, open_writer}
use mini_leveldb.WriteBatch.Shape.{Op, put_op}
use mini_leveldb.Memtable.Get.{new_table-Holds}
use mini_leveldb.Db.Memory.{new_memory}
use mini_leveldb.Db.Files.{System, Db}
use mini_leveldb.Db.Calls.{max_mem_table_bytes}
use mini_leveldb.Db.Applied.{grown, write_of}
use mini_leveldb.Db.Updates.{Ready, Updated, update-get}

abbrev upwards : List Chunk → ℕ → ℕ
upwards [] size = 16
upwards (c ∷ cs) size = 16 + (c.start + c.size + upwards cs size)

abbrev system : System
system = record {
  room = λ path. some 1000000;
  takes = λ path before. 4096 - before % 4096;
  readable = λ path. true;
  renames = λ path. true;
  removes = λ path. true;
  closes = λ path. true;
  address = upwards;
  past_end = true;
}

abbrev log : LogWriter
log = open_writer (record { contents = []; capacity = 100; takes = λ before. 0 }) 0

-- A new database.
abbrev empty : Db
empty = record {
  dbname = codes "db";
  log_number = 1;
  log = some log;
  mem = new_memory upwards;
  tables = [];
  last_seq = 0;
  next_file_number = 2;
  files = [];
}

empty-Ready : Ready empty []
unfolding open_writer new_memory
empty-Ready = record {
  holds = new_table-Holds;
  older = tt;
  log = log;
  has_log = refl;
  in_block = omega arith;
}

abbrev a_put : Op
a_put = put_op (codes "a") (codes "x")

small_arena : memory_usage (grown system (write_of 1 a_put) empty.mem.arena) < max_mem_table_bytes
unfolding new_memory new_arena allocate_aligned allocate_new_block memory_usage
small_arena = omega arith

update-get_example : Updated system a_put empty []
update-get_example =
    update-get system a_put empty [] empty-Ready (omega arith, omega arith) (omega arith)
      small_arena
