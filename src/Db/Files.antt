-- ===== src/Db/Files.antt =====
-- The state of src/db/db_impl.h, and the files and system calls of src/db/db_impl.cc.
use mini_leveldb.Prelude.{ℕ, if◌then◌else◌, Bool, Option, none, some, List, [], ◌∷◌, Bytes}
use mini_leveldb.Slice.{slice_eq}
use mini_leveldb.Arena.{Chunk}
use mini_leveldb.Log.Writer.{LogWriter}
use mini_leveldb.Table.Reader.{Table}
use mini_leveldb.Db.Memory.{Memory}

-- Files by their paths, the one written last in front.
abbrev pub Files : Type 0
Files = List (Bytes × Bytes)

unfoldable pub contents_of : Bytes → Files → Option Bytes
contents_of path [] = none
contents_of path ((name, contents) ∷ files) =
    let others = contents_of path files in if slice_eq name path then some contents else others

unfoldable pub without : Bytes → Files → Files
without path [] = []
without path ((name, contents) ∷ files) =
    let others = without path files in
    if slice_eq name path then others else (name, contents) ∷ others

-- How the system answers: the room on the device for a file that is opened to be written, if it can
-- be opened, and what its stream takes beyond that; whether a file can be opened to be read, renamed,
-- removed, and closed if all its bytes are on the device; what `new` returns; and whether
-- `remove_prefix` past a view's end comes back.
pub record System : Type 0 where
  pub room : Bytes → Option ℕ
  pub takes : Bytes → ℕ → ℕ
  pub readable : Bytes → Bool
  pub renames : Bytes → Bool
  pub removes : Bytes → Bool
  pub closes : Bytes → Bool
  pub address : List Chunk → ℕ → ℕ
  pub past_end : Bool

-- `log` is `log_` with `log_file_`, `none` if they are null.
pub record Db : Type 0 where
  pub dbname : Bytes
  pub log_number : ℕ
  pub log : Option LogWriter
  pub mem : Memory
  pub tables : List Table
  pub last_seq : ℕ
  pub next_file_number : ℕ
  pub files : Files
