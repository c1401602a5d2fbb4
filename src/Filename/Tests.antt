-- ===== src/Filename/Tests.antt =====
-- Runs on file names.
use mini_leveldb.Prelude.{◌↔◌, List, [], ◌∷◌, Bytes, ◌≡◌, refl, some, none, codes, arith}
use mini_leveldb.Skiplist.Sequence.{Sorted}
use mini_leveldb.Filename.Listing.{
  FileInfo, number_less, list_files, Listed, Named, list_files-Sorted,
}
use mini_leveldb.Slice.{slice_eq}
use mini_leveldb.Filename.{
  table_file, log_file, temp_file_name, parse_file_name, decimal, last_segment, has_suffix,
  classify, only_digits, strtoull,
}
use mini_leveldb.Filename.Names.{file_name, parse-file_name}

name_run : temp_file_name (codes "/tmp/db") 305 ≡ codes "/tmp/db/305.ldb.tmp"
unfolding temp_file_name decimal
name_run = refl

parse_run : parse_file_name (codes "/tmp.d/000012.ldb") ≡ some (12, table_file)
unfolding parse_file_name last_segment has_suffix classify only_digits strtoull slice_eq
parse_run = refl

no_number : parse_file_name (codes "db/x1.log") ≡ none
unfolding parse_file_name last_segment has_suffix classify only_digits strtoull slice_eq
no_number = refl

parse-file_name_example :
    parse_file_name (file_name log_file (codes "/tmp/db") 305) ≡ some (305, log_file)
parse-file_name_example = parse-file_name log_file (codes "/tmp/db") 305 (omega arith)

abbrev names : List Bytes
names = codes "7.ldb" ∷ (codes "LOCK" ∷ (codes "3.log" ∷ []))

list_files-Sorted_example :
    let files = (list_files (codes "db") (some names)).1 in
    Sorted number_less files × ((f : FileInfo) → Listed f files ↔ Named f names)
list_files-Sorted_example = list_files-Sorted (codes "db") names
