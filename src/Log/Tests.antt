-- ===== src/Log/Tests.antt =====
-- Runs of the writer and the reader.
use mini_leveldb.Prelude.{
  ℕ, ◌-◌, ◌%◌, ◌≤◌, ◌∷◌, ◌+◌, take, length, List, true, arith, ◌≡◌, refl, Option, none, some, [],
  Bytes, codes,
}
use mini_leveldb.Coding.{encode_fixed32, decode_fixed32}
use mini_leveldb.Crc32c.{extend, value, table, mask_crc32c}
use mini_leveldb.Stdio.{fwrite, fflush, on_device}
use mini_leveldb.Status.{Status, is_ok}
use mini_leveldb.Log.Format.{record_crc, header}
use mini_leveldb.Log.Writer.{LogWriter, open_writer, emit_physical_record, fill_block, add_record}
use mini_leveldb.Log.Layout.{layout, piece_bytes, split, end_offset, record_pieces}
use mini_leveldb.Log.Written.{add_record_written}
use mini_leveldb.Log.Survival.{log_bytes, survivors, add_records, read_records, read_cut_log}
use mini_leveldb.Log.Durable.{empty_file, read-add_records, read-add_records_all}
use mini_leveldb.Log.Reader.{
  LogReader, open_reader, read_physical_record, read_record, read_record_loop, read_header,
  check_record, type_of_code,
}

abbrev written : Option (Status × LogWriter) → Bytes
written none = []
written (some (s, w)) = w.file.contents

abbrev record_of : Option (Option Bytes × LogReader) → Option Bytes
record_of none = none
record_of (some (r, s)) = r

read_back :
    record_of (
      read_record (
        open_reader
          (written (add_record (codes "hello") (open_writer (empty_file 100 (λ before. 0)) 0)))))
    ≡ some (codes "hello")
unfolding encode_fixed32 decode_fixed32 extend value table mask_crc32c fwrite fflush record_crc
    header open_writer emit_physical_record fill_block add_record open_reader read_physical_record
    read_record read_record_loop read_header check_record type_of_code
read_back = refl

abbrev two_records : List Bytes
two_records = codes "hello" ∷ (codes "world" ∷ [])

-- The second record loses its last bytes.
survivors_run : survivors 20 0 two_records ≡ codes "hello" ∷ []
unfolding encode_fixed32 extend value table mask_crc32c record_crc header layout piece_bytes
    end_offset split record_pieces survivors
survivors_run = refl

read_cut_log_example :
    read_records
      (length (take 20 (log_bytes 0 two_records)) + 1)
      (open_reader (take 20 (log_bytes 0 two_records)))
    ≡ some (survivors 20 0 two_records)
read_cut_log_example = read_cut_log two_records 20

-- A buffer of 4096 bytes, which is full at multiples of that size.
abbrev buffer : ℕ → ℕ
buffer before = 4096 - before % 4096

abbrev full_soon : LogWriter
full_soon = open_writer (empty_file 20 buffer) 0

read-add_records_example :
    (w : LogWriter) × (add_records two_records full_soon ≡ some w)
    × (read_records (length (on_device w.file) + 1) (open_reader (on_device w.file))
        ≡ some (survivors 20 0 two_records))
read-add_records_example = read-add_records two_records 20 buffer

read-add_records_all_example :
    (w : LogWriter) × (add_records two_records (open_writer (empty_file 24 buffer) 0) ≡ some w)
    × (read_records (length (on_device w.file) + 1) (open_reader (on_device w.file))
        ≡ some two_records)
unfolding encode_fixed32 extend value table mask_crc32c record_crc header layout piece_bytes
    end_offset split record_pieces log_bytes
read-add_records_all_example = read-add_records_all two_records 24 buffer (omega arith)

abbrev new_log : LogWriter
new_log = record { file = empty_file 100 buffer; block_offset = 0 }

add_record_written_example :
    (r : Status × LogWriter) × (add_record (codes "hello") new_log ≡ some r)
    × (on_device r.1.file ≡ take 100 (layout 0 (record_pieces 0 (codes "hello"))))
    × (length (layout 0 (record_pieces 0 (codes "hello"))) ≤ 100 → is_ok r.0 ≡ true)
    × (is_ok r.0 ≡ true
        → (r.1.file.contents ≡ layout 0 (record_pieces 0 (codes "hello")))
          × (r.1.block_offset ≡ end_offset 0 (record_pieces 0 (codes "hello"))))
add_record_written_example = add_record_written (codes "hello") new_log (omega arith)
