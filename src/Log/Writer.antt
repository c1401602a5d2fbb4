-- ===== src/Log/Writer.antt =====
-- src/db/log_writer.h and src/db/log_writer.cc.
use mini_leveldb.Prelude.{
  ℕ, zero, suc, ◌+◌, ◌-◌, ◌%◌, min, ltb, ◌==◌, if◌then◌else◌, Bool, true, false, ◌&&◌, not, Option,
  none, some, Bytes, codes, length, take, drop, replicate,
}
use mathlib.Core.Option
use mini_leveldb.Status.{Status, success, io_error_status, is_ok}
use mini_leveldb.Stdio.{File, fwrite, fflush}
use mini_leveldb.Log.Format.{
  block_size, header_size, RecordType, full_type, first_type, middle_type, last_type, header,
}

pub record LogWriter : Type 0 where
  pub file : File
  pub block_offset : ℕ

-- The constructor, for a file that holds `offset` bytes.
unfoldable pub open_writer : File → ℕ → LogWriter
open_writer file offset = record { file = file; block_offset = offset % block_size }

-- `EmitPhysicalRecord`. `||` does not call the second `fwrite` after a short header.
unfoldable pub emit_physical_record : RecordType → Bytes → LogWriter → Status × LogWriter
emit_physical_record type payload w =
    let (wrote, file) = fwrite (header type payload) w.file in
    if not (wrote == header_size)
    then (io_error_status (codes "write log record failed"), record w { file = file })
    else let (wrote', file') = fwrite payload file in
      if ltb 0 (length payload)
      then (if not (wrote' == length payload)
          then (io_error_status (codes "write log record failed"), record w { file = file' })
          else (
            success,
            record { file = file'; block_offset = w.block_offset + (header_size + length payload) },
          ))
      else (
        success,
        record { file = file; block_offset = w.block_offset + (header_size + length payload) },
      )

-- The end of a block that is too short for a header is filled with zeros.
unfoldable pub fill_block : LogWriter → Status × LogWriter
fill_block w =
    let leftover = block_size - w.block_offset in
    if ltb leftover header_size
    then (if ltb 0 leftover
        then (let (wrote, file) = fwrite (replicate leftover 0) w.file in
            if not (wrote == leftover)
            then (io_error_status (codes "write log padding failed"), record w { file = file })
            else (success, record { file = file; block_offset = 0 }))
        else (success, record w { block_offset = 0 }))
    else (success, w)

-- The type of a piece: whether it begins and whether it ends its record.
abbrev pub piece_type : Bool → Bool → RecordType
piece_type true true = full_type
piece_type true false = first_type
piece_type false true = last_type
piece_type false false = middle_type

-- The loop `do … while (s.ok() && left > 0)` of `AddRecord`; `none` means that the fuel ran out.
unfoldable pub add_record_loop : ℕ → Bytes → Bool → LogWriter → Option (Status × LogWriter)
add_record_loop zero ptr begin w = none
add_record_loop (suc fuel) ptr begin w =
    let (filled, w1) = fill_block w in
    let avail = block_size - w1.block_offset - header_size in
    let frag_len = min (length ptr) avail in
    let type = piece_type begin (frag_len == length ptr) in
    let (s, w2) = emit_physical_record type (take frag_len ptr) w1 in
    let more = add_record_loop fuel (drop frag_len ptr) false w2 in
    if not (is_ok filled)
    then some (filled, w1)
    else if is_ok s && ltb 0 (length (drop frag_len ptr))
    then more
    else some (s, w2)

-- `AddRecord` behind the loop: `fflush` is called, and what it returns is thrown away.
abbrev pub flush_log : Status × LogWriter → Status × LogWriter
flush_log (s, w) = if is_ok s then (s, record w { file = (fflush w.file).1 }) else (s, w)

-- Each round but the first writes a byte of the record at least.
unfoldable pub add_record : Bytes → LogWriter → Option (Status × LogWriter)
unfolding add_record_loop
add_record data_ w = Option.map flush_log (add_record_loop (length data_ + 2) data_ true w)
