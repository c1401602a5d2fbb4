-- ===== src/Log/Reader.antt =====
-- src/db/log_reader.h and src/db/log_reader.cc. The buffer is the part of `buffer_` that `fread`
-- filled, so `limit_` is its length.
use mini_leveldb.Prelude.{
  ℕ, zero, suc, ◌+◌, ◌-◌, ltb, ◌==◌, if◌then◌else◌, Bool, true, false, Option, none, some, [], ◌++◌,
  Bytes, length, take, drop, get_or, bit_or, ◌<<<◌,
}
use mini_leveldb.Coding.{decode_fixed32}
use mini_leveldb.Log.Format.{
  block_size, header_size, RecordType, full_type, first_type, middle_type, last_type, record_crc,
}

pub record LogReader : Type 0 where
  pub unread : Bytes
  pub buffer : Bytes
  pub base : ℕ
  pub pos : ℕ
  pub limit : ℕ
  pub eof : Bool
  pub valid_end : ℕ
  pub res : Bytes

pub data ReadResult : Type 0 where
  read_ok : RecordType → Bytes → ReadResult
  read_bad read_eof : ReadResult

-- `Refill`: the next block of the file, `fread(buffer_, 1, kBlockSize, file_)`.
unfoldable pub refill : LogReader → Bool × LogReader
refill r =
    let chunk : Bytes = take block_size r.unread in
    if r.eof then (false, r) else (
      ltb 0 (length chunk),
      record r {
        unread = drop block_size r.unread;
        buffer = chunk;
        base = r.base + r.limit;
        pos = 0;
        limit = length chunk;
        eof = ltb (length chunk) block_size;
      },
    )

abbrev pub new_reader : Bytes → LogReader
new_reader contents = record {
  unread = contents;
  buffer = [];
  base = 0;
  pos = 0;
  limit = 0;
  eof = false;
  valid_end = 0;
  res = [];
}

-- The constructor, on a file with these contents.
unfoldable pub open_reader : Bytes → LogReader
unfolding refill
open_reader contents = (refill (new_reader contents)).1

-- The type byte as the enumeration's value; `none` is a byte that is no type of a record on disk.
unfoldable pub type_of_code : ℕ → Option RecordType
type_of_code t =
    if t == 1
    then some full_type
    else if t == 2
    then some first_type
    else if t == 3
    then some middle_type
    else if t == 4
    then some last_type
    else none

-- The checks on a header and the payload behind it, `h` the bytes from the position on.
unfoldable pub check_record : Bytes → ℕ → ℕ → LogReader → ReadResult × LogReader
check_record h len t r = elim (type_of_code t) [
  | none ↦ (read_bad, r)
  | some type ↦
      let payload : Bytes = take len (drop header_size h) in
      if record_crc t payload == decode_fixed32 h
      then (
        read_ok type payload,
        record r {
          pos = r.pos + (header_size + len);
          valid_end = r.base + (r.pos + (header_size + len));
        },
      )
      else (read_bad, r)
]

-- `ReadPhysicalRecord` once a header is in the buffer.
unfoldable pub read_header : LogReader → ReadResult × LogReader
read_header r =
    let h : Bytes = drop r.pos r.buffer in
    let len = bit_or (get_or h 4 0) (get_or h 5 0 <<< 8) in
    if ltb r.limit (r.pos + header_size + len)
    then ((if r.eof then read_eof else read_bad), r)
    else check_record h len (get_or h 6 0) r

-- The loop of `ReadPhysicalRecord`; `none` means that the fuel ran out.
unfoldable pub read_physical_record : ℕ → LogReader → Option (ReadResult × LogReader)
read_physical_record zero r = none
read_physical_record (suc fuel) r =
    let filled = refill (record r { pos = r.limit }) in
    let again = read_physical_record fuel filled.1 in
    if ltb r.limit (r.pos + header_size)
    then (if r.eof
        then some (read_eof, r)
        else (if filled.0 then again else some (read_eof, filled.1)))
    else some (read_header r)

-- The loop of `ReadRecord`, with its flag `in_frag`: the record, or false.
unfoldable pub read_record_loop : ℕ → Bool → LogReader → Option (Option Bytes × LogReader)
read_record_loop zero in_frag r = none
read_record_loop (suc fuel) in_frag r = elim (read_physical_record (length r.unread + 2) r) [
  | none ↦ none
  | some (read_ok full_type frag, r') ↦
      some (some frag, (if in_frag then record r' { res = [] } else r'))
  | some (read_ok first_type frag, r') ↦ read_record_loop fuel true (record r' { res = frag })
  | some (read_ok last_type frag, r') ↦
      let joined : LogReader = record r' { res = r'.res ++ frag } in
      let orphan = read_record_loop fuel false r' in
      if in_frag then some (some joined.res, joined) else orphan
  | some (read_ok _ frag, r') ↦
      read_record_loop fuel in_frag (if in_frag then record r' { res = r'.res ++ frag } else r')
  | some (read_bad, r') ↦ read_record_loop fuel false (record r' { res = []; pos = block_size })
  | some (read_eof, r') ↦ some (none, r')
]

-- What is left to read bounds the number of rounds.
unfoldable pub read_record : LogReader → Option (Option Bytes × LogReader)
read_record r =
    read_record_loop (length r.unread + (r.limit - r.pos) + 2) false (record r { res = [] })
