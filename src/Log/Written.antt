-- ===== src/Log/Written.antt =====
-- `AddRecord` of src/db/log_writer.cc sends the layout of the record's pieces to the stream, and stops
-- at the first call that fails.
use mini_leveldb.Prelude.{
  ℕ, ◌+◌, ◌≤◌, true, Bool-cases, inl, inr, ◌≡◌, ap, some, ◌++◌, Bytes, length, take, arith,
}
use mathlib.Core.Option
use mini_leveldb.Status.{Status, is_ok}
use mini_leveldb.Stdio.{room, on_device, fflush}
use mini_leveldb.Log.Format.{block_size}
use mini_leveldb.Log.Writer.{LogWriter, flush_log, add_record}
use mini_leveldb.Log.Layout.{layout, end_offset, record_pieces}
use mini_leveldb.Log.Sent.{Sent}
use mini_leveldb.Log.Loop.{add_record_loop-Wrote}

flush_log-Sent :
    (bytes : Bytes) (o : ℕ) (w : LogWriter) (r : Status × LogWriter)
    → Sent bytes o w r
    → Sent bytes o w (flush_log r)
unfolding fflush
flush_log-Sent bytes o w (s, w') sent = elim (Bool-cases (is_ok s)) [
  | inl done ↦ rw done sent
  | inr failed ↦ rw failed sent
]

pub add_record-Sent :
    (payload : Bytes) (w : LogWriter)
    → w.block_offset ≤ block_size
    → let pieces = record_pieces w.block_offset payload in
      (r : Status × LogWriter) × (add_record payload w ≡ some r)
      × Sent (layout w.block_offset pieces) (end_offset w.block_offset pieces) w r
unfolding add_record record_pieces
add_record-Sent payload w h =
    let (r, run, sent) =
      add_record_loop-Wrote (length payload + 2) payload true w h (ground arith) in
    (flush_log r, ap (Option.map flush_log) run, flush_log-Sent _ _ w r sent)

-- `AddRecord` ends on every device, from an offset within its block. The device then holds, as far as
-- it has room, what the stream had taken before and the record's pieces, each with the zeros in front
-- of it, also if the call fails half way. The call succeeds if the pieces fit; and if it succeeds,
-- which a stream that buffers may do on a full device too, the stream has taken all of them and the
-- offset in the block is where they end.
pub add_record_written :
    (payload : Bytes) (w : LogWriter)
    → w.block_offset ≤ block_size
    → let pieces = record_pieces w.block_offset payload in
      let bytes = layout w.block_offset pieces in
      (r : Status × LogWriter) × (add_record payload w ≡ some r)
      × (on_device r.1.file ≡ take w.file.capacity (w.file.contents ++ bytes))
      × (length bytes ≤ room w.file → is_ok r.0 ≡ true)
      × (is_ok r.0 ≡ true
          → (r.1.file.contents ≡ w.file.contents ++ bytes)
            × (r.1.block_offset ≡ end_offset w.block_offset pieces))
add_record_written payload w h =
    let (r, run, sent) = add_record-Sent payload w h in
    let (stream, at) = sent in
    (r, run, stream.device, stream.fits, λ done. (stream.taken done, at done))
