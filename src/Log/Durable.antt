-- ===== src/Log/Durable.antt =====
-- Adding records with src/db/log_writer.cc to a new log and reading them back.
use mini_leveldb.Prelude.{
  ℕ, ◌+◌, ◌≤◌, if◌then◌else◌, Bool-cases, ◌≡◌, refl, ap, ap₂, sym, ◌∙◌, subst, inl, inr, some, List,
  [], ◌∷◌, ◌++◌, append-nil, append_assoc, Bytes, length, take, arith,
}
use mini_leveldb.Status.{Status, is_ok}
use mini_leveldb.Stdio.{File, room, on_device}
use mini_leveldb.Stdio
use mini_leveldb.Log.Format.{block_size}
use mini_leveldb.Log.Writer.{LogWriter, open_writer, add_record}
use mini_leveldb.Log.Written.{add_record-Sent}
use mini_leveldb.Log.Reader.{open_reader}
use mini_leveldb.Log.Pieces.{record_pieces-Pieces}
use mini_leveldb.Log.Survival.{
  record_bytes, record_end, log_bytes, survivors, add_records, read_records, read_cut_log,
  survivors_all,
}

-- What a row of calls of `AddRecord` leaves on the device.
abbrev Added : List Bytes → LogWriter → Type 0
Added ds w =
    let bytes = log_bytes w.block_offset ds in
    (w' : LogWriter) × (add_records ds w ≡ some w')
    × (on_device w'.file ≡ take w.file.capacity (w.file.contents ++ bytes))

add_records_go :
    (d : Bytes) (ds : List Bytes) (w : LogWriter) (r : Status × LogWriter)
    → add_record d w ≡ some r
    → add_records (d ∷ ds) w ≡ (if is_ok r.0 then add_records ds r.1 else some r.1)
unfolding add_records
add_records_go d ds w r e = ground (arith, e)

add_records-Added : (ds : List Bytes) (w : LogWriter) → w.block_offset ≤ block_size → Added ds w
unfolding log_bytes
add_records-Added [] w h =
    (w, unfold add_records in refl, ap (take w.file.capacity) (sym (append-nil w.file.contents)))
add_records-Added (d ∷ ds) w h =
    let o = w.block_offset in
    let whole = record_bytes o d in
    let behind = log_bytes (record_end o d) ds in
    let (r, run, both) = add_record-Sent d w h in
    let (sent, at) = both in
    elim (Bool-cases (is_ok r.0)) [
      | inl done ↦
          let next = at done in
          let (w', more, device) =
            add_records-Added ds r.1
              (subst (λ q. q ≤ block_size) (sym next) (record_pieces-Pieces o d h).2) in
          (
            w',
            add_records_go d ds w r run ∙ rw done more,
            device
                ∙ ap₂ take sent.capacity (
                    ap₂ (λ c q. c ++ log_bytes q ds) (sent.taken done) next
                    ∙ append_assoc w.file.contents whole behind),
          )
      | inr failed ↦
          let stop = Stdio.Sent-stopped whole behind w.file r.1.file (is_ok r.0) sent failed in
          (r.1, add_records_go d ds w r run ∙ rw failed, stop.device)
    ]

-- A new file on a device of this size, with a buffer that takes what it likes.
abbrev pub empty_file : ℕ → (ℕ → ℕ) → File
empty_file capacity takes = record { contents = []; capacity = capacity; takes = takes }

-- Records added to a new log on a device of any size, through a stream with any buffer, read back as
-- those that the device had room for, in order: a call of `AddRecord` that fails half way, or that
-- succeeds although the device is full, spoils no record that was there.
pub read-add_records :
    (ds : List Bytes) (capacity : ℕ) (takes : ℕ → ℕ)
    → (w : LogWriter) × (add_records ds (open_writer (empty_file capacity takes) 0) ≡ some w)
      × (read_records (length (on_device w.file) + 1) (open_reader (on_device w.file))
          ≡ some (survivors capacity 0 ds))
unfolding open_writer
read-add_records ds capacity takes =
    let w0 = open_writer (empty_file capacity takes) 0 in
    let (w, run, same) = add_records-Added ds w0 (omega arith) in
    (
      w,
      run,
      subst (λ c. read_records (length c + 1) (open_reader c) ≡ some (survivors capacity 0 ds))
          (sym same) (read_cut_log ds capacity),
    )

-- With room on the device for all the records that are added to a new log, all of them read back,
-- in order.
pub read-add_records_all :
    (ds : List Bytes) (capacity : ℕ) (takes : ℕ → ℕ)
    → length (log_bytes 0 ds) ≤ capacity
    → (w : LogWriter) × (add_records ds (open_writer (empty_file capacity takes) 0) ≡ some w)
      × (read_records (length (on_device w.file) + 1) (open_reader (on_device w.file)) ≡ some ds)
read-add_records_all ds capacity takes h =
    let (w, run, back) = read-add_records ds capacity takes in
    (w, run, back ∙ ap some (survivors_all ds capacity 0 h))
