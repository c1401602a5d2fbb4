-- ===== src/Log/Survival.antt =====
-- The writer and the reader of the log together: what survives of the records that were added.
use mini_leveldb.Prelude.{
  ℕ, zero, suc, ◌+◌, ◌-◌, ◌≤◌, ◌<◌, leb, if◌then◌else◌, Bool-cases, leb→le, le→leb, ◌≡◌, refl, ap,
  ◌∙◌, sym, subst, inl, inr, Option, none, some, List, [], ◌∷◌, ◌++◌, append-nil, Bytes, length,
  take, drop, length-append, length-drop, take-append-drop, take_all, take-nil, cons_of, arith,
}
use mathlib.Core.Option
use mini_leveldb.Status.{is_ok}
use mini_leveldb.Log.Format.{block_size, full_type, first_type}
use mini_leveldb.Log.Writer.{LogWriter, add_record}
use mini_leveldb.Log.Layout.{Piece, layout, end_offset, record_pieces, next_offset}
use mini_leveldb.Log.Reader.{LogReader, open_reader, read_record}
use mini_leveldb.Log.Position.{At, open_reader-At}
use mini_leveldb.Log.Pieces.{record_pieces-Pieces, Pieces, full, first}
use mini_leveldb.Log.Recovery.{Pieces-read, Pieces-cut, layout_split}
use mini_leveldb.Log.Rounds.{At-res, length-front}

-- The first bytes of two rows are the first of the one and then of the other.
take-append_parts {ℓ} :
    {A : Type ℓ} (n : ℕ) (xs ys : List A) → take n (xs ++ ys) ≡ take n xs ++ take (n - length xs) ys
take-append_parts zero [] ys = refl
take-append_parts zero (x ∷ xs) ys =
    let e : 0 ≡ 0 - length (x ∷ xs) = omega arith in ap (λ k. take k ys) e
take-append_parts (suc n) [] ys = let e : suc n ≡ suc n - 0 = omega arith in ap (λ k. take k ys) e
take-append_parts (suc n) (x ∷ xs) ys =
    let e : suc n - length (x ∷ xs) ≡ n - length xs = omega arith in
    ap (λ t. x ∷ t) (take-append_parts n xs ys) ∙ ap (λ k. x ∷ (take n xs ++ take k ys)) (sym e)

-- The bytes of a record and of a row of records, from offset `o` of a block on.
abbrev pub record_bytes : ℕ → Bytes → Bytes
record_bytes o d = layout o (record_pieces o d)

abbrev pub record_end : ℕ → Bytes → ℕ
record_end o d = end_offset o (record_pieces o d)

unfoldable pub log_bytes : ℕ → List Bytes → Bytes
log_bytes o [] = []
log_bytes o (d ∷ ds) = record_bytes o d ++ log_bytes (record_end o d) ds

-- The records whose bytes lie within the first `n` bytes of the log.
unfoldable pub survivors : ℕ → ℕ → List Bytes → List Bytes
survivors n o [] = []
survivors n o (d ∷ ds) =
    let later = survivors (n - length (record_bytes o d)) (record_end o d) ds in
    if leb (length (record_bytes o d)) n then d ∷ later else []

-- A client that adds records until one fails.
unfoldable pub add_records : List Bytes → LogWriter → Option LogWriter
add_records [] w = some w
add_records (d ∷ ds) w = elim (add_record d w) [
  | none ↦ none
  | some (s, w') ↦ let rest = add_records ds w' in if is_ok s then rest else some w'
]

-- A client that reads records until there is no more.
unfoldable pub read_records : ℕ → LogReader → Option (List Bytes)
read_records zero r = none
read_records (suc fuel) r = elim (read_record r) [
  | none ↦ none
  | some (none, r') ↦ some []
  | some (some d, r') ↦ Option.map (λ ds. d ∷ ds) (read_records fuel r')
]

At-fuel :
    (r : LogReader) (o : ℕ) (bytes : Bytes)
    → At r o bytes
    → length bytes < length r.unread + (r.limit - r.pos) + 2
At-fuel r o bytes at = omega (
  arith,
  ap length at.ahead,
  length-append (drop r.pos r.buffer) r.unread,
  length-drop r.pos r.buffer,
  at.size,
)

-- `ReadRecord` in front of a whole record, and in front of a cut one.
read_whole :
    (o : ℕ) (d rest : Bytes) (r : LogReader)
    → o ≤ block_size
    → At r o (record_bytes o d ++ rest)
    → (r' : LogReader) × (read_record r ≡ some (some d, r')) × At r' (record_end o d) rest
unfolding read_record
read_whole o d rest r h at =
    let (pieces, fits, ends) = record_pieces-Pieces o d h in
    Pieces-read pieces _ o rest (record r { res = [] }) fits (At-res [] at) (At-fuel r o _ at)

read_cut :
    (o : ℕ) (d bytes : Bytes) (y : ℕ) (more : Bytes) (r : LogReader)
    → o ≤ block_size
    → bytes ++ (y ∷ more) ≡ record_bytes o d
    → At r o bytes
    → (r' : LogReader) × (read_record r ≡ some (none, r'))
unfolding read_record
read_cut o d bytes y more r h e at =
    let (pieces, fits, ends) = record_pieces-Pieces o d h in
    Pieces-cut pieces _ o bytes y more (record r { res = [] }) fits e (At-res [] at)
      (At-fuel r o _ at)

Pieces-take_room : {d : Bytes} {xs : List Piece} → Pieces d xs → (o : ℕ) → 0 < length (layout o xs)
Pieces-take_room (full d) o =
    let x : Piece = (full_type, d) in
    omega (arith, ap length (layout_split o x []), length-front o x (layout (next_offset o x) []))
Pieces-take_room (first c d {xs = xs} t) o =
    let x : Piece = (first_type, c) in
    omega (arith, ap length (layout_split o x xs), length-front o x (layout (next_offset o x) xs))

-- No record is written in no bytes.
pub record_bytes_pos : (o : ℕ) (d : Bytes) → o ≤ block_size → 0 < length (record_bytes o d)
record_bytes_pos o d h = Pieces-take_room (record_pieces-Pieces o d h).0 o

read_nothing :
    (o : ℕ) (r : LogReader)
    → o ≤ block_size
    → At r o []
    → (r' : LogReader) × (read_record r ≡ some (none, r'))
read_nothing o r h at =
    let (y, more, e) = cons_of (record_bytes o []) (record_bytes_pos o [] h) in
    read_cut o [] [] y more r h e at

read_records_done :
    (fuel : ℕ) (r r' : LogReader)
    → read_record r ≡ some (none, r')
    → read_records (suc fuel) r ≡ some []
unfolding read_records
read_records_done fuel r r' e = rw (e, read_records)

read_records_more :
    (fuel : ℕ) (r r' : LogReader) (d : Bytes) (ds : List Bytes)
    → read_record r ≡ some (some d, r')
    → read_records fuel r' ≡ some ds
    → read_records (suc fuel) r ≡ some (d ∷ ds)
unfolding read_records
read_records_more fuel r r' d ds e more = ground (arith, e, more)

read_records-survivors :
    (ds : List Bytes) (n o fuel : ℕ) (r : LogReader)
    → o ≤ block_size
    → At r o (take n (log_bytes o ds))
    → length (take n (log_bytes o ds)) < fuel
    → read_records fuel r ≡ some (survivors n o ds)
unfolding log_bytes survivors
read_records-survivors ds n o zero r h at f = absurd (omega arith)
read_records-survivors [] n o (suc fuel) r h at f =
    let (r', run) = read_nothing o r h (subst (At r o) (take-nil n) at) in
    read_records_done fuel r r' run
read_records-survivors (d ∷ ds) n o (suc fuel) r h at f =
    let whole = record_bytes o d in
    let e = record_end o d in
    let parts = take-append_parts n whole (log_bytes e ds) in
    elim (Bool-cases (leb (length whole) n)) [
      | inl fits ↦
          let all : take n whole ≡ whole = take_all n whole (leb→le _ _ fits) in
          let rest = take (n - length whole) (log_bytes e ds) in
          let bytes : take n (whole ++ log_bytes e ds) ≡ whole ++ rest =
            parts ∙ ap (λ l. l ++ rest) all in
          let (r', run, at') = read_whole o d rest r h (subst (At r o) bytes at) in
          let ih =
            read_records-survivors ds (n - length whole) e fuel r' (record_pieces-Pieces o d h).2
              at'
              (omega (arith, ap length bytes, length-append whole rest, record_bytes_pos o d h)) in
          read_records_more fuel r r' d _ run ih ∙ rw fits
      | inr short ↦
          let less : n < length whole = ground arith in
          let none_left : n - length whole ≡ 0 = omega arith in
          let bytes : take n (whole ++ log_bytes e ds) ≡ take n whole =
            parts
            ∙ ap (λ k. take n whole ++ take k (log_bytes e ds)) none_left
            ∙ append-nil (take n whole) in
          let (y, more, left) = cons_of (drop n whole) (omega (arith, length-drop n whole)) in
          let (r', run) =
            read_cut o d (take n whole) y more r h
              (ap (λ l. take n whole ++ l) left ∙ take-append-drop n whole)
              (subst (At r o) bytes at) in
          read_records_done fuel r r' run ∙ rw short
    ]

-- A log that is cut after any number of its bytes reads back as the records that lie wholly in what
-- is left, in order; the rest of a record that the cut has torn is dropped.
pub read_cut_log :
    (ds : List Bytes) (n : ℕ)
    → let contents = take n (log_bytes 0 ds) in
      read_records (length contents + 1) (open_reader contents) ≡ some (survivors n 0 ds)
read_cut_log ds n =
    read_records-survivors ds n 0 _ (open_reader (take n (log_bytes 0 ds))) (omega arith)
      (open_reader-At (take n (log_bytes 0 ds))) (omega arith)

pub survivors_all :
    (ds : List Bytes) (n o : ℕ) → length (log_bytes o ds) ≤ n → survivors n o ds ≡ ds
unfolding survivors log_bytes
survivors_all [] n o h = refl
survivors_all (d ∷ ds) n o h =
    let whole = record_bytes o d in
    let size = length-append whole (log_bytes (record_end o d) ds) in
    rw (le→leb (length whole) n (omega arith))
      (ap (λ l. d ∷ l) (survivors_all ds (n - length whole) (record_end o d) (omega arith)))
