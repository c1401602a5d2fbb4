-- ===== src/Log/Cut.antt =====
-- `ReadPhysicalRecord` of src/db/log_reader.cc in front of a piece that the end of the file cuts: it
-- reports the end of the file.
use mini_leveldb.Prelude.{
  ℕ, suc, ◌+◌, ◌-◌, ◌≤◌, ◌<◌, ltb, true, ◌≡◌, ap, sym, ◌∙◌, inl, inr, Bool-cases, ltb→lt, ltb→le,
  drop_all, length-eq-zero, replicate, length-replicate, lt→ltb, some, [], ◌∷◌, ◌++◌, append-nil,
  append_assoc, Bytes, length, take, drop, length-append, length-drop, append_split, subst, arith,
}
use mini_leveldb.Log.Format.{block_size, header_size}
use mini_leveldb.Log.Layout.{Piece, padding, piece_bytes, length-piece_bytes}
use mini_leveldb.Log.Reader.{LogReader, read_eof, read_physical_record}
use mini_leveldb.Log.Fields.{FitsAt, read_header_cut}
use mini_leveldb.Log.Position.{At}
use mini_leveldb.Log.Physical.{physical_here, padding_same, padding_next, next_block, turned}

-- What a call at the end of the file gives.
abbrev pub Ended : ℕ → LogReader → Type 0
Ended fuel r = (r' : LogReader) × (read_physical_record fuel r ≡ some (read_eof, r'))

physical_past :
    (fuel : ℕ) (r : LogReader)
    → r.limit < r.pos + header_size
    → r.eof ≡ true
    → read_physical_record (suc fuel) r ≡ some (read_eof, r)
unfolding read_physical_record
physical_past fuel r h ended = rw (lt→ltb r.limit (r.pos + header_size) h, ended)

cut_here :
    (fuel o : ℕ) (x : Piece) (bytes : Bytes) (y : ℕ) (more : Bytes) (r : LogReader)
    → o + (header_size + length x.1) ≤ block_size
    → bytes ++ (y ∷ more) ≡ piece_bytes x
    → At r o bytes
    → Ended (suc fuel) r
cut_here fuel o (type, payload) bytes y more r inside cut at =
    let front = drop r.pos r.buffer in
    let have = length-drop r.pos r.buffer in
    let total : length front + length r.unread ≡ length bytes =
      sym (length-append front r.unread) ∙ ap length at.ahead in
    let short : length bytes + suc (length more) ≡ 7 + length payload =
      sym (length-append bytes (y ∷ more)) ∙ ap length cut ∙ length-piece_bytes (type, payload) in
    elim at.phase [
      | inr (open_, full) ↦ absurd (omega (arith, at.size, at.offset))
      | inl (ended, none_left) ↦
          let all : front ≡ bytes =
            sym (append-nil front)
            ∙ ap (λ l. front ++ l) (sym (length-eq-zero r.unread none_left))
            ∙ at.ahead in
          elim (Bool-cases (ltb r.limit (r.pos + header_size))) [
            | inl past ↦ (r, physical_past fuel r (ltb→lt _ _ past) ended)
            | inr room ↦ (
              r,
              physical_here fuel r (ltb→le _ _ room)
                  ∙ ap some (
                      read_header_cut type payload y more r (omega (arith, at.offset))
                        (ap (λ l. l ++ (y ∷ more)) all ∙ cut) (omega (arith, at.size))
                        (ltb→le _ _ room) ended),
            )
          ]
    ]

cut_next :
    (fuel o : ℕ) (x : Piece) (bytes : Bytes) (y : ℕ) (more : Bytes) (r : LogReader)
    → header_size + length x.1 ≤ block_size
    → ltb (block_size - o) header_size ≡ true
    → bytes ++ (y ∷ more) ≡ replicate (block_size - o) 0 ++ piece_bytes x
    → At r o bytes
    → Ended (suc (suc fuel)) r
cut_next fuel o x bytes y more r inside last cut at =
    let front = drop r.pos r.buffer in
    let zeros : Bytes = replicate (block_size - o) 0 in
    let gap = length-replicate {A = ℕ} (block_size - o) 0 in
    let have = length-drop r.pos r.buffer in
    elim at.phase [
      | inl (ended, none_left) ↦ (
        r,
        physical_past (suc fuel) r (omega (arith, at.offset, at.bound, ltb→lt _ _ last)) ended,
      )
      | inr (open_, full) ↦
          let same_size : length front ≡ length zeros = omega (arith, at.size, at.offset) in
          let joined : front ++ (r.unread ++ (y ∷ more)) ≡ zeros ++ piece_bytes x =
            sym (append_assoc front r.unread (y ∷ more))
            ∙ ap (λ l. l ++ (y ∷ more)) at.ahead
            ∙ cut in
          let (same, left) = append_split front _ zeros _ joined (omega arith) in
          let nothing : drop (length zeros) front ≡ [] =
            drop_all (length zeros) front (omega arith) in
          let filled : bytes ≡ zeros ++ r.unread =
            sym at.ahead
            ∙ ap (λ l. l ++ r.unread) (same ∙ ap (λ l. zeros ++ l) nothing ∙ append-nil zeros) in
          let rest : r.unread ++ (y ∷ more) ≡ piece_bytes x =
            ap (λ l. l ++ (r.unread ++ (y ∷ more))) (sym nothing) ∙ left in
          let (_, at', go) =
            next_block (suc fuel) o r.unread r last open_ full (subst (At r o) filled at) in
          elim (Bool-cases (ltb 0 (length (take block_size r.unread)))) [
            | inr empty ↦ (turned r, go ∙ rw empty)
            | inl some_left ↦
                let (r', run) =
                  cut_here fuel 0 x r.unread y more (turned r) (omega arith) rest at' in
                (r', go ∙ rw some_left run)
          ]
    ]

-- `ReadPhysicalRecord` in front of a piece that the end of the file cuts, the zeros before it
-- included, reports the end of the file.
pub cut :
    (fuel o : ℕ) (x : Piece) (bytes : Bytes) (y : ℕ) (more : Bytes) (r : LogReader)
    → FitsAt o x
    → bytes ++ (y ∷ more) ≡ padding o ++ piece_bytes x
    → At r o bytes
    → Ended (suc (suc fuel)) r
cut fuel o x bytes y more r fits e at = elim (Bool-cases (ltb (block_size - o) header_size)) [
  | inr same_block ↦
      let (here, no_gap) = padding_same o same_block in
      cut_here (suc fuel) o x bytes y more r
        (subst (λ q. q + (header_size + length x.1) ≤ block_size) here fits.inside)
        (e ∙ ap (λ p. p ++ piece_bytes x) no_gap) at
  | inl next ↦
      let (there, gap) = padding_next o next in
      cut_next fuel o x bytes y more r (omega (arith, fits.inside)) next
        (e ∙ ap (λ p. p ++ piece_bytes x) gap) at
]
