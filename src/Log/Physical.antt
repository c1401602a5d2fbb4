-- ===== src/Log/Physical.antt =====
-- `ReadPhysicalRecord` of src/db/log_reader.cc in front of a whole piece: it returns the piece.
use mini_leveldb.Prelude.{
  ℕ, suc, ◌+◌, ◌-◌, ◌≤◌, ltb, if◌then◌else◌, true, false, ◌≡◌, refl, ap, sym, ◌∙◌, inl, inr,
  Bool-cases, ltb→lt, le→ltb, drop-drop, drop_all, replicate, length-replicate, lt→ltb, some, [],
  ◌++◌, append_assoc, Bytes, length, take, drop, length-append, length-take, length-drop,
  append_split, subst, arith,
}
use mini_leveldb.Log.Format.{block_size, header_size, type_code}
use mini_leveldb.Log.Layout.{Piece, start, padding, piece_bytes, next_offset, length-piece_bytes}
use mini_leveldb.Log.Reader.{
  LogReader, read_ok, read_eof, type_of_code, read_header, read_physical_record,
}
use mini_leveldb.Log.Fields.{FitsAt, read_header_whole}
use mini_leveldb.Log.Position.{At, refilled, refilled-At, refill_lem}

-- A call that finds a header in the buffer looks no further.
pub physical_here :
    (fuel : ℕ) (r : LogReader)
    → r.pos + header_size ≤ r.limit
    → read_physical_record (suc fuel) r ≡ some (read_header r)
unfolding read_physical_record
physical_here fuel r h = rw (le→ltb r.limit (r.pos + header_size) h)

-- What a call that returns a piece leaves.
abbrev pub Returned : ℕ → LogReader → Piece → ℕ → Bytes → Type 0
Returned fuel r x o rest =
    (r' : LogReader) × (read_physical_record fuel r ≡ some (read_ok x.0 x.1, r'))
    × At r' o rest
    × (r'.res ≡ r.res)

whole_here :
    (fuel o : ℕ) (x : Piece) (rest : Bytes) (r : LogReader)
    → type_of_code (type_code x.0) ≡ some x.0
    → o + (header_size + length x.1) ≤ block_size
    → At r o (piece_bytes x ++ rest)
    → Returned (suc fuel) r x (o + (header_size + length x.1)) rest
whole_here fuel o (type, payload) rest r typed inside at =
    let p = piece_bytes (type, payload) in
    let front = drop r.pos r.buffer in
    let have = length-drop r.pos r.buffer in
    let need = length-piece_bytes (type, payload) in
    let total : length front + length r.unread ≡ length p + length rest =
      sym (length-append front r.unread) ∙ ap length at.ahead ∙ length-append p rest in
    let enough : length p ≤ length front = elim at.phase [
      | inl (ended, none_left) ↦ omega arith
      | inr (open_, full) ↦ omega (arith, at.size, at.within, at.offset)
    ] in
    let (same, left) = append_split front r.unread p rest at.ahead enough in
    let fits : r.pos + header_size + length payload ≤ r.limit = omega (arith, at.size, at.within) in
    (
      record r {
        pos = r.pos + (header_size + length payload);
        valid_end = r.base + (r.pos + (header_size + length payload));
      },
      physical_here fuel r (omega arith)
          ∙ ap some (
              read_header_whole type payload (drop (length p) front) r typed (omega arith) same
                fits),
      record {
        ahead =
            ap (λ l. l ++ r.unread)
              (sym (drop-drop (length p) r.pos r.buffer ∙ ap (λ n. drop (r.pos + n) r.buffer) need))
            ∙ left;
        size = at.size;
        within = omega arith;
        bound = at.bound;
        offset = omega (arith, at.offset);
        phase = at.phase;
      },
      refl,
    )

pub padding_same :
    (o : ℕ) → ltb (block_size - o) header_size ≡ false → (start o ≡ o) × (padding o ≡ [])
padding_same o h = (rw h, rw h)

pub padding_next :
    (o : ℕ)
    → ltb (block_size - o) header_size ≡ true
    → (start o ≡ 0) × (padding o ≡ replicate (block_size - o) 0)
padding_next o h = (rw h, rw h)

-- The reader of the next block.
abbrev pub turned : LogReader → LogReader
turned r = refilled (record r { pos = r.limit })

-- A call at the end of a block that is not the file's last goes on in the next block.
pub next_block :
    (fuel o : ℕ) (bytes : Bytes) (r : LogReader)
    → ltb (block_size - o) header_size ≡ true
    → r.eof ≡ false
    → r.limit ≡ block_size
    → At r o (replicate (block_size - o) 0 ++ bytes)
    → (r.unread ≡ bytes)
      × At (turned r) 0 bytes
      × (read_physical_record (suc fuel) r ≡ (
          if ltb 0 (length (take block_size r.unread))
          then read_physical_record fuel (turned r)
          else some (read_eof, turned r)))
unfolding read_physical_record
next_block fuel o bytes r last open_ full at =
    let front = drop r.pos r.buffer in
    let zeros : Bytes = replicate (block_size - o) 0 in
    let gap = length-replicate {A = ℕ} (block_size - o) 0 in
    let have = length-drop r.pos r.buffer in
    let all_read : length front ≡ length zeros = omega (arith, at.size, at.offset) in
    let (same, left) = append_split front r.unread zeros bytes at.ahead (omega arith) in
    let nothing : drop (length zeros) front ≡ [] = drop_all (length zeros) front (omega arith) in
    let rest : r.unread ≡ bytes = ap (λ l. l ++ r.unread) (sym nothing) ∙ left in
    let past : ltb r.limit (r.pos + header_size) ≡ true =
      lt→ltb _ _ (omega (arith, at.offset, ltb→lt _ _ last)) in
    (
      rest,
      subst (At (turned r) 0) rest (refilled-At (record r { pos = r.limit })),
      ground (arith, past, open_, refill_lem (record r { pos = r.limit }) open_),
    )

-- A piece behind the end of a block.
whole_next :
    (fuel o : ℕ) (x : Piece) (rest : Bytes) (r : LogReader)
    → type_of_code (type_code x.0) ≡ some x.0
    → header_size + length x.1 ≤ block_size
    → ltb (block_size - o) header_size ≡ true
    → At r o (replicate (block_size - o) 0 ++ (piece_bytes x ++ rest))
    → Returned (suc (suc fuel)) r x (0 + (header_size + length x.1)) rest
whole_next fuel o x rest r typed inside last at =
    let front = drop r.pos r.buffer in
    let zeros : Bytes = replicate (block_size - o) 0 in
    let bytes = piece_bytes x ++ rest in
    let gap = length-replicate {A = ℕ} (block_size - o) 0 in
    let have = length-drop r.pos r.buffer in
    let size = length-append (piece_bytes x) rest in
    let need = length-piece_bytes x in
    let total : length front + length r.unread ≡ length zeros + length bytes =
      sym (length-append front r.unread) ∙ ap length at.ahead ∙ length-append zeros bytes in
    elim at.phase [
      | inl (ended, none_left) ↦ absurd (omega (arith, at.size, at.offset, at.bound))
      | inr (open_, full) ↦
          let (same, at', go) = next_block (suc fuel) o bytes r last open_ full at in
          let more : ltb 0 (length (take block_size r.unread)) ≡ true =
            lt→ltb _ _ (omega (arith, length-take block_size r.unread, ap length same)) in
          let (r', run, after, kept) =
            whole_here fuel 0 x rest (turned r) typed (omega arith) at' in
          (r', go ∙ rw more run, after, kept)
    ]

-- `ReadPhysicalRecord` in front of a piece and the zeros before it returns the piece.
pub whole :
    (fuel o : ℕ) (x : Piece) (rest : Bytes) (r : LogReader)
    → FitsAt o x
    → At r o ((padding o ++ piece_bytes x) ++ rest)
    → Returned (suc (suc fuel)) r x (next_offset o x) rest
whole fuel o x rest r fits at = elim (Bool-cases (ltb (block_size - o) header_size)) [
  | inr same_block ↦
      let (here, no_gap) = padding_same o same_block in
      subst (λ q. Returned (suc (suc fuel)) r x (q + (header_size + length x.1)) rest) (sym here)
        (whole_here (suc fuel) o x rest r fits.typed
          (subst (λ q. q + (header_size + length x.1) ≤ block_size) here fits.inside)
          (subst (λ p. At r o ((p ++ piece_bytes x) ++ rest)) no_gap at))
  | inl next ↦
      let (there, gap) = padding_next o next in
      subst (λ q. Returned (suc (suc fuel)) r x (q + (header_size + length x.1)) rest) (sym there)
        (whole_next fuel o x rest r fits.typed (omega (arith, fits.inside)) next (
          subst (At r o) (append_assoc (replicate (block_size - o) 0) (piece_bytes x) rest)
            (subst (λ p. At r o ((p ++ piece_bytes x) ++ rest)) gap at)))
]
