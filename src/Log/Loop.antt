-- ===== src/Log/Loop.antt =====
-- The loop of `AddRecord` in src/db/log_writer.cc sends the layout of the pieces that it writes.
use mini_leveldb.Prelude.{
  ℕ, zero, suc, ◌+◌, ◌-◌, ◌≤◌, ◌<◌, min, ltb, ◌==◌, if◌then◌else◌, Bool, true, false, ◌&&◌,
  Bool-cases, ltb→lt, inl, inr, ◌≡◌, ap, sym, ◌∙◌, some, List, [], ◌++◌, append-nil, append_assoc,
  Bytes, length, take, drop, length-take, length-drop, arith,
}
use mathlib.Core.Path.{subst}
use mini_leveldb.Status.{Status, is_ok}
use mini_leveldb.Log.Format.{block_size, header_size}
use mini_leveldb.Log.Writer.{
  LogWriter, fill_block, emit_physical_record, piece_type, add_record_loop,
}
use mini_leveldb.Log.Layout.{
  Piece, start, padding, piece_bytes, next_offset, layout, end_offset, split, rounds,
}
use mini_leveldb.Log.Sent.{
  Sent, fill_block-Sent, emit_physical_record-Sent, Sent-append, Sent-stopped,
}

abbrev Written : ℕ → Bytes → ℕ → LogWriter → Status × LogWriter → Type 0
Written q payload fuel w r =
    Sent (layout q (split fuel q payload false)) (end_offset q (split fuel q payload false)) w r

-- What a call of the loop does.
abbrev pub Wrote : ℕ → Bytes → Bool → LogWriter → Type 0
Wrote fuel payload begin w =
    let pieces = split fuel w.block_offset payload begin in
    (r : Status × LogWriter) × (add_record_loop fuel payload begin w ≡ some r)
    × Sent (layout w.block_offset pieces) (end_offset w.block_offset pieces) w r

-- How much of the payload goes into the next piece, in a block that is filled up to `q`.
abbrev taken : ℕ → Bytes → ℕ
taken q payload = min (length payload) (block_size - q - header_size)

abbrev piece_at : ℕ → Bytes → Bool → Piece
piece_at q payload begin =
    (piece_type begin (taken q payload == length payload), take (taken q payload) payload)

abbrev emit_at : Bytes → Bool → LogWriter → Status × LogWriter
emit_at payload begin w =
    let (type, bytes) = piece_at w.block_offset payload begin in emit_physical_record type bytes w

module _ (fuel : ℕ) (payload : Bytes) (begin : Bool) (w : LogWriter) where
  abbrev filled_writer : LogWriter
  filled_writer = (fill_block w).1

  abbrev emitted : Status × LogWriter
  emitted = emit_at payload begin filled_writer

  abbrev left : Bytes
  left = drop (taken filled_writer.block_offset payload) payload

  step_unfilled :
      is_ok (fill_block w).0 ≡ false
      → add_record_loop (suc fuel) payload begin w ≡ some (fill_block w)
  unfolding add_record_loop
  step_unfilled h = ground arith

  step_last :
      is_ok (fill_block w).0 ≡ true
      → (is_ok emitted.0 && ltb 0 (length left)) ≡ false
      → add_record_loop (suc fuel) payload begin w ≡ some emitted
  unfolding add_record_loop
  step_last h e = ground arith

  step_more :
      is_ok (fill_block w).0 ≡ true
      → (is_ok emitted.0 && ltb 0 (length left)) ≡ true
      → add_record_loop (suc fuel) payload begin w ≡ add_record_loop fuel left false emitted.1
  unfolding add_record_loop
  step_more h e = ground arith

-- The padding and the piece of one round.
round-Sent :
    (payload : Bytes) (begin : Bool) (w : LogWriter)
    → w.block_offset ≤ block_size
    → is_ok (fill_block w).0 ≡ true
    → let x = piece_at (start w.block_offset) payload begin in
      Sent
        (padding w.block_offset ++ piece_bytes x)
        (next_offset w.block_offset x)
        w
        (emit_at payload begin (fill_block w).1)
round-Sent payload begin w h filled =
    let pad = fill_block-Sent w h in
    let w1 = (fill_block w).1 in
    let r = emit_at payload begin w1 in
    let (type, bytes) = piece_at w1.block_offset payload begin in
    Sent-append (padding w.block_offset) _ (start w.block_offset) _ w (fill_block w) r pad filled (
      subst
        (λ q.
          Sent (piece_bytes (piece_at q payload begin))
            (q + (header_size + length (take (taken q payload) payload))) w1 r)
        (pad.1 filled) (emit_physical_record-Sent type bytes w1))

-- The bounds of the next round: the block is not overfull, and a round of fuel is used.
next_round :
    (fuel : ℕ) (payload : Bytes) (begin : Bool) (o : ℕ)
    → o ≤ block_size
    → rounds o payload < suc fuel
    → 0 < length (drop (taken (start o) payload) payload)
    → (next_offset o (piece_at (start o) payload begin) ≤ block_size)
      × (rounds
            (next_offset o (piece_at (start o) payload begin))
            (drop (taken (start o) payload) payload)
          < fuel)
next_round fuel payload begin o h m some_left =
    let n = taken (start o) payload in
    (
      ground (arith, length-take n payload),
      ground (arith, length-take n payload, length-drop n payload),
    )

pub add_record_loop-Wrote :
    (fuel : ℕ) (payload : Bytes) (begin : Bool) (w : LogWriter)
    → w.block_offset ≤ block_size
    → rounds w.block_offset payload < fuel
    → Wrote fuel payload begin w
unfolding split layout end_offset
add_record_loop-Wrote zero payload begin w h m = absurd (omega arith)
add_record_loop-Wrote (suc fuel) payload begin w h m = elim (Bool-cases (is_ok (fill_block w).0)) [
  | inr failed ↦ (
    fill_block w,
    step_unfilled fuel payload begin w failed,
    subst (λ t. Sent t (end_offset o (split (suc fuel) o payload begin)) w (fill_block w))
        (sym (append_assoc (padding o) (piece_bytes x) _))
        (Sent-stopped (padding o) _ (start o) _ w (fill_block w) (fill_block-Sent w h) failed),
  )
  | inl filled ↦
      let round = round-Sent payload begin w h filled in
      let same_left : left fuel payload begin w ≡ unwritten =
        ap (λ q. drop (taken q payload) payload) ((fill_block-Sent w h).1 filled) in
      elim (Bool-cases (is_ok r.0)) [
        | inr failed ↦ (
          r,
          step_last fuel payload begin w filled (ground arith),
          Sent-stopped front _ next _ w r round failed,
        )
        | inl done ↦ elim (Bool-cases (ltb 0 (length (left fuel payload begin w)))) [
          | inr empty ↦
              let last : rest ≡ [] =
                ap (λ b. if b then split fuel next unwritten false else [])
                  (ap (λ l. ltb 0 (length l)) (sym same_left) ∙ empty) in
              (
                r,
                step_last fuel payload begin w filled (ground arith),
                subst (λ l. Sent (front ++ layout next l) (end_offset next l) w r) (sym last)
                    (subst (λ t. Sent t next w r) (sym (append-nil front)) round),
              )
          | inl more ↦
              let some_left : ltb 0 (length unwritten) ≡ true =
                ap (λ l. ltb 0 (length l)) (sym same_left) ∙ more in
              let bounds = next_round fuel payload begin o h m (ltb→lt _ _ some_left) in
              let ih =
                add_record_loop-Wrote fuel (left fuel payload begin w) false r.1
                  (rw (round.1 done) bounds.0) (rw (round.1 done, same_left) bounds.1) in
              let written : Sent (layout next rest) (end_offset next rest) r.1 ih.0 =
                subst (λ l. Sent (layout next l) (end_offset next l) r.1 ih.0)
                  (sym (ap (λ b. if b then split fuel next unwritten false else []) some_left))
                  (subst (λ d. Written next d fuel r.1 ih.0) same_left
                    (subst (λ q. Written q (left fuel payload begin w) fuel r.1 ih.0) (round.1 done)
                      ih.2)) in
              (
                ih.0,
                step_more fuel payload begin w filled (ground arith) ∙ ih.1,
                Sent-append front (layout next rest) next _ w r ih.0 round done written,
              )
        ]
      ]
]
  where
    o : ℕ
    o = w.block_offset

    x : Piece
    x = piece_at (start w.block_offset) payload begin

    r : Status × LogWriter
    r = emit_at payload begin (fill_block w).1

    front : Bytes
    front = padding w.block_offset ++ piece_bytes (piece_at (start w.block_offset) payload begin)

    next : ℕ
    next = next_offset w.block_offset (piece_at (start w.block_offset) payload begin)

    unwritten : Bytes
    unwritten = drop (taken (start w.block_offset) payload) payload

    rest : List Piece
    rest = if ltb 0 (length unwritten) then split fuel next unwritten false else []
