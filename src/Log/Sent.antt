-- ===== src/Log/Sent.antt =====
-- What one call of `fwrite`, of the padding and of `EmitPhysicalRecord` in src/db/log_writer.cc sends
-- to the stream.
use mini_leveldb.Prelude.{
  ℕ, ◌+◌, ◌-◌, ◌≤◌, ltb, ◌==◌, Bool, Bool-cases, inl, inr, true, false, ◌≡◌, refl, subst, ap, sym,
  ◌∙◌, [], ◌∷◌, ◌++◌, append-nil, Bytes, length, replicate, length-replicate, arith,
}
use mini_leveldb.Status.{Status, is_ok}
use mini_leveldb.Stdio.{File, fwrite, fwrite-Sent, Sent-nil}
use mini_leveldb.Stdio
use mini_leveldb.Log.Format.{block_size, header_size, RecordType, header}
use mini_leveldb.Log.Writer.{LogWriter, fill_block, emit_physical_record}
use mini_leveldb.Log.Layout.{start, padding, piece_bytes, length-header}

-- What a write of `bytes` leaves: the stream has been sent them, and behind a success the offset in
-- the block is this one.
abbrev pub Sent : Bytes → ℕ → LogWriter → Status × LogWriter → Type 0
Sent bytes offset w (s, w') =
    Stdio.Sent bytes w.file (is_ok s) w'.file × (is_ok s ≡ true → w'.block_offset ≡ offset)

-- The same writes, told in other words.
Sent-as :
    {a a' : Bytes} {f f1 f2 : File} {d d' : Bool}
    → Stdio.Sent a f d f1
    → a ≡ a'
    → d ≡ d'
    → f1 ≡ f2
    → Stdio.Sent a' f d' f2
Sent-as {a} {a'} {f} {f1} {f2} {d} {d'} s bytes ok file =
    subst (λ x. Stdio.Sent x f d' f2) bytes
      (subst (λ x. Stdio.Sent a f x f2) ok (subst (λ x. Stdio.Sent a f d x) file s))

pub fill_block-Sent :
    (w : LogWriter)
    → w.block_offset ≤ block_size
    → Sent (padding w.block_offset) (start w.block_offset) w (fill_block w)
unfolding fill_block
fill_block-Sent w h =
    let leftover = block_size - w.block_offset in
    let gap : Bytes = replicate leftover 0 in
    let long : length gap ≡ leftover = length-replicate leftover 0 in
    elim (Bool-cases (ltb leftover header_size)) [
      | inr far ↦ (
        Sent-as (Sent-nil w.file) (ground (arith, far)) (ground (arith, far)) (ground (arith, far)),
        λ done. ground (arith, far),
      )
      | inl near ↦ elim (Bool-cases (ltb 0 leftover)) [
        | inr full ↦
            let none_left : leftover ≡ 0 = ground (arith, full) in
            let empty : [] ≡ gap = ap (λ n. replicate n 0) (sym none_left) in
            (
              Sent-as (Sent-nil w.file) (empty ∙ ground (arith, near)) (ground (arith, near, full))
                  (ground (arith, near, full)),
              λ done. ground (arith, near, full),
            )
        | inl gap_left ↦ (
          Sent-as (fwrite-Sent gap w.file) (ground (arith, near))
              (ap (λ n. (fwrite gap w.file).0 == n) long ∙ ground (arith, near, gap_left))
              (ground (arith, near, gap_left)),
          λ done. ground (arith, near, gap_left, done),
        )
      ]
    ]

pub emit_physical_record-Sent :
    (type : RecordType) (payload : Bytes) (w : LogWriter)
    → Sent
        (piece_bytes (type, payload))
        (w.block_offset + (header_size + length payload))
        w
        (emit_physical_record type payload w)
unfolding emit_physical_record piece_bytes
emit_physical_record-Sent type [] w =
    let head = header type [] in
    let long : (fwrite head w.file).0 == length head ≡ (fwrite head w.file).0 == header_size =
      ap (λ n. (fwrite head w.file).0 == n) (length-header type []) in
    (
      Sent-as (fwrite-Sent head w.file) (sym (append-nil head)) (long ∙ ground arith)
          (ground arith),
      λ done. ground (arith, done),
    )
emit_physical_record-Sent type (b ∷ p) w =
    let head = header type (b ∷ p) in
    let (wrote, file) = fwrite head w.file in
    let (wrote', file') = fwrite (b ∷ p) file in
    let s = fwrite-Sent head w.file in
    let t = fwrite-Sent (b ∷ p) file in
    let long : wrote == length head ≡ wrote == header_size =
      ap (λ n. wrote == n) (length-header type (b ∷ p)) in
    elim (Bool-cases (wrote == header_size)) [
      | inr short ↦ (
        Sent-as
            (Stdio.Sent-stopped head (b ∷ p) w.file file (wrote == length head) s (long ∙ short))
            refl (ground (arith, short)) (ground (arith, short)),
        λ done. ground (arith, short, done),
      )
      | inl whole ↦ (
        Sent-as
            (Stdio.Sent-append head (b ∷ p) w.file file file' (wrote == length head)
              (wrote' == length (b ∷ p)) s (long ∙ whole) t)
            refl (ground (arith, whole)) (ground (arith, whole)),
        λ done. ground (arith, whole, done),
      )
    ]

-- A second write after one that went well, and after one that did not.
pub Sent-append :
    (a b : Bytes) (o o' : ℕ) (w : LogWriter) (r r' : Status × LogWriter)
    → Sent a o w r
    → is_ok r.0 ≡ true
    → Sent b o' r.1 r'
    → Sent (a ++ b) o' w r'
Sent-append a b o o' w r r' (sent, at) done (sent', at') =
    (Stdio.Sent-append a b w.file r.1.file r'.1.file (is_ok r.0) (is_ok r'.0) sent done sent', at')

pub Sent-stopped :
    (a b : Bytes) (o o' : ℕ) (w : LogWriter) (r : Status × LogWriter)
    → Sent a o w r
    → is_ok r.0 ≡ false
    → Sent (a ++ b) o' w r
Sent-stopped a b o o' w r (sent, at) failed = (
  subst (λ d. Stdio.Sent (a ++ b) w.file d r.1.file) (sym failed)
      (Stdio.Sent-stopped a b w.file r.1.file (is_ok r.0) sent failed),
  λ done. absurd cc,
)
