-- ===== src/WriteBatch/Replay.antt =====
-- `Iterate` of src/db/write_batch.cc: it replays what was written, and on any bytes it ends and
-- hands over no more records than the header counts.
use mini_leveldb.Prelude.{
  ℕ, zero, suc, ◌+◌, ◌^◌, ◌≤◌, ◌<◌, ◌≡◌, refl, sym, ap, ap₂, ◌∙◌, List, [], ◌∷◌, ◌++◌, append_assoc,
  Bytes, length, drop, length-append, All, IsU32, IsU64, u64, arith, some, true, codes,
}
use mini_leveldb.Coding.{get_length_prefixed_slice}
use mini_leveldb.Coding.Varint.{
  prefixed, put_length_prefixed_slice-eq-append, get-put_length_prefixed_slice,
  get_length_prefixed_slice_shorter,
}
use native.Mathlib.Nat.{le_refl}
use mini_leveldb.Status.{Status, success, corruption_status, is_ok}
use mini_leveldb.WriteBatch.{
  WriteBatch, Handler, Parsed, put_record, delete_record, bad, clear, count, sequence, set_sequence,
  parse_record, iterate_loop, iterate, sign_extend, header_size,
}
use mini_leveldb.WriteBatch.Shape.{
  Op, put_op, delete_op, Fits, op_bytes, ops_bytes, apply_all, batch, build-eq-batch, count-batch,
  sequence-batch, drop-batch,
}

get-prefixed :
    (value rest : Bytes)
    → IsU32 (length value)
    → get_length_prefixed_slice (prefixed value ++ rest) ≡ (some value, rest)
get-prefixed value rest h =
    ap (λ t. get_length_prefixed_slice (t ++ rest))
      (sym (put_length_prefixed_slice-eq-append [] value h))
    ∙ get-put_length_prefixed_slice value rest h

-- The record that follows a tag.
parse-put :
    (key value rest : Bytes)
    → IsU32 (length key)
    → IsU32 (length value)
    → parse_record 1 ((prefixed key ++ prefixed value) ++ rest) ≡ put_record key value rest
unfolding parse_record
parse-put key value rest hk hv = rw (
  append_assoc (prefixed key) (prefixed value) rest,
  get-prefixed key (prefixed value ++ rest) hk,
  get-prefixed value rest hv,
)

parse-delete :
    (key rest : Bytes)
    → IsU32 (length key)
    → parse_record 0 (prefixed key ++ rest) ≡ delete_record key rest
unfolding parse_record
parse-delete key rest hk = rw (get-prefixed key rest hk)

ops_bytes_shorter :
    (op : Op) (ops : List Op) → length (ops_bytes ops) < length (ops_bytes (op ∷ ops))
unfolding ops_bytes op_bytes
ops_bytes_shorter (put_op key value) ops =
    omega (arith, length-append (prefixed key ++ prefixed value) (ops_bytes ops))
ops_bytes_shorter (delete_op key) ops = omega (arith, length-append (prefixed key) (ops_bytes ops))

parse_record_shorter :
    (tag : ℕ) (input key value rest : Bytes)
    → (parse_record tag input ≡ put_record key value rest → length rest ≤ length input)
      × (parse_record tag input ≡ delete_record key rest → length rest ≤ length input)
unfolding parse_record
parse_record_shorter tag input key value rest =
    let front = get_length_prefixed_slice_shorter input in
    let back = get_length_prefixed_slice_shorter (get_length_prefixed_slice input).1 in
    (λ e. ground (arith, front.0, back.0), λ e. ground (arith, front.0))

module _ {ℓ} {S : Type ℓ} (h : Handler S) where
  unfoldable pub handle : ℕ → Op → S → S
  handle seq (put_op key value) s = h.put seq key value s
  handle seq (delete_op key) s = h.delete seq key s

  -- The writes in order, numbered from `seq` on.
  unfoldable pub replay : ℕ → List Op → S → S
  replay seq [] s = s
  replay seq (op ∷ ops) s = replay (u64 (seq + 1)) ops (handle seq op s)

  step_put :
      (fuel tag : ℕ) (input : Bytes) (seq n : ℕ) (s : S) (key value rest : Bytes)
      → parse_record tag input ≡ put_record key value rest
      → iterate_loop h (suc fuel) (tag ∷ input) seq (suc n) s
        ≡ iterate_loop h fuel rest (u64 (seq + 1)) n (h.put seq key value s)
  unfolding iterate_loop
  step_put fuel tag input seq n s key value rest e = ground (arith, e)

  step_delete :
      (fuel tag : ℕ) (input : Bytes) (seq n : ℕ) (s : S) (key rest : Bytes)
      → parse_record tag input ≡ delete_record key rest
      → iterate_loop h (suc fuel) (tag ∷ input) seq (suc n) s
        ≡ iterate_loop h fuel rest (u64 (seq + 1)) n (h.delete seq key s)
  unfolding iterate_loop
  step_delete fuel tag input seq n s key rest e = ground (arith, e)

  iterate_loop-ops :
      (ops : List Op) (fuel seq : ℕ) (s : S)
      → All Fits ops
      → length (ops_bytes ops) < fuel
      → iterate_loop h fuel (ops_bytes ops) seq (length ops) s ≡ some (success, replay seq ops s)
  unfolding ops_bytes op_bytes handle replay
  iterate_loop-ops ops zero seq s f l = absurd (omega arith)
  iterate_loop-ops [] (suc fuel) seq s f l = unfold iterate_loop in refl
  iterate_loop-ops (put_op key value ∷ ops) (suc fuel) seq s ((hk, hv), fs) l =
      step_put fuel 1 ((prefixed key ++ prefixed value) ++ ops_bytes ops) seq (length ops) s key
        value (ops_bytes ops) (parse-put key value (ops_bytes ops) hk hv)
      ∙ iterate_loop-ops ops fuel (u64 (seq + 1)) (h.put seq key value s) fs
          (omega (arith, ops_bytes_shorter (put_op key value) ops))
  iterate_loop-ops (delete_op key ∷ ops) (suc fuel) seq s (hk, fs) l =
      step_delete fuel 0 (prefixed key ++ ops_bytes ops) seq (length ops) s key (ops_bytes ops)
        (parse-delete key (ops_bytes ops) hk)
      ∙ iterate_loop-ops ops fuel (u64 (seq + 1)) (h.delete seq key s) fs
          (omega (arith, ops_bytes_shorter (delete_op key) ops))

  pub iterate-batch :
      (ops : List Op) (seq : ℕ) (s : S)
      → All Fits ops
      → length ops < 2 ^ 31
      → IsU64 seq
      → iterate h (batch seq (length ops) (ops_bytes ops)) s ≡ some (success, replay seq ops s)
  unfolding iterate
  iterate-batch ops seq s f n hs =
      let b = batch seq (length ops) (ops_bytes ops) in
      let extended : sign_extend (count b) ≡ length ops =
        ground (arith, count-batch seq (length ops) (ops_bytes ops) (omega arith)) in
      ap₂ (λ t c. iterate_loop h (suc (length t)) t (sequence b) c s)
        (drop-batch seq (length ops) (ops_bytes ops)) extended
      ∙ ap (λ q. iterate_loop h (suc (length (ops_bytes ops))) (ops_bytes ops) q (length ops) s)
          (sequence-batch seq (length ops) (ops_bytes ops) hs)
      ∙ iterate_loop-ops ops _ seq s f (le_refl _)

  -- An empty batch takes the writes, and `Iterate` hands them to the handler in order, numbered from
  -- the sequence number that was set, and succeeds: for fewer than 2^31 writes with keys and values
  -- shorter than 2^32 bytes, and a sequence number of 64 bits.
  pub iterate-build :
      (ops : List Op) (seq : ℕ) (s : S)
      → All Fits ops
      → length ops < 2 ^ 31
      → IsU64 seq
      → (b : WriteBatch) × (apply_all ops clear ≡ some b)
        × (iterate h (set_sequence seq b) s ≡ some (success, replay seq ops s))
  iterate-build ops seq s f n hs =
      let (b, built, same) = build-eq-batch ops seq f n in
      (b, built, ap (λ t. iterate h t s) same ∙ iterate-batch ops seq s f n hs)

  -- What a run of the loop amounts to.
  abbrev Outcome : ℕ → Bytes → ℕ → ℕ → Type ℓ
  Outcome fuel input seq remaining =
      (ops : List Op) × (st : Status) × ((s : S)
        → iterate_loop h fuel input seq remaining s ≡ some (st, replay seq ops s))
      × (length ops ≤ remaining)
      × (is_ok st ≡ true → length ops ≡ remaining)

  Outcome-of_record :
      (fuel tag : ℕ) (input : Bytes) (seq n : ℕ)
      → ((rest : Bytes) → length rest ≤ length input → Outcome fuel rest (u64 (seq + 1)) n)
      → (p : Parsed) → parse_record tag input ≡ p
      → Outcome (suc fuel) (tag ∷ input) seq (suc n)
  unfolding replay handle
  Outcome-of_record fuel tag input seq n ih (put_record key value rest) e =
      let (ops, st, run, few, all) =
        ih rest ((parse_record_shorter tag input key value rest).0 e) in
      (
        put_op key value ∷ ops,
        st,
        λ s. step_put fuel tag input seq n s key value rest e ∙ run (h.put seq key value s),
        omega arith,
        λ k. ap suc (all k),
      )
  Outcome-of_record fuel tag input seq n ih (delete_record key rest) e =
      let (ops, st, run, few, all) = ih rest ((parse_record_shorter tag input key [] rest).1 e) in
      (
        delete_op key ∷ ops,
        st,
        λ s. step_delete fuel tag input seq n s key rest e ∙ run (h.delete seq key s),
        omega arith,
        λ k. ap suc (all k),
      )
  Outcome-of_record fuel tag input seq n ih (bad message) e = (
    [],
    corruption_status message,
    λ s. unfold iterate_loop in ground (arith, e),
    omega arith,
    λ k. cc,
  )

  iterate_loop-Outcome :
      (fuel : ℕ) (input : Bytes) (seq remaining : ℕ)
      → length input < fuel
      → Outcome fuel input seq remaining
  unfolding iterate_loop replay
  iterate_loop-Outcome zero input seq remaining l = absurd (omega arith)
  iterate_loop-Outcome (suc fuel) [] seq zero l = ([], success, λ s. refl, omega arith, λ k. refl)
  iterate_loop-Outcome (suc fuel) [] seq (suc n) l = (
    [],
    corruption_status (codes "WriteBatch has wrong count"),
    λ s. ground arith,
    omega arith,
    λ k. cc,
  )
  iterate_loop-Outcome (suc fuel) (tag ∷ input) seq zero l = (
    [],
    corruption_status (codes "WriteBatch has too many records"),
    λ s. refl,
    omega arith,
    λ k. cc,
  )
  iterate_loop-Outcome (suc fuel) (tag ∷ input) seq (suc n) l =
      Outcome-of_record fuel tag input seq n
        (λ rest short. iterate_loop-Outcome fuel rest (u64 (seq + 1)) n (omega arith))
        (parse_record tag input) refl

  -- On any bytes `Iterate` ends, with a status that does not depend on the handler's state. It has
  -- then handed over some writes in order, numbered from the header's sequence number: no more than
  -- the header's count, and exactly that many if it reports success.
  pub iterate_outcome :
      (b : WriteBatch)
      → (ops : List Op) × (st : Status) × ((s : S)
          → iterate h b s ≡ some (st, replay (sequence b) ops s))
        × (length ops ≤ sign_extend (count b))
        × (is_ok st ≡ true → length ops ≡ sign_extend (count b))
  unfolding iterate
  iterate_outcome b = iterate_loop-Outcome _ (drop header_size b.rep) (sequence b) _ (le_refl _)
