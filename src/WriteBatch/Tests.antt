-- ===== src/WriteBatch/Tests.antt =====
-- Runs of the batch operations.
use mini_leveldb.Prelude.{
  ℕ, ◌≡◌, ◌≤◌, true, refl, none, some, Option, [], ◌∷◌, ◌++◌, Bytes, List, length, codes, arith,
}
use mini_leveldb.Coding.{
  encode_fixed32, encode_fixed64, decode_fixed32, decode_fixed64, put_length_prefixed_slice,
  get_length_prefixed_slice, put_varint32, get_varint32, encode_varint,
}
use mini_leveldb.Status.{Status, success, is_ok}
use mini_leveldb.WriteBatch.Shape.{
  Op, put_op, delete_op, ops_bytes, apply_all, batch, build-eq-batch,
}
use mini_leveldb.WriteBatch.Replay.{replay, iterate-build, iterate_outcome}
use mini_leveldb.WriteBatch.{
  WriteBatch, sign_extend, Handler, clear, put, delete, set_sequence, sequence, count, bump_count,
  iterate, parse_record,
}

abbrev seen : Handler (List (ℕ × Bytes))
seen = record { put = λ seq k v s. s ++ ((seq, k) ∷ []); delete = λ seq k s. s ++ ((seq, k) ∷ []) }

abbrev and_then : Option WriteBatch → (WriteBatch → Option WriteBatch) → Option WriteBatch
and_then none f = none
and_then (some b) f = f b

abbrev seen_in : Option WriteBatch → Option (Status × List (ℕ × Bytes))
seen_in none = none
seen_in (some b) = iterate seen (set_sequence 7 b) []

iterate_run :
    seen_in (and_then (put (codes "a") (codes "x") clear) (delete (codes "b")))
    ≡ some (success, (7, codes "a") ∷ (8, codes "b") ∷ [])
unfolding encode_fixed32 encode_fixed64 decode_fixed32 decode_fixed64 put_length_prefixed_slice
    get_length_prefixed_slice put_varint32 get_varint32 encode_varint clear put delete set_sequence
    sequence bump_count iterate parse_record
iterate_run = refl

abbrev two_ops : List Op
two_ops = put_op (codes "a") (codes "x") ∷ (delete_op (codes "b") ∷ [])

build-eq-batch_example :
    (b : WriteBatch) × (apply_all two_ops clear ≡ some b)
    × (set_sequence 7 b ≡ batch 7 2 (ops_bytes two_ops))
build-eq-batch_example = build-eq-batch two_ops 7 (omega arith) (omega arith)

iterate-build_example :
    (b : WriteBatch) × (apply_all two_ops clear ≡ some b)
    × (iterate seen (set_sequence 7 b) [] ≡ some (success, replay seen 7 two_ops []))
iterate-build_example = iterate-build seen two_ops 7 [] (omega arith) (omega arith) (omega arith)

iterate_outcome_example :
    (ops : List Op) × (st : Status) × ((s : List (ℕ × Bytes))
      → iterate seen clear s ≡ some (st, replay seen (sequence clear) ops s))
    × (length ops ≤ sign_extend (count clear))
    × (is_ok st ≡ true → length ops ≡ sign_extend (count clear))
iterate_outcome_example = iterate_outcome seen clear
