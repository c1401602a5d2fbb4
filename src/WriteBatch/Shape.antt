-- ===== src/WriteBatch/Shape.antt =====
-- The bytes that the writing operations of src/db/write_batch.cc build.
use mini_leveldb.Prelude.{
  ℕ, ◌+◌, ◌-◌, ◌^◌, ◌<◌, ◌==◌, false, Option, none, some, ◌≡◌, refl, sym, ap, ap₂, ◌∙◌, List, [],
  ◌∷◌, ◌++◌, append-nil, append_assoc, Bytes, length, drop, take-append, drop-append,
  drop-append-append, All, IsU32, IsU64, u32, arith,
}
use mini_leveldb.Coding.{encode_fixed32, encode_fixed64, decode_fixed32, put_length_prefixed_slice}
use mini_leveldb.Coding.Fixed.{
  decode-encode_fixed32, decode-encode_fixed64, length-encode_fixed32, length-encode_fixed64,
}
use mini_leveldb.Coding.Varint.{prefixed, put_length_prefixed_slice-eq-append}
use mini_leveldb.WriteBatch.{
  WriteBatch, clear, count, sequence, set_sequence, overwrite, bump_count, put, delete, header_size,
}

-- One write of a batch.
pub data Op : Type 0 where
  put_op : Bytes → Bytes → Op
  delete_op : Bytes → Op

-- The lengths fit the prefixes.
abbrev pub Fits : Op → Type 0
Fits (put_op key value) = IsU32 (length key) × IsU32 (length value)
Fits (delete_op key) = IsU32 (length key)

unfoldable pub op_bytes : Op → Bytes
op_bytes (put_op key value) = 1 ∷ (prefixed key ++ prefixed value)
op_bytes (delete_op key) = 0 ∷ prefixed key

unfoldable pub ops_bytes : List Op → Bytes
ops_bytes [] = []
ops_bytes (op ∷ ops) = op_bytes op ++ ops_bytes ops

unfoldable pub apply : Op → WriteBatch → Option WriteBatch
apply (put_op key value) b = put key value b
apply (delete_op key) b = delete key b

-- The writes one after the other; `none` if one of them overflows the count.
unfoldable pub apply_all : List Op → WriteBatch → Option WriteBatch
apply_all [] b = some b
apply_all (op ∷ ops) b = elim (apply op b) [ none ↦ none | some b' ↦ apply_all ops b' ]

-- The batch with this sequence number, count and record area.
abbrev pub batch : ℕ → ℕ → Bytes → WriteBatch
batch seq n body = record { rep = encode_fixed64 seq ++ (encode_fixed32 n ++ body) }

overwrite_part :
    (at : ℕ) (a b c x : Bytes)
    → length a ≡ at
    → length x ≡ length b
    → overwrite at x (a ++ (b ++ c)) ≡ a ++ (x ++ c)
unfolding overwrite
overwrite_part at a b c x ha hx =
    ap₂ (λ s t. s ++ (x ++ t)) (take-append at a (b ++ c) ha)
      (drop-append-append at (length x) a b c ha (sym hx))

pub count-batch : (seq n : ℕ) (body : Bytes) → IsU32 n → count (batch seq n body) ≡ n
unfolding count
count-batch seq n body h =
    ap decode_fixed32 (drop-append 8 (encode_fixed64 seq) _ (length-encode_fixed64 seq))
    ∙ decode-encode_fixed32 n body h

pub sequence-batch : (seq n : ℕ) (body : Bytes) → IsU64 seq → sequence (batch seq n body) ≡ seq
unfolding sequence
sequence-batch seq n body h = decode-encode_fixed64 seq _ h

pub drop-batch : (seq n : ℕ) (body : Bytes) → drop header_size (batch seq n body).rep ≡ body
drop-batch seq n body =
    drop-append-append 8 4 (encode_fixed64 seq) (encode_fixed32 n) body (length-encode_fixed64 seq)
      (length-encode_fixed32 n)

pub set_sequence-batch :
    (s seq n : ℕ) (body : Bytes) → set_sequence seq (batch s n body) ≡ batch seq n body
unfolding set_sequence
set_sequence-batch s seq n body =
    ap (λ t. record { rep = t })
      (overwrite_part 0 [] (encode_fixed64 s) (encode_fixed32 n ++ body) (encode_fixed64 seq) refl
        (length-encode_fixed64 seq ∙ sym (length-encode_fixed64 s)))

bump_count-batch :
    (seq n : ℕ) (body : Bytes)
    → n + 1 < 2 ^ 31
    → bump_count (batch seq n body) ≡ some (batch seq (n + 1) body)
unfolding bump_count
bump_count-batch seq n body h =
    let counted = count-batch seq n body (omega arith) in
    let e : u32 (count (batch seq n body) + 1) ≡ n + 1 = omega (arith, counted) in
    let bumped : overwrite 8 (encode_fixed32 (u32 (count (batch seq n body) + 1)))
          (batch seq n body).rep
        ≡ (batch seq (n + 1) body).rep =
      ap (λ t. overwrite 8 (encode_fixed32 t) (batch seq n body).rep) e
      ∙ overwrite_part 8 (encode_fixed64 seq) (encode_fixed32 n) body (encode_fixed32 (n + 1))
          (length-encode_fixed64 seq)
          (length-encode_fixed32 (n + 1) ∙ sym (length-encode_fixed32 n)) in
    let small : (count (batch seq n body) == 2 ^ 31 - 1) ≡ false = ground (arith, counted) in
    rw small (ap (λ t. some (record { rep = t })) bumped)

apply-batch :
    (op : Op) (seq n : ℕ) (body : Bytes)
    → Fits op
    → n + 1 < 2 ^ 31
    → apply op (batch seq n body) ≡ some (batch seq (n + 1) (body ++ op_bytes op))
unfolding apply op_bytes put delete
apply-batch (put_op key value) seq n body (hk, hv) h =
    let rep = (batch seq n body).rep in
    let tagged : Bytes = rep ++ (1 ∷ []) in
    let written : put_length_prefixed_slice (put_length_prefixed_slice tagged key) value
        ≡ (batch seq n (body ++ (1 ∷ (prefixed key ++ prefixed value)))).rep =
      ap (λ t. put_length_prefixed_slice t value)
        (put_length_prefixed_slice-eq-append tagged key hk)
      ∙ put_length_prefixed_slice-eq-append (tagged ++ prefixed key) value hv
      ∙ simp append_assoc in
    ap (λ t. bump_count (record { rep = t })) written ∙ bump_count-batch seq n _ h
apply-batch (delete_op key) seq n body hk h =
    let tagged : Bytes = (batch seq n body).rep ++ (0 ∷ []) in
    let written : put_length_prefixed_slice tagged key
        ≡ (batch seq n (body ++ (0 ∷ prefixed key))).rep =
      put_length_prefixed_slice-eq-append tagged key hk ∙ simp append_assoc in
    ap (λ t. bump_count (record { rep = t })) written ∙ bump_count-batch seq n _ h

apply_all_step :
    (op : Op) (ops : List Op) (b : WriteBatch) {b' : WriteBatch}
    → apply op b ≡ some b'
    → apply_all (op ∷ ops) b ≡ apply_all ops b'
unfolding apply_all
apply_all_step op ops b run = ground (arith, run)

apply_all-batch :
    (ops : List Op) (seq n : ℕ) (body : Bytes)
    → All Fits ops
    → n + length ops < 2 ^ 31
    → apply_all ops (batch seq n body) ≡ some (batch seq (n + length ops) (body ++ ops_bytes ops))
unfolding apply_all ops_bytes
apply_all-batch [] seq n body f h = ap some (ap₂ (batch seq) (omega arith) (sym (append-nil body)))
apply_all-batch (op ∷ ops) seq n body (f, fs) h =
    let rest : apply_all ops (batch seq (n + 1) (body ++ op_bytes op))
        ≡ some (batch seq (n + length (op ∷ ops)) (body ++ ops_bytes (op ∷ ops))) =
      apply_all-batch ops seq (n + 1) (body ++ op_bytes op) fs (omega arith)
      ∙ ap some (ap₂ (batch seq) (omega arith) (append_assoc body (op_bytes op) (ops_bytes ops))) in
    apply_all_step op ops (batch seq n body) (apply-batch op seq n body f (omega arith)) ∙ rest

clear-batch : clear ≡ batch 0 0 []
unfolding clear encode_fixed32 encode_fixed64
clear-batch = refl

pub apply-clear : (op : Op) → Fits op → apply op clear ≡ some (batch 0 1 (ops_bytes (op ∷ [])))
unfolding ops_bytes
apply-clear op f =
    ap (apply op) clear-batch
    ∙ apply-batch op 0 0 [] f (omega arith)
    ∙ ap (λ t. some (batch 0 1 t)) (sym (append-nil (op_bytes op)))

pub apply_all-clear :
    (ops : List Op)
    → All Fits ops
    → length ops < 2 ^ 31
    → apply_all ops clear ≡ some (batch 0 (length ops) (ops_bytes ops))
apply_all-clear ops f h =
    ap (apply_all ops) clear-batch
    ∙ apply_all-batch ops 0 0 [] f (omega arith)
    ∙ ap (λ n. some (batch 0 n (ops_bytes ops))) (omega arith)

-- A batch that starts empty takes fewer than 2^31 writes, whose keys and values are shorter than
-- 2^32 bytes, without an overflow of its count; it holds the sequence number that is set last, the
-- number of writes, and the encodings of the writes in order.
pub build-eq-batch :
    (ops : List Op) (seq : ℕ)
    → All Fits ops
    → length ops < 2 ^ 31
    → (b : WriteBatch) × (apply_all ops clear ≡ some b)
      × (set_sequence seq b ≡ batch seq (length ops) (ops_bytes ops))
build-eq-batch ops seq f h = (_, apply_all-clear ops f h, set_sequence-batch 0 seq _ _)
