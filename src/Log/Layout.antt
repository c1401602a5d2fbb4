-- ===== src/Log/Layout.antt =====
-- What a run of physical records looks like on disk: the specification that the writer and the
-- reader of the log meet.
use mini_leveldb.Prelude.{
  Bool-cases, inl, inr, ℕ, zero, suc, ◌+◌, ◌-◌, min, ltb, ◌==◌, if◌then◌else◌, Bool, true, false,
  ◌≡◌, ap, ◌∙◌, List, [], ◌∷◌, ◌++◌, Bytes, length, take, drop, replicate, length-append,
  length-replicate, arith,
}
use mini_leveldb.Coding.{encode_fixed32}
use mini_leveldb.Coding.Fixed.{length-encode_fixed32}
use mini_leveldb.Log.Format.{block_size, header_size, RecordType, type_code, record_crc, header}
use mini_leveldb.Log.Writer.{piece_type}

-- A physical record: its type and its payload.
abbrev pub Piece : Type 0
Piece = RecordType × Bytes

-- Where the record after offset `o` begins, and the zeros in between.
abbrev pub start : ℕ → ℕ
start o = if ltb (block_size - o) header_size then 0 else o

abbrev pub padding : ℕ → Bytes
padding o = if ltb (block_size - o) header_size then replicate (block_size - o) 0 else []

unfoldable pub piece_bytes : Piece → Bytes
piece_bytes (type, payload) = header type payload ++ payload

abbrev pub next_offset : ℕ → Piece → ℕ
next_offset o (type, payload) = start o + (header_size + length payload)

unfoldable pub layout : ℕ → List Piece → Bytes
layout o [] = []
layout o (x ∷ xs) = (padding o ++ piece_bytes x) ++ layout (next_offset o x) xs

unfoldable pub end_offset : ℕ → List Piece → ℕ
end_offset o [] = o
end_offset o (x ∷ xs) = end_offset (next_offset o x) xs

-- The pieces of a record that is written at offset `o`.
unfoldable pub split : ℕ → ℕ → Bytes → Bool → List Piece
split zero o payload begin = []
split (suc fuel) o payload begin =
    let n = min (length payload) (block_size - start o - header_size) in
    let x : Piece = (piece_type begin (n == length payload), take n payload) in
    let rest = split fuel (next_offset o x) (drop n payload) false in
    x ∷ (if ltb 0 (length (drop n payload)) then rest else [])

-- The pieces that `AddRecord` makes of a record.
unfoldable pub record_pieces : ℕ → Bytes → List Piece
record_pieces o payload = split (length payload + 2) o payload true

-- How many rounds are left: one more where a header just fits and the first piece is empty.
abbrev pub rounds : ℕ → Bytes → ℕ
rounds o payload = length payload + (if block_size - start o == header_size then 1 else 0)

pub length-header : (type : RecordType) (payload : Bytes) → length (header type payload) ≡ 7
unfolding header
length-header type payload =
    let crc = record_crc (type_code type) payload in
    length-append (encode_fixed32 crc) _ ∙ ap (λ n. n + 3) (length-encode_fixed32 crc)

pub length-piece_bytes : (x : Piece) → length (piece_bytes x) ≡ 7 + length x.1
unfolding piece_bytes
length-piece_bytes (type, payload) =
    omega (arith, length-append (header type payload) payload, length-header type payload)

pub length-padding :
    (o : ℕ) → length (padding o) ≡ (if ltb (block_size - o) header_size then block_size - o else 0)
length-padding o = elim (Bool-cases (ltb (block_size - o) header_size)) [
  | inl e ↦ rw e (length-replicate (block_size - o) 0)
  | inr e ↦ rw e
]
