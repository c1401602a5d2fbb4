-- ===== src/Log/Fields.antt =====
-- The header of a physical record, as src/db/log_reader.cc reads it back.
use mini_leveldb.Prelude.{
  ℕ, suc, ◌+◌, ◌-◌, ◌/◌, ◌%◌, ◌^◌, ◌≤◌, ◌<◌, true, ◌≡◌, refl, ap, sym, ◌∙◌, some, ◌∷◌, ◌++◌,
  append_assoc, Bytes, length, take, drop, get_or, length-append, take-append, drop-append,
  get_or-append, bit_or, bit_and, bit_and_mask, bit_or_shifted, ◌<<<◌, subst, arith,
}
use mini_leveldb.Coding.{encode_fixed32, decode_fixed32}
use mini_leveldb.Coding.Fixed.{decode-encode_fixed32}
use mini_leveldb.Crc32c.Mask.{mask_crc32c-IsU32}
use mini_leveldb.Log.Format.{block_size, header_size, RecordType, type_code, record_crc, header}
use mini_leveldb.Log.Layout.{Piece, start, piece_bytes, length-header}
use mini_leveldb.Log.Reader.{LogReader, read_ok, read_eof, type_of_code, check_record, read_header}

-- A piece that the writer makes at this offset: its type goes on disk, and it stays in its block.
pub record FitsAt (o : ℕ) (x : Piece) : Type 0 where
  pub typed : type_of_code (type_code x.0) ≡ some x.0
  pub inside : start o + (header_size + length x.1) ≤ block_size

-- The length field, written and read.
length_field : (n : ℕ) → n < 2 ^ 16 → bit_or (bit_and n 0xff) (bit_and (n / 2 ^ 8) 0xff <<< 8) ≡ n
length_field n h =
    ap (λ t. bit_or t (bit_and (n / 2 ^ 8) 0xff <<< 8)) (bit_and_mask 8 n)
    ∙ ap (λ t. bit_or (n % 2 ^ 8) (t <<< 8)) (bit_and_mask 8 (n / 2 ^ 8))
    ∙ bit_or_shifted 8 (n % 2 ^ 8) (n / 2 ^ 8 % 2 ^ 8) (omega arith)
    ∙ omega arith

-- What `ReadPhysicalRecord` finds in the bytes of a piece.
pub record Fields (type : RecordType) (payload h : Bytes) : Type 0 where
  pub len : bit_or (get_or h 4 0) (get_or h 5 0 <<< 8) ≡ length payload
  pub code : get_or h 6 0 ≡ type_code type

header-Fields :
    (type : RecordType) (payload rest : Bytes)
    → length payload < 2 ^ 16
    → Fields type payload (header type payload ++ rest)
unfolding header encode_fixed32
header-Fields type payload rest h = record { len = length_field (length payload) h; code = refl }

-- The first seven bytes decide the fields.
Fields-append :
    (type : RecordType) (payload h more : Bytes)
    → 7 ≤ length h
    → Fields type payload (h ++ more)
    → Fields type payload h
Fields-append type payload h more l f = record {
  len =
      rw (get_or-append h more 4 0 (omega arith), get_or-append h more 5 0 (omega arith)) at f.len;
  code = rw (get_or-append h more 6 0 (omega arith)) at f.code;
}

piece-crc :
    (type : RecordType) (payload rest : Bytes)
    → decode_fixed32 (header type payload ++ rest) ≡ record_crc (type_code type) payload
unfolding header record_crc
piece-crc type payload rest =
    ap decode_fixed32 (append_assoc (encode_fixed32 _) _ rest)
    ∙ decode-encode_fixed32 _ _ (mask_crc32c-IsU32 _)

-- `ReadPhysicalRecord` takes a piece that is whole in the buffer.
pub read_header_whole :
    (type : RecordType) (payload more : Bytes) (r : LogReader)
    → type_of_code (type_code type) ≡ some type
    → length payload < 2 ^ 16
    → drop r.pos r.buffer ≡ piece_bytes (type, payload) ++ more
    → r.pos + header_size + length payload ≤ r.limit
    → read_header r ≡ (
      read_ok type payload,
      record r {
        pos = r.pos + (header_size + length payload);
        valid_end = r.base + (r.pos + (header_size + length payload));
      },
    )
unfolding read_header check_record piece_bytes
read_header_whole type payload more r typed small there inside =
    let h = header type payload ++ (payload ++ more) in
    let same : drop r.pos r.buffer ≡ h = there ∙ append_assoc (header type payload) payload more in
    let fields = header-Fields type payload (payload ++ more) small in
    let body : take (length payload) (drop header_size h) ≡ payload =
      ap (take (length payload)) (
        drop-append header_size (header type payload) (payload ++ more)
          (length-header type payload))
      ∙ take-append (length payload) payload more refl in
    ground
      (arith, same, fields.len, fields.code, body, typed, piece-crc type payload (payload ++ more))

-- And it reports the end of the file on a piece that the file's end cuts.
pub read_header_cut :
    (type : RecordType) (payload : Bytes) (y : ℕ) (more : Bytes) (r : LogReader)
    → length payload < 2 ^ 16
    → drop r.pos r.buffer ++ (y ∷ more) ≡ piece_bytes (type, payload)
    → length (drop r.pos r.buffer) ≡ r.limit - r.pos
    → r.pos + header_size ≤ r.limit
    → r.eof ≡ true
    → read_header r ≡ (read_eof, r)
unfolding read_header piece_bytes
read_header_cut type payload y more r small cut size room ended =
    let h = drop r.pos r.buffer in
    let whole = header-Fields type payload payload small in
    let fields : Fields type payload h =
      Fields-append type payload h (y ∷ more) (omega arith)
        (subst (Fields type payload) (sym cut) whole) in
    let short : length h + suc (length more) ≡ 7 + length payload =
      sym (length-append h (y ∷ more))
      ∙ ap length cut
      ∙ omega (arith, length-append (header type payload) payload, length-header type payload) in
    ground (arith, fields.len, ended, short)
