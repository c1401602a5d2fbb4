-- ===== src/Table/Footers.antt =====
-- Block handles and the footer of src/table/format.cc: what is encoded is decoded.
use mini_leveldb.Prelude.{
  ℕ, ◌+◌, ◌-◌, ◌*◌, ◌≤◌, ◌<◌, ltb, false, ◌≡◌, refl, ap, sym, ◌∙◌, some, none, [], ◌++◌,
  append_assoc, append-nil, subst, inl, inr, Bool-cases, ltb→lt, ltb→le, length-eq-zero, Bytes,
  length, drop, replicate, length-append, length-replicate, take_all, drop-append, IsU64, u32,
  ◌>>>◌, bit_and, arith,
}
use mini_leveldb.Coding.{encode_varint, put_varint64, get_varint64, encode_fixed32, decode_fixed64}
use mini_leveldb.Coding.Varint.{encode_varint_bounds, get_varint64-encode}
use mini_leveldb.Status.{success}
use mini_leveldb.Table.Format.{
  BlockHandle, Footer, encode_handle, decode_handle, encode_footer, decode_footer, resize,
  max_encoded_length, encoded_length, table_magic_number, checked_remove_prefix,
}

-- What `BlockHandle::EncodeTo` appends.
abbrev pub handle_bytes : BlockHandle → Bytes
handle_bytes h = encode_varint h.offset ++ encode_varint h.size

-- The members of a handle are `uint64_t`.
pub record IsHandle (h : BlockHandle) : Type 0 where
  pub offset_fits : IsU64 h.offset
  pub size_fits : IsU64 h.size

encode_handle-eq-append :
    (h : BlockHandle) (dst : Bytes) → encode_handle h dst ≡ dst ++ handle_bytes h
unfolding encode_handle put_varint64
encode_handle-eq-append h dst = append_assoc dst (encode_varint h.offset) (encode_varint h.size)

-- A handle is decoded from what was encoded, in front of whatever follows.
pub decode-encode_handle :
    (h0 h : BlockHandle) (rest : Bytes)
    → IsHandle h
    → decode_handle h0 (encode_handle h [] ++ rest) ≡ (success, h, rest)
unfolding decode_handle
decode-encode_handle h0 h rest fits =
    let tail : encode_handle h [] ++ rest
        ≡ encode_varint h.offset ++ (encode_varint h.size ++ rest) =
      ap (λ t. t ++ rest) (encode_handle-eq-append h []) ∙ append_assoc _ _ rest in
    let first = get_varint64-encode h.offset (encode_varint h.size ++ rest) fits.offset_fits in
    let second = get_varint64-encode h.size rest fits.size_fits in
    rw tail (ground (arith, first, second))

pub length-encode_handle : (h : BlockHandle) → IsHandle h → length (encode_handle h []) ≤ 20
length-encode_handle h fits =
    let (_, offset, _) = encode_varint_bounds 0 h.offset (omega arith) fits.offset_fits in
    let (_, size, _) = encode_varint_bounds 0 h.size (omega arith) fits.size_fits in
    rw (encode_handle-eq-append h []) omega
      (arith, offset, size, length-append (encode_varint h.offset) (encode_varint h.size))

encode_varint_some : (v : ℕ) → IsU64 v → 0 < length (encode_varint v)
encode_varint_some v h = elim (Bool-cases (ltb 0 (length (encode_varint v)))) [
  | inl e ↦ ltb→lt _ _ e
  | inr e ↦
      let nil = length-eq-zero (encode_varint v) (omega (arith, ltb→le 0 _ e)) in
      let read : get_varint64 [] ≡ some (v, []) =
        subst (λ t. get_varint64 (t ++ []) ≡ some (v, [])) nil (get_varint64-encode v [] h) in
      let fails : get_varint64 [] ≡ none = unfold get_varint64 in refl in absurd cc
]

encode_handle_some : (h : BlockHandle) → IsHandle h → 0 < length (encode_handle h [])
encode_handle_some h fits = rw (encode_handle-eq-append h []) omega (
  arith,
  length-append (encode_varint h.offset) (encode_varint h.size),
  encode_varint_some h.offset fits.offset_fits,
)

abbrev magic : Bytes
magic =
    encode_fixed32 (bit_and table_magic_number 0xffffffff)
    ++ encode_fixed32 (u32 (table_magic_number >>> 32))

-- Two words of four bytes are the number's eight.
decode-magic : (rest : Bytes) → decode_fixed64 (magic ++ rest) ≡ table_magic_number
unfolding decode_fixed64 encode_fixed32
decode-magic rest = refl

module _ (f : Footer) (metaindex : IsHandle f.metaindex_handle)
    (index : IsHandle f.index_handle) where
  abbrev handles : Bytes
  handles = encode_handle f.metaindex_handle [] ++ encode_handle f.index_handle []

  handles_fit : length handles ≤ 40
  handles_fit = omega (
    arith,
    length-append (encode_handle f.metaindex_handle []) (encode_handle f.index_handle []),
    length-encode_handle f.metaindex_handle metaindex,
    length-encode_handle f.index_handle index,
  )

  abbrev padding : Bytes
  padding = replicate (40 - length handles) 0

  encode_footer_parts : encode_footer f [] ≡ (handles ++ padding) ++ magic
  unfolding encode_footer resize
  encode_footer_parts =
      let all : encode_handle f.index_handle (encode_handle f.metaindex_handle []) ≡ handles =
        encode_handle-eq-append f.index_handle _
        ∙ ap (λ t. encode_handle f.metaindex_handle [] ++ t)
            (sym (encode_handle-eq-append f.index_handle [])) in
      let short : length handles ≤ 0 + 2 * max_encoded_length = omega (arith, handles_fit) in
      rw (all, take_all (0 + 2 * max_encoded_length) handles short) refl

  length-handles-padding : length (handles ++ padding) ≡ 40
  length-handles-padding = omega (
    arith,
    length-append handles padding,
    length-replicate {A = ℕ} (40 - length handles) 0,
    handles_fit,
  )

  -- The part of an encoded footer behind its first handle, and behind both.
  abbrev behind : Bytes → Bytes
  behind rest = padding ++ (magic ++ rest)

  encode_footer-append :
      (rest : Bytes)
      → encode_footer f [] ++ rest
        ≡ encode_handle f.metaindex_handle [] ++ (encode_handle f.index_handle [] ++ behind rest)
  encode_footer-append rest =
      ap (λ t. t ++ rest) encode_footer_parts
      ∙ append_assoc (handles ++ padding) magic rest
      ∙ append_assoc handles padding (magic ++ rest)
      ∙ append_assoc (encode_handle f.metaindex_handle []) _ _

  magic_at : (rest : Bytes) → drop 40 (encode_footer f [] ++ rest) ≡ magic ++ rest
  magic_at rest =
      ap (λ t. drop 40 (t ++ rest)) encode_footer_parts
      ∙ ap (drop 40) (append_assoc (handles ++ padding) magic rest)
      ∙ drop-append 40 (handles ++ padding) (magic ++ rest) length-handles-padding

  length-encode_footer : (rest : Bytes) → 48 ≤ length (encode_footer f [] ++ rest)
  length-encode_footer rest =
      let front = length-append (handles ++ padding) magic in
      let size : length magic ≡ 8 = unfold encode_fixed32 in refl in
      rw encode_footer_parts omega (
        arith,
        length-append ((handles ++ padding) ++ magic) rest,
        front,
        size,
        length-handles-padding,
      )

  pub length-footer : length (encode_footer f []) ≡ 48
  length-footer =
      let size : length magic ≡ 8 = unfold encode_fixed32 in refl in
      rw encode_footer_parts
        (omega (arith, length-append (handles ++ padding) magic, size, length-handles-padding))

  decode_footer_result :
      (f0 : Footer) (rest : Bytes)
      → decode_footer f0 (encode_footer f [] ++ rest)
        ≡ (success, f, checked_remove_prefix encoded_length (behind rest))
  unfolding decode_footer
  decode_footer_result f0 rest =
      let input = encode_footer f [] ++ rest in
      let long : ltb (length input) encoded_length ≡ false =
        ground (arith, length-encode_footer rest) in
      let stamp : decode_fixed64 (drop 40 input) ≡ table_magic_number =
        ap decode_fixed64 (magic_at rest) ∙ decode-magic rest in
      let first : decode_handle f0.metaindex_handle input
          ≡ (success, f.metaindex_handle, encode_handle f.index_handle [] ++ behind rest) =
        ap (decode_handle f0.metaindex_handle) (encode_footer-append rest)
        ∙ decode-encode_handle f0.metaindex_handle f.metaindex_handle _ metaindex in
      let second = decode-encode_handle f0.index_handle f.index_handle (behind rest) index in
      rw (long, stamp, first, second) refl

  -- `Footer::DecodeFrom` gives back the two handles that `Footer::EncodeTo` put down, whatever
  -- stands in the object before and follows in the input.
  pub decode-encode_footer :
      (f0 : Footer) (rest : Bytes)
      → let result = decode_footer f0 (encode_footer f [] ++ rest) in
        (result.0 ≡ success) × (result.1 ≡ f)
  decode-encode_footer f0 rest =
      (ap (λ r. r.0) (decode_footer_result f0 rest), ap (λ r. r.1) (decode_footer_result f0 rest))

  -- `Footer::DecodeFrom` on just the 48 bytes of a footer ends with a `remove_prefix` of more bytes
  -- than the handles have left in the input.
  pub decode_footer_overrun :
      (f0 : Footer) → decode_footer f0 (encode_footer f []) ≡ (success, f, none)
  decode_footer_overrun f0 =
      ap (decode_footer f0) (sym (append-nil (encode_footer f [])))
      ∙ decode_footer_result f0 []
      ∙ ap (λ left. (success, f, left)) over
    where
      nonempty : 0 < length handles
      nonempty = omega (
        arith,
        length-append (encode_handle f.metaindex_handle []) (encode_handle f.index_handle []),
        encode_handle_some f.metaindex_handle metaindex,
      )

      over : checked_remove_prefix encoded_length (behind []) ≡ none
      over =
          let size : length (magic ++ []) ≡ 8 = unfold encode_fixed32 in refl in
          unfold checked_remove_prefix in
          ground (
            arith,
            nonempty,
            size,
            length-append padding (magic ++ []),
            length-replicate {A = ℕ} (40 - length handles) 0,
          )
