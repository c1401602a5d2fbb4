-- ===== src/Block/Decode.antt =====
-- `DecodeEntry` of src/table/block.cc on the bytes of one entry.
use mini_leveldb.Prelude.{
  ℕ, ◌+◌, ◌-◌, ◌^◌, ◌<◌, ◌≤◌, ltb, Bool-cases, true, some, ◌++◌, append-nil, append_assoc,
  length-append, ◌≡◌, refl, sym, ap, ap₂, ◌∙◌, Bytes, length, take, drop, take-append,
  take-append-drop, drop-append, length-drop, u32, IsU32, inl, inr, arith,
}
use mini_leveldb.Coding.{encode_varint}
use mini_leveldb.Coding.Varint.{get_varint32-encode, encode_varint-eq-groups, length-groups}
use mini_leveldb.Table.Format.{resize}
use mini_leveldb.Block.Reader.{Iterator, get_lengths, decode_entry}
use mini_leveldb.Block.Layout.{
  KeyValue, Fits, entry_bytes, shared_with, count_shared-prefix, take-zero,
}

get_lengths-entry_bytes :
    (shared : ℕ) (e : KeyValue) (rest : Bytes)
    → Fits e
    → shared ≤ length e.key
    → get_lengths (entry_bytes shared e ++ rest)
      ≡ some (shared, length e.key - shared, length e.value, drop shared e.key ++ (e.value ++ rest))
unfolding get_lengths entry_bytes
get_lengths-entry_bytes shared e rest (hk, hv) le =
    let unshared = length e.key - shared in
    let behind = drop shared e.key ++ (e.value ++ rest) in
    let parts : entry_bytes shared e ++ rest
        ≡ encode_varint shared
          ++ (encode_varint unshared ++ (encode_varint (length e.value) ++ behind)) =
      simp append_assoc in
    ap get_lengths parts
    ∙ ground (
      arith,
      get_varint32-encode shared
          (encode_varint unshared ++ (encode_varint (length e.value) ++ behind)) (omega arith),
      get_varint32-encode unshared (encode_varint (length e.value) ++ behind) (omega arith),
      get_varint32-encode (length e.value) behind hv,
    )

pub length-entry_bytes :
    (shared : ℕ) (e : KeyValue)
    → IsU32 (length e.key)
    → shared ≤ length e.key
    → (length e.key - shared) + length e.value < length (entry_bytes shared e)
unfolding entry_bytes
length-entry_bytes shared e h le =
    let some_byte : 1 ≤ length (encode_varint shared) =
      rw (encode_varint-eq-groups 4 shared (omega arith)) (length-groups 4 shared).0 in
    omega (
      arith,
      some_byte,
      length-append (encode_varint shared) (
          encode_varint (length e.key - shared)
          ++ (encode_varint (length e.value) ++ (drop shared e.key ++ e.value))),
      length-append (encode_varint (length e.key - shared))
          (encode_varint (length e.value) ++ (drop shared e.key ++ e.value)),
      length-append (encode_varint (length e.value)) (drop shared e.key ++ e.value),
      length-append (drop shared e.key) e.value,
      length-drop shared e.key,
    )

resize-shared :
    (shared : ℕ) (old key : Bytes)
    → take shared old ≡ take shared key
    → shared ≤ length old
    → resize shared old ++ drop shared key ≡ key
unfolding resize
resize-shared shared old key same le =
    let no_zeros : shared - length old ≡ 0 = omega arith in
    rw (no_zeros, same, append-nil (take shared key)) (take-append-drop shared key)

pub decode_entry-entry_bytes :
    (it : Iterator) (front rest : Bytes) (shared : ℕ) (e : KeyValue)
    → it.entry_data ≡ front ++ (entry_bytes shared e ++ rest)
    → it.current ≡ length front
    → length it.entry_data < 2 ^ 32
    → Fits e
    → shared ≤ length e.key
    → take shared it.key ≡ take shared e.key
    → shared ≤ length it.key
    → decode_entry it
      ≡ some record it {
        current = length (front ++ entry_bytes shared e);
        key = e.key;
        value = e.value;
        valid = true;
      }
unfolding decode_entry
decode_entry-entry_bytes it front rest shared e bytes at small (hk, hv) le same le' =
    let entry = entry_bytes shared e in
    let behind = drop shared e.key ++ (e.value ++ rest) in
    let unshared = length e.key - shared in
    let key_left : length (drop shared e.key) ≡ unshared = length-drop shared e.key in
    let here : drop it.current it.entry_data ≡ entry ++ rest =
      ap₂ drop at bytes ∙ drop-append (length front) front (entry ++ rest) refl in
    let read : get_lengths (drop it.current it.entry_data)
        ≡ some (shared, unshared, length e.value, behind) =
      ap get_lengths here ∙ get_lengths-entry_bytes shared e rest (hk, hv) le in
    let total : length it.entry_data ≡ length front + (length entry + length rest) =
      ap length bytes
      ∙ omega (arith, length-append front (entry ++ rest), length-append entry rest) in
    let past : drop unshared behind ≡ e.value ++ rest =
      drop-append unshared (drop shared e.key) (e.value ++ rest) key_left in
    let new : take unshared behind ≡ drop shared e.key =
      take-append unshared (drop shared e.key) (e.value ++ rest) key_left in
    let value : take (length e.value) (drop unshared behind) ≡ e.value =
      ap (take (length e.value)) past ∙ take-append (length e.value) e.value rest refl in
    let key : resize shared it.key ++ take unshared behind ≡ e.key =
      ap (λ t. resize shared it.key ++ t) new ∙ resize-shared shared it.key e.key same le' in
    let long = length-entry_bytes shared e hk le in
    let fits : length behind ≡ unshared + (length e.value + length rest) = omega (
      arith,
      length-append (drop shared e.key) (e.value ++ rest),
      key_left,
      length-append e.value rest,
    ) in
    let left : length (drop unshared behind) ≡ length e.value + length rest =
      ap length past ∙ length-append e.value rest in
    let on : u32 (
          it.current
          + u32
              (length it.entry_data - length (drop unshared behind) - it.current + length e.value))
        ≡ length (front ++ entry) =
      omega (arith, at, total, left, length-append front entry, small, long) in
    ground (arith, read, key, value, on, fits, at, total, long)

pub shared-prefix :
    (counter : ℕ) (last old key : Bytes)
    → (0 < counter → old ≡ last)
    → (take (shared_with counter last key) old ≡ take (shared_with counter last key) key)
      × (shared_with counter last key ≤ length old)
shared-prefix counter last old key same = elim (Bool-cases (ltb 0 counter)) [
  | inr start ↦ rw start (take-zero old ∙ sym (take-zero key), omega arith)
  | inl inside ↦
      let (equal, _, short) = count_shared-prefix key last in
      let here : old ≡ last = same (ground arith) in rw (inside, here) (equal, short)
]
