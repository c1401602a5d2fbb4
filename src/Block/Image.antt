-- ===== src/Block/Image.antt =====
-- `Finish` of src/table/block_builder.cc and the constructor of src/table/block.cc together.
use mini_leveldb.Prelude.{
  ℕ, ◌+◌, ◌-◌, ◌*◌, ◌^◌, ◌<◌, ◌≤◌, some, List, [], ◌∷◌, ◌++◌, append-nil, append_assoc,
  length-append, ◌≡◌, refl, sym, ap, ap₂, ◌∙◌, Bytes, length, drop, take-append, drop-append, u32,
  All, IsU32, arith,
}
use mini_leveldb.Coding.{encode_fixed32, decode_fixed32}
use mini_leveldb.Coding.Fixed.{decode-encode_fixed32, length-encode_fixed32}
use mini_leveldb.Block.Builder.{BlockBuilder, append_restarts, finish}
use mini_leveldb.Block.Reader.{new_block, read_restarts}

-- The bytes of the restart points.
unfoldable pub offset_bytes : List ℕ → Bytes
offset_bytes [] = []
offset_bytes (offset ∷ restarts) = encode_fixed32 offset ++ offset_bytes restarts

pub append_restarts-eq-append :
    (restarts : List ℕ) (buffer : Bytes)
    → append_restarts restarts buffer ≡ buffer ++ offset_bytes restarts
unfolding append_restarts offset_bytes
append_restarts-eq-append [] buffer = sym (append-nil buffer)
append_restarts-eq-append (offset ∷ restarts) buffer =
    append_restarts-eq-append restarts (buffer ++ encode_fixed32 offset)
    ∙ append_assoc buffer (encode_fixed32 offset) (offset_bytes restarts)

pub length-offset_bytes : (restarts : List ℕ) → length (offset_bytes restarts) ≡ length restarts * 4
unfolding offset_bytes
length-offset_bytes [] = refl
length-offset_bytes (offset ∷ restarts) = omega (
  arith,
  length-append (encode_fixed32 offset) (offset_bytes restarts),
  length-encode_fixed32 offset,
  length-offset_bytes restarts,
)

read_restarts-offset_bytes :
    (i : ℕ) (front : Bytes) (restarts : List ℕ) (rest : Bytes)
    → length front ≡ i * 4
    → (i + length restarts) * 4 < 2 ^ 32
    → All IsU32 restarts
    → read_restarts (length restarts) i (front ++ (offset_bytes restarts ++ rest)) ≡ some restarts
unfolding read_restarts offset_bytes
read_restarts-offset_bytes i front [] rest at small f = refl
read_restarts-offset_bytes i front (offset ∷ restarts) rest at small (f, fs) =
    let four = encode_fixed32 offset in
    let behind = offset_bytes restarts ++ rest in
    let p = front ++ ((four ++ offset_bytes restarts) ++ rest) in
    let moved : p ≡ (front ++ four) ++ behind =
      ap (λ t. front ++ t) (append_assoc four (offset_bytes restarts) rest)
      ∙ sym (append_assoc front four behind) in
    let more : read_restarts (length restarts) (i + 1) p ≡ some restarts =
      ap (read_restarts (length restarts) (i + 1)) moved
      ∙ read_restarts-offset_bytes (i + 1) (front ++ four) restarts rest
          (omega (arith, length-append front four, length-encode_fixed32 offset, at))
          (omega (arith, small)) fs in
    let here : drop (u32 (i * 4)) p ≡ four ++ behind =
      let index : u32 (i * 4) ≡ length front = omega (arith, at, small) in
      ap₂ drop index (ap (λ t. front ++ t) (append_assoc four (offset_bytes restarts) rest))
      ∙ drop-append (length front) front (four ++ behind) refl in
    let long : 4 ≤ length (four ++ behind) =
      omega (arith, length-append four behind, length-encode_fixed32 offset) in
    ground (arith, more, here, long, decode-encode_fixed32 offset behind f)

new_block-parts :
    (bytes : Bytes) (restarts : List ℕ)
    → All IsU32 restarts
    → length bytes + (length restarts * 4 + 4) < 2 ^ 32
    → new_block (bytes ++ (offset_bytes restarts ++ encode_fixed32 (length restarts)))
      ≡ some (record { entry_data = bytes; restarts = restarts })
unfolding new_block
new_block-parts bytes restarts f small =
    let count = length restarts in
    let stored = encode_fixed32 count in
    let whole = bytes ++ (offset_bytes restarts ++ stored) in
    let n : length whole ≡ length bytes + (count * 4 + 4) = omega (
      arith,
      length-append bytes (offset_bytes restarts ++ stored),
      length-append (offset_bytes restarts) stored,
      length-offset_bytes restarts,
      length-encode_fixed32 count,
    ) in
    let at_count : length whole - 4 ≡ length (bytes ++ offset_bytes restarts) =
      omega (arith, n, length-append bytes (offset_bytes restarts), length-offset_bytes restarts) in
    let tail : drop (length whole - 4) whole ≡ stored =
      ap₂ drop at_count (sym (append_assoc bytes (offset_bytes restarts) stored))
      ∙ drop-append _ (bytes ++ offset_bytes restarts) stored refl in
    let counted : decode_fixed32 (drop (length whole - 4) whole) ≡ count =
      ap decode_fixed32 (tail ∙ sym (append-nil stored))
      ∙ decode-encode_fixed32 count [] (omega arith) in
    let start : length whole - 4 - u32 (count * 4) ≡ length bytes = omega (arith, n) in
    rw
      (
        counted,
        start,
        drop-append (length bytes) bytes (offset_bytes restarts ++ stored) refl,
        read_restarts-offset_bytes 0 [] restarts stored refl (omega (arith, small)) f,
        counted,
        start,
        take-append (length bytes) bytes (offset_bytes restarts ++ stored) refl,
      )
      (ground (arith, n))

-- The constructor takes what `Finish` returns apart into the entries' bytes and the restart points.
pub new_block-finish :
    (b : BlockBuilder)
    → All IsU32 b.restarts
    → length b.buffer + (length b.restarts * 4 + 4) < 2 ^ 32
    → new_block (finish b).0 ≡ some (record { entry_data = b.buffer; restarts = b.restarts })
unfolding finish
new_block-finish b f small =
    let few : u32 (length b.restarts) ≡ length b.restarts = omega arith in
    ap new_block (
      rw (few, append_restarts-eq-append b.restarts b.buffer)
        (append_assoc b.buffer (offset_bytes b.restarts) (encode_fixed32 (length b.restarts))))
    ∙ new_block-parts b.buffer b.restarts f small
