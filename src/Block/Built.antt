-- ===== src/Block/Built.antt =====
-- Blocks of src/table/block_builder.cc read by src/table/block.cc.
use mini_leveldb.Prelude.{
  ℕ, suc, ◌+◌, ◌*◌, ◌^◌, ◌<◌, ◌≤◌, Bool-cases, some, List, [], ◌∷◌, ◌++◌, length-append, ◌≡◌, refl,
  sym, ap, ap₂, subst, ◌∙◌, Bytes, length, All, IsU32, inl, inr, arith, u32,
}
use mini_leveldb.Coding.{encode_fixed32}
use mini_leveldb.Coding.Fixed.{length-encode_fixed32}
use mini_leveldb.Skiplist.Sequence.{Sorted, upper}
use mini_leveldb.Block.Builder.{BlockBuilder, reset, finish, current_size_estimate}
use mini_leveldb.Block.Reader.{Block, new_block, new_iterator, seek_to_first, seek}
use mini_leveldb.Block.Layout.{
  KeyValue, Fits, add_all, encoded, points, offsets, entry_bytes, shared_with, shared_with_le,
  next_counter, buffer-add_all, restarts-add_all,
}
use mini_leveldb.Block.Image.{
  new_block-finish, append_restarts-eq-append, offset_bytes, length-offset_bytes,
}
use mini_leveldb.Block.Keys.{key_less, from, Parted, Sorted-Parted}
use mini_leveldb.Block.Decode.{length-entry_bytes}
use mini_leveldb.Block.Walk.{Steps, decode_entry-encoded, visit, visit-Shows}
use mini_leveldb.Block.Seek.{Point, points-Point, seek-Shows}

-- `CurrentSizeEstimate` is the exact size of what `Finish` returns.
pub length-finish : (b : BlockBuilder) → length (finish b).0 ≡ current_size_estimate b
unfolding finish current_size_estimate
length-finish b =
    let count = encode_fixed32 (u32 (length b.restarts)) in
    ap (λ t. length (t ++ count)) (append_restarts-eq-append b.restarts b.buffer)
    ∙ omega (
      arith,
      length-append (b.buffer ++ offset_bytes b.restarts) count,
      length-append b.buffer (offset_bytes b.restarts),
      length-offset_bytes b.restarts,
      length-encode_fixed32 (u32 (length b.restarts)),
    )

module _ (es : List KeyValue) (f : All Fits es)
    (small : current_size_estimate (add_all es reset) < 2 ^ 32) where
  pub bytes : Bytes
  bytes = encoded 0 [] es

  abbrev pub starts : List ℕ
  starts = offsets (points 0 0 [] es)

  built_buffer : (add_all es reset).buffer ≡ bytes
  unfolding bytes reset
  built_buffer = buffer-add_all es reset f

  bytes_small : length bytes < 2 ^ 32
  bytes_small =
      let n : current_size_estimate (add_all es reset)
          ≡ length bytes + 4 + length (add_all es reset).restarts * 4 =
        unfold current_size_estimate in
        ap (λ t. length t + 4 + length (add_all es reset).restarts * 4) built_buffer in
      omega (arith, n, small)

  built_restarts : (add_all es reset).restarts ≡ starts
  unfolding bytes reset
  built_restarts = restarts-add_all es reset f (omega (arith, bytes_small))

  built_points : All (λ o. Point bytes es o) starts
  unfolding bytes
  built_points = points-Point bytes [] [] 0 es [] es refl refl

  offsets-IsU32 : (os : List ℕ) → All (λ o. Point bytes es o) os → All IsU32 os
  offsets-IsU32 [] h = tt
  offsets-IsU32 (o ∷ os) (p, h) = (
    omega (arith, p.at, ap length p.split, length-append p.front _, bytes_small),
    offsets-IsU32 os h,
  )

  abbrev pub block : Block
  block = record { entry_data = bytes; restarts = starts }

  pub built : new_block (finish (add_all es reset)).0 ≡ some block
  built =
      new_block-finish (add_all es reset)
        (subst (All IsU32) (sym built_restarts) (offsets-IsU32 starts built_points))
        (unfold current_size_estimate in omega (arith, small))
      ∙ ap₂ (λ b r. some record { entry_data = b; restarts = r }) built_buffer built_restarts

length-encoded :
    (counter : ℕ) (last : Bytes) (es : List KeyValue)
    → All Fits es
    → length es ≤ length (encoded counter last es)
unfolding encoded
length-encoded counter last [] f = omega arith
length-encoded counter last (e ∷ es) ((hk, hv), f) = omega (
  arith,
  length-append (entry_bytes (shared_with counter last e.key) e)
      (encoded (next_counter counter) e.key es),
  length-entry_bytes (shared_with counter last e.key) e hk (shared_with_le counter last e.key),
  length-encoded (next_counter counter) e.key es f,
)

first_step :
    (es : List KeyValue) (f : All Fits es)
    (small : current_size_estimate (add_all es reset) < 2 ^ 32)
    → Steps
        (bytes es f small)
        (starts es f small)
        es
        (seek_to_first (new_iterator (block es f small)))
unfolding seek_to_first points offsets new_iterator bytes
first_step [] f small = (_, refl, refl)
first_step (e ∷ es) f small =
    decode_entry-encoded (bytes (e ∷ es) f small) (starts (e ∷ es) f small)
      (bytes_small (e ∷ es) f small) _ [] [] 0 (e ∷ es) f refl refl refl refl
      (λ lt. absurd (omega arith))

-- A block of entries, whose lengths fit 32 bits and which is smaller than 4 GiB, is read back: from
-- `SeekToFirst` on the iterator visits the entries in order and then ends.
pub visit-finish :
    (es : List KeyValue)
    → All Fits es
    → current_size_estimate (add_all es reset) < 2 ^ 32
    → (b : Block) × (new_block (finish (add_all es reset)).0 ≡ some b)
      × (visit (suc (length es)) (seek_to_first (new_iterator b)) ≡ some es)
visit-finish es f small = (
  block es f small,
  built es f small,
  visit-Shows (bytes es f small) (starts es f small) (suc (length es)) _ es (bytes_small es f small)
      f (omega arith) (first_step es f small),
)

pub seek_step :
    (es : List KeyValue) (target : Bytes) (f : All Fits es)
    (small : current_size_estimate (add_all es reset) < 2 ^ 32)
    → Parted target es
    → Steps
        (bytes es f small)
        (starts es f small)
        (from target es)
        (seek target (new_iterator (block es f small)))
unfolding points offsets new_iterator upper bytes
seek_step [] target f small s = unfold seek in (_, refl, refl)
seek_step (e ∷ es) target f small s =
    seek-Shows (bytes (e ∷ es) f small) (starts (e ∷ es) f small) (e ∷ es) target
      (bytes_small (e ∷ es) f small) f s (built_points (e ∷ es) f small) _ refl refl (omega arith)
      (length-encoded 0 [] (e ∷ es) f)
      (
        record {
          front = [];
          last = [];
          before = [];
          e = e;
          es = es;
          split = refl;
          at = refl;
          whole = refl;
        },
        tt,
      )

from-All {κ} :
    (P : KeyValue → Type κ) (target : Bytes) (es : List KeyValue)
    → All P es
    → All P (from target es) × (length (from target es) ≤ length es)
unfolding upper
from-All P target [] h = (tt, omega arith)
from-All P target (e ∷ es) (h, hs) =
    elim (Bool-cases (key_less e (record { key = target; value = [] }))) [
      | inl below ↦
          let (all, short) = from-All P target es hs in rw below (all, omega (arith, short))
      | inr stop ↦ rw stop ((h, hs), omega arith)
    ]

-- `Seek` in a block of entries in the order of their keys, whose lengths fit 32 bits and which is
-- smaller than 4 GiB: from there on the iterator visits, in order, the entries from the first on
-- whose key is not below the target, and then ends.
pub visit-seek :
    (es : List KeyValue) (target : Bytes)
    → All Fits es
    → current_size_estimate (add_all es reset) < 2 ^ 32
    → Sorted key_less es
    → (b : Block) × (new_block (finish (add_all es reset)).0 ≡ some b)
      × (visit (suc (length es)) (seek target (new_iterator b)) ≡ some (from target es))
visit-seek es target f small s =
    let (f', short) = from-All Fits target es f in
    (
      block es f small,
      built es f small,
      visit-Shows (bytes es f small) (starts es f small) (suc (length es)) _ (from target es)
          (bytes_small es f small) f' (omega (arith, short))
          (seek_step es target f small (Sorted-Parted target es s)),
    )
