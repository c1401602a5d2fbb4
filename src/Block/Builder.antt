-- ===== src/Block/Builder.antt =====
-- src/table/block_builder.h and src/table/block_builder.cc: entries become the bytes of a block.
use mini_leveldb.Prelude.{
  ℕ, suc, ◌+◌, ◌-◌, ◌*◌, ltb, leb, ◌==◌, if◌then◌else◌, Bool, true, false, List, [], ◌∷◌, ◌++◌,
  Bytes, length, take, drop, u32,
}
use mini_leveldb.Coding.{encode_fixed32, put_varint32}

abbrev pub restart_interval : ℕ
restart_interval = 16

pub record BlockBuilder : Type 0 where
  pub buffer : Bytes
  pub last_key : Bytes
  pub restarts : List ℕ
  pub counter : ℕ
  pub finished : Bool

-- The constructor, and `Reset`, which sets every field.
unfoldable pub reset : BlockBuilder
reset = record { buffer = []; last_key = []; restarts = []; counter = 0; finished = false }

-- The loop of `Add` that counts the bytes that two keys share, from the first on.
unfoldable pub count_shared : Bytes → Bytes → ℕ
count_shared [] last = 0
count_shared (x ∷ key) [] = 0
count_shared (x ∷ key) (y ∷ last) =
    let more = count_shared key last in if x == y then suc more else 0

-- The three lengths, what is new of the key, and the value.
unfoldable pub append_entry : ℕ → Bytes → Bytes → Bytes → Bytes
append_entry shared key value buffer =
    let unshared = length key - shared in
    let lengths : Bytes =
      put_varint32 (put_varint32 (put_varint32 buffer (u32 shared)) (u32 unshared))
        (u32 (length value)) in
    (lengths ++ take unshared (drop shared key)) ++ value

-- `Add`
unfoldable pub add : Bytes → Bytes → BlockBuilder → BlockBuilder
add key value b =
    let shared = if ltb 0 b.counter then count_shared key b.last_key else 0 in
    record {
      buffer = append_entry shared key value b.buffer;
      last_key = key;
      restarts = if b.counter == 0 then b.restarts ++ (u32 (length b.buffer) ∷ []) else b.restarts;
      counter = if leb restart_interval (b.counter + 1) then 0 else b.counter + 1;
      finished = b.finished;
    }

-- The loop of `Finish`: four new bytes for each offset, which are then written over.
unfoldable pub append_restarts : List ℕ → Bytes → Bytes
append_restarts [] buffer = buffer
append_restarts (offset ∷ restarts) buffer =
    append_restarts restarts (buffer ++ encode_fixed32 offset)

-- `Finish`: the view of the buffer that it returns, and the builder.
unfoldable pub finish : BlockBuilder → Bytes × BlockBuilder
unfolding append_restarts
finish b =
    let whole = append_restarts b.restarts b.buffer ++ encode_fixed32 (u32 (length b.restarts)) in
    (whole, record b { buffer = whole; finished = true })

unfoldable pub current_size_estimate : BlockBuilder → ℕ
current_size_estimate b = length b.buffer + 4 + length b.restarts * 4

unfoldable pub is_empty : BlockBuilder → Bool
is_empty b = elim b.buffer [ [] ↦ true | x ∷ xs ↦ false ]
