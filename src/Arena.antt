-- ===== src/Arena.antt =====
-- src/util/arena.h and src/util/arena.cc: memory is handed out from blocks that are never given back.
pub mod Ranges
pub mod Allocation
pub mod Requests
mod Tests
use mini_leveldb.Prelude.{
  ℕ, ◌+◌, ◌-◌, ◌/◌, bit_and, ltb, leb, ◌==◌, if◌then◌else◌, List, [], ◌∷◌, ◌++◌, length, u64,
}

abbrev pub block_size : ℕ
block_size = 4096

-- A block that `new char[size]` has returned, by its address.
pub record Chunk : Type 0 where
  pub start : ℕ
  pub size : ℕ

-- `curr_` is 0 for the null pointer.
pub record Arena : Type 0 where
  pub curr : ℕ
  pub avail : ℕ
  pub blocks_bytes : ℕ
  pub blocks : List Chunk

unfoldable pub new_arena : Arena
new_arena = record { curr = 0; avail = 0; blocks_bytes = 0; blocks = [] }

-- `MemoryUsage`
unfoldable pub memory_usage : Arena → ℕ
memory_usage a = a.blocks_bytes

-- `address` says what `new char[size]` returns, given the blocks that have been taken before.
module _ (address : List Chunk → ℕ → ℕ) where
  -- `AllocateNewBlock`: the address, and the arena.
  unfoldable pub allocate_new_block : ℕ → Arena → ℕ × Arena
  allocate_new_block block_bytes a =
      let result = address a.blocks block_bytes in
      (
        result,
        record a {
          blocks = a.blocks ++ (record { start = result; size = block_bytes } ∷ []);
          blocks_bytes = u64 (a.blocks_bytes + block_bytes);
        },
      )

  -- `Allocate`
  unfoldable pub allocate : ℕ → Arena → ℕ × Arena
  unfolding allocate_new_block
  allocate bytes a =
      let (result, a') = allocate_new_block block_size a in
      if leb bytes a.avail
      then (a.curr, record a { curr = a.curr + bytes; avail = a.avail - bytes })
      else if ltb (block_size / 4) bytes
      then allocate_new_block bytes a
      else (result, record a' { curr = result + bytes; avail = block_size - bytes })

  -- `AllocateAligned`, where a pointer has eight bytes.
  unfoldable pub allocate_aligned : ℕ → Arena → ℕ × Arena
  unfolding allocate_new_block
  allocate_aligned bytes a =
      let current_mod = bit_and a.curr (8 - 1) in
      let slop = if current_mod == 0 then 0 else 8 - current_mod in
      let needed = u64 (bytes + slop) in
      if leb needed a.avail
      then (a.curr + slop, record a { curr = a.curr + needed; avail = a.avail - needed })
      else allocate_new_block needed a
