-- ===== src/Arena/Requests.antt =====
-- Any sequence of calls of `Allocate` and `AllocateAligned` of src/util/arena.cc.
use mini_leveldb.Prelude.{ℕ, ◌^◌, ◌<◌, List, [], ◌∷◌, All}
use mini_leveldb.Arena.{Chunk, Arena, new_arena, allocate, allocate_aligned}
use mini_leveldb.Arena.Ranges.{Sound, IsAllocator}
use mini_leveldb.Arena.Allocation.{allocate-Sound, allocate_aligned-Sound, new_arena-Sound}

pub data Request : Type 0 where
  plain aligned : ℕ → Request

-- The code asserts that a request is not empty.
abbrev pub IsRequest : Request → Type 0
IsRequest (plain bytes) = (0 < bytes) × (bytes < 2 ^ 63)
IsRequest (aligned bytes) = (0 < bytes) × (bytes < 2 ^ 63)

abbrev pub size_of : Request → ℕ
size_of (plain bytes) = bytes
size_of (aligned bytes) = bytes

unfoldable pub serve : (List Chunk → ℕ → ℕ) → Request → Arena → ℕ × Arena
serve address (plain bytes) a = allocate address bytes a
serve address (aligned bytes) a = allocate_aligned address bytes a

-- The arena after the requests, and the ranges handed out, the last one first.
unfoldable pub serve_all :
    (List Chunk → ℕ → ℕ) → List Request → Arena → List Chunk → Arena × List Chunk
serve_all address [] a ranges = (a, ranges)
serve_all address (r ∷ rs) a ranges =
    let (start, a') = serve address r a in
    serve_all address rs a' (record { start = start; size = size_of r } ∷ ranges)

serve-Handed :
    (address : List Chunk → ℕ → ℕ) (o : IsAllocator address) (r : Request) (a : Arena)
    (ranges : List Chunk)
    → IsRequest r
    → Sound a ranges
    → Sound
        (serve address r a).1
        (record { start = (serve address r a).0; size = size_of r } ∷ ranges)
unfolding serve
serve-Handed address o (plain bytes) a ranges (some_bytes, few) s =
    allocate-Sound address o a ranges bytes s some_bytes
serve-Handed address o (aligned bytes) a ranges (some_bytes, few) s =
    (allocate_aligned-Sound address o a ranges bytes s some_bytes few).0

serve_all_from :
    (address : List Chunk → ℕ → ℕ) (o : IsAllocator address) (rs : List Request) (a : Arena)
    (ranges : List Chunk)
    → All IsRequest rs
    → Sound a ranges
    → Sound (serve_all address rs a ranges).0 (serve_all address rs a ranges).1
unfolding serve_all
serve_all_from address o [] a ranges h s = s
serve_all_from address o (r ∷ rs) a ranges (h, hs) s =
    serve_all_from address o rs (serve address r a).1 _ hs (serve-Handed address o r a ranges h s)

-- Whatever is asked of a new arena, by `Allocate` and `AllocateAligned` in any order: the ranges that
-- it has handed out lie in its blocks and no two of them overlap, nor does one overlap what is left
-- of the current block. The requests are not empty and smaller than 2^63, and `new` returns memory
-- that overlaps none it has returned before.
pub serve_all-Sound :
    (address : List Chunk → ℕ → ℕ) (rs : List Request)
    → IsAllocator address
    → All IsRequest rs
    → Sound (serve_all address rs new_arena []).0 (serve_all address rs new_arena []).1
serve_all-Sound address rs o h = serve_all_from address o rs new_arena [] h new_arena-Sound
