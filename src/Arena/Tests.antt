-- ===== src/Arena/Tests.antt =====
-- Runs on arenas.
use mini_leveldb.Prelude.{ℕ, subst, ◌-◌, ◌+◌, ◌*◌, ◌≡◌, refl, inl, List, [], ◌∷◌, All, arith}
use mini_leveldb.Arena.{Chunk, new_arena, allocate, allocate_aligned, allocate_new_block}
use mini_leveldb.Arena.Ranges.{Sound, IsAllocator, Apart}
use mini_leveldb.Arena.Requests.{Request, plain, aligned, serve, serve_all, serve_all-Sound}

-- An allocator that goes upwards in memory.
abbrev ends : List Chunk → ℕ
ends [] = 0
ends (c ∷ cs) = c.start + c.size + ends cs

abbrev upwards : List Chunk → ℕ → ℕ
upwards blocks size = 8 * (1 + (0 + ends blocks))

upwards-IsAllocator : IsAllocator upwards
upwards-IsAllocator = record {
  aligned = λ blocks size. omega arith;
  apart = λ blocks size. above blocks 0 size;
}
  where
    above :
        (blocks : List Chunk) (more size : ℕ)
        → All (λ c. Apart c (record { start = 8 * (1 + (more + ends blocks)); size = size })) blocks
    above [] more size = tt
    above (c ∷ cs) more size = (
      inl (omega arith),
      let e : more + c.start + c.size + ends cs ≡ more + (c.start + c.size + ends cs) =
            omega arith in
          subst (λ (n : ℕ). All (λ d. Apart d (record { start = 8 * (1 + n); size = size })) cs) e
            (above cs (more + c.start + c.size) size),
    )

abbrev requests : List Request
requests = plain 10 ∷ (aligned 24 ∷ (plain 2000 ∷ []))

serve_all_run : (serve_all upwards requests new_arena []).0.avail ≡ 4096 - 2040
unfolding serve_all serve allocate allocate_aligned allocate_new_block new_arena
serve_all_run = refl

serve_all-Sound_example :
    Sound (serve_all upwards requests new_arena []).0 (serve_all upwards requests new_arena []).1
serve_all-Sound_example =
    serve_all-Sound upwards requests upwards-IsAllocator
      ((omega arith, omega arith), ((omega arith, omega arith), ((omega arith, omega arith), tt)))
