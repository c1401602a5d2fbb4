-- ===== src/Skiplist/Search.antt =====
-- `FindGreaterOrEqual` of src/db/skiplist.h on a list whose levels are linked.
use mini_leveldb.Prelude.{
  ℕ, zero, suc, ◌+◌, ◌-◌, ◌≤◌, ◌<◌, Bool, true, false, ◌≡◌, refl, ap, ap₂, sym, ◌∙◌, subst, inl,
  inr, some, List, [], ◌∷◌, ◌++◌, append_assoc, length, length-append, All, arith,
}
use mini_leveldb.Skiplist.{Node, SkipList, next_of, steps_to, find_loop, find_greater_or_equal}
use mini_leveldb.Skiplist.Chain.{
  head_of, tall, last_of, tall-append, first_tall, last_of-none, last_of-append, tall_all, Links,
  Links-next, Links-after,
}

All-middle :
    (P : ℕ → Type 0) (front : List ℕ) (a : ℕ) (back : List ℕ)
    → All P (front ++ (a ∷ back))
    → P a × All P back
All-middle P [] a back h = h
All-middle P (b ∷ front) a back h = All-middle P front a back h.1

module _ {ℓ} {K : Type ℓ} (less : K → K → Bool) (nodes : List (Node K)) (height : ℕ → ℕ)
    (key : K) where
  -- The entries of `prev` from level 0 to `level`, in front of those that are there.
  unfoldable pub prevs : ℕ → ℕ → List ℕ → List ℕ → List ℕ
  prevs zero x xs prev = last_of height 0 x xs ∷ prev
  prevs (suc level) x xs prev = prevs level x xs (last_of height (suc level) x xs ∷ prev)

  prevs-append :
      (level x : ℕ) (front : List ℕ) (a : ℕ) (back prev : List ℕ)
      → level < height a
      → prevs level a back prev ≡ prevs level x (front ++ (a ∷ back)) prev
  unfolding prevs
  prevs-append zero x front a back prev h =
      ap (λ t. t ∷ prev) (sym (last_of-append height 0 x front a back h))
  prevs-append (suc level) x front a back prev h =
      ap (λ t. prevs level a back (t ∷ prev))
        (sym (last_of-append height (suc level) x front a back h))
      ∙ prevs-append level x front a back _ (omega arith)

  abbrev pub Below : ℕ → Type 0
  Below a = steps_to less nodes (some a) key ≡ true

  abbrev pub NotBelow : ℕ → Type 0
  NotBelow a = steps_to less nodes (some a) key ≡ false

  -- The levels up to this one are linked from `x` on.
  abbrev pub Linked : ℕ → ℕ → List ℕ → Type 0
  Linked level x xs = (i : ℕ) → i ≤ level → Links nodes i x (tall height i xs)

  stops :
      (i : ℕ) (post : List ℕ)
      → All NotBelow post
      → steps_to less nodes (head_of (tall height i post)) key ≡ false
  unfolding tall steps_to
  stops i [] h = refl
  stops i (a ∷ post) (first, rest) = ground (arith, first, stops i post rest)

  Linked-after :
      (level x : ℕ) (front : List ℕ) (a : ℕ) (back : List ℕ)
      → level < height a
      → Linked level x (front ++ (a ∷ back))
      → Linked level a back
  unfolding tall
  Linked-after level x front a back h links i le =
      let e : tall height i (a ∷ back) ≡ a ∷ tall height i back = ground (arith, h, le) in
      Links-after nodes i x (tall height i front) a (tall height i back) (
        subst (Links nodes i x)
          (tall-append height i front (a ∷ back) ∙ ap (λ t. tall height i front ++ t) e)
          (links i le))

  find_along :
      (fuel level x a : ℕ) (prev : List ℕ)
      → next_of nodes x level ≡ some a
      → Below a
      → find_loop less (suc fuel) nodes key x level prev
        ≡ find_loop less fuel nodes key a level prev
  unfolding find_loop
  find_along fuel level x a prev next below = ground (arith, next, below)

  find_down :
      (fuel level x : ℕ) (prev : List ℕ)
      → steps_to less nodes (next_of nodes x (suc level)) key ≡ false
      → find_loop less (suc fuel) nodes key x (suc level) prev
        ≡ find_loop less fuel nodes key x level (x ∷ prev)
  unfolding find_loop
  find_down fuel level x prev stop =
      let e : suc level - 1 ≡ level = omega arith in ground (arith, stop, e)

  find_end :
      (fuel x : ℕ) (prev : List ℕ)
      → steps_to less nodes (next_of nodes x 0) key ≡ false
      → find_loop less (suc fuel) nodes key x 0 prev ≡ some (next_of nodes x 0, x ∷ prev)
  unfolding find_loop
  find_end fuel x prev stop = ground (arith, stop)

  -- Where a level ends before the key, and no node of it is left.
  level_done :
      (level x : ℕ) (pre post : List ℕ)
      → tall height level pre ≡ []
      → Links nodes level x (tall height level (pre ++ post))
      → next_of nodes x level ≡ head_of (tall height level post)
  level_done level x pre post empty links =
      Links-next nodes level x _ links
      ∙ ap head_of (tall-append height level pre post ∙ ap (λ t. t ++ tall height level post) empty)

  -- Where the loop goes along its level: the rest of the search starts at the level's next node.
  find_loop-along :
      (fuel level x : ℕ) (front : List ℕ) (a : ℕ) (back post prev : List ℕ)
      → tall height level front ≡ []
      → level < height a
      → Below a
      → Linked level x (front ++ (a ∷ (back ++ post)))
      → find_loop less fuel nodes key a level prev ≡ some (head_of post, prevs level a back prev)
      → find_loop less (suc fuel) nodes key x level prev
        ≡ some (head_of post, prevs level x (front ++ (a ∷ back)) prev)
  find_loop-along fuel level x front a back post prev skipped high below links rest =
      let here =
        level_done level x front (a ∷ (back ++ post)) skipped (links level (omega arith)) in
      let first : head_of (tall height level (a ∷ (back ++ post))) ≡ some a =
        unfold tall in ground (arith, high) in
      find_along fuel level x a prev (here ∙ first) below
      ∙ rest
      ∙ ap (λ t. some (head_of post, t)) (prevs-append level x front a back prev high)

  -- The case of a level with a node in front of the key.
  find_loop-more :
      (fuel level x : ℕ) (pre post prev : List ℕ)
      → ((y : ℕ) (rest : List ℕ)
          → All Below rest
          → Linked level y (rest ++ post)
          → length rest + level < fuel
          → find_loop less fuel nodes key y level prev
            ≡ some (head_of post, prevs level y rest prev))
      → All Below pre
      → Linked level x (pre ++ post)
      → length pre + level < suc fuel
      → (front : List ℕ) (a : ℕ) (back : List ℕ) → front ++ (a ∷ back) ≡ pre
      → tall height level front ≡ []
      → level < height a
      → find_loop less (suc fuel) nodes key x level prev
        ≡ some (head_of post, prevs level x pre prev)
  find_loop-more fuel level x pre post prev search lo links enough front a back split skipped high =
      let lo' : All Below (front ++ (a ∷ back)) = subst (All Below) (sym split) lo in
      let (below, lo_back) = All-middle Below front a back lo' in
      let whole : pre ++ post ≡ front ++ (a ∷ (back ++ post)) =
        ap (λ t. t ++ post) (sym split) ∙ append_assoc front (a ∷ back) post in
      let links' : Linked level x (front ++ (a ∷ (back ++ post))) =
        subst (Linked level x) whole links in
      let shorter : length back + level < fuel =
        omega (arith, ap length split, length-append front (a ∷ back), enough) in
      let rest =
        search a back lo_back (Linked-after level x front a (back ++ post) high links') shorter in
      subst
        (λ p.
          find_loop less (suc fuel) nodes key x level prev
          ≡ some (head_of post, prevs level x p prev))
        split (find_loop-along fuel level x front a back post prev skipped high below links' rest)

  find_loop-result :
      (fuel level x : ℕ) (pre post prev : List ℕ)
      → ((a : ℕ) → 0 < height a)
      → All Below pre
      → All NotBelow post
      → Linked level x (pre ++ post)
      → length pre + level < fuel
      → find_loop less fuel nodes key x level prev ≡ some (head_of post, prevs level x pre prev)
  unfolding prevs
  find_loop-result zero level x pre post prev pos lo hi links enough = absurd (omega arith)
  find_loop-result (suc fuel) zero x pre post prev pos lo hi links enough =
      elim (first_tall height 0 pre) [
        | inl empty ↦
            let next = level_done 0 x pre post empty (links 0 (omega arith)) in
            let stop : steps_to less nodes (next_of nodes x 0) key ≡ false =
              ap (λ t. steps_to less nodes t key) next ∙ stops 0 post hi in
            let found : next_of nodes x 0 ≡ head_of post =
              next ∙ ap head_of (tall_all height pos post) in
            find_end fuel x prev stop
            ∙ ap₂ (λ t y. some (t, y ∷ prev)) found (sym (last_of-none height 0 x pre empty))
        | inr (front, a, back, split, skipped, high) ↦
            find_loop-more fuel 0 x pre post prev
              (λ y rest lo' links' e. find_loop-result fuel 0 y rest post prev pos lo' hi links' e)
              lo links enough front a back split skipped high
      ]
  find_loop-result (suc fuel) (suc level) x pre post prev pos lo hi links enough =
      elim (first_tall height (suc level) pre) [
        | inl empty ↦
            let next = level_done (suc level) x pre post empty (links (suc level) (omega arith)) in
            let stop : steps_to less nodes (next_of nodes x (suc level)) key ≡ false =
              ap (λ t. steps_to less nodes t key) next ∙ stops (suc level) post hi in
            find_down fuel level x prev stop
            ∙ find_loop-result fuel level x pre post (x ∷ prev) pos lo hi
                (λ i le. links i (omega arith)) (omega arith)
            ∙ ap (λ y. some (head_of post, prevs level x pre (y ∷ prev)))
                (sym (last_of-none height (suc level) x pre empty))
        | inr (front, a, back, split, skipped, high) ↦
            find_loop-more fuel (suc level) x pre post prev
              (λ y rest lo' links' e.
                find_loop-result fuel (suc level) y rest post prev pos lo' hi links' e)
              lo links enough front a back split skipped high
      ]

-- A list whose levels are linked in one order of its nodes, each node on so many levels from below.
pub record Chained {ℓ} {K : Type ℓ} (l : SkipList K) (height : ℕ → ℕ) (order : List ℕ)
    : Type 0 where
  pub linked : (i : ℕ) → i < l.cur_height → Links l.nodes i 0 (tall height i order)
  pub on_level_0 : (a : ℕ) → 0 < height a
  pub has_level : 0 < l.cur_height
  pub stored : length order < length l.nodes

-- In a list that is linked in an order that has first the nodes below the key and then the others,
-- `FindGreaterOrEqual` ends: it returns the first node that is not below the key, and leaves in
-- `prev`, for each level, the last node below the key, or the head.
pub find_greater_or_equal-result {ℓ} :
    {K : Type ℓ} (less : K → K → Bool) (l : SkipList K) (height : ℕ → ℕ) (key : K)
    (pre post : List ℕ)
    → Chained l height (pre ++ post)
    → All (Below less l.nodes height key) pre
    → All (NotBelow less l.nodes height key) post
    → find_greater_or_equal less l key
      ≡ some (head_of post, prevs less l.nodes height key (l.cur_height - 1) 0 pre [])
unfolding find_greater_or_equal
find_greater_or_equal-result less l height key pre post c lo hi =
    find_loop-result less l.nodes height key (length l.nodes + l.cur_height) (l.cur_height - 1) 0
      pre post [] c.on_level_0 lo hi (λ i le. c.linked i (omega (arith, c.has_level)))
      (omega (arith, c.has_level, c.stored, length-append pre post))
