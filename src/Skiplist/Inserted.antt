-- ===== src/Skiplist/Inserted.antt =====
-- `Insert` of src/db/skiplist.h keeps the invariant of the list.
use mini_leveldb.Prelude.{
  ℕ, ◌+◌, ◌≤◌, ◌<◌, ◌==◌, ltb, if◌then◌else◌, true, false, Bool-cases, ltb→lt, ltb→le, ◌≡◌, sym,
  ◌∙◌, subst, ◌⊎◌, inl, inr, List, [], ◌∷◌, ◌++◌, length, length-append, All, arith,
}
use mini_leveldb.Skiplist.{
  Node, SkipList, new_node, next_of, link_new, link_prev, random_height, max_height,
}
use mini_leveldb.Skiplist.Random.{IsDrawn, random_height-IsDrawn}
use mini_leveldb.Skiplist.Chain.{tall, tall-append, last_of, Links}
use mini_leveldb.Skiplist.Store.{
  Wide, entries, next_of-new_node, link_new-sizes, link_new_others, link_new_at, link_prev-sizes,
  link_prev_others, link_prev_at,
}
use mini_leveldb.Skiplist.Splice.{
  Apart, Distinct, last_of-tall, All-front, All-tall, Distinct-tall, Spliced, Links-splice,
  All-between, Distinct-between,
}
use mini_leveldb.Skiplist.Insertion.{
  IsList, inserted, Wide-append, Links-same, last_or-inside, inside-Apart, with_height, tall_high,
  tall_low,
}

wider : (n m : ℕ) (xs : List ℕ) → n ≤ m → All (λ b. b < n) xs → All (λ b. b < m) xs
wider n m [] le h = tt
wider n m (a ∷ xs) le (h, hs) = (omega arith, wider n m xs le hs)

module _ {ℓ} {K : Type ℓ} (key : K) (l : SkipList K) (height : ℕ → ℕ) (pre post : List ℕ)
    (c : IsList l height (pre ++ post)) where
  abbrev new_address : ℕ
  new_address = length l.nodes

  abbrev drawn : ℕ
  drawn = (random_height l.seed).0

  -- The last node below the key on a level.
  abbrev before : ℕ → ℕ
  before i = last_of height i 0 pre

  abbrev grown : List (Node K)
  grown = l.nodes ++ (new_node key ∷ [])

  abbrev started : List (Node K)
  started = link_new new_address 0 (entries before drawn 0) grown

  abbrev pub linked_nodes : List (Node K)
  linked_nodes = link_prev new_address 0 (entries before drawn 0) started

  IsDrawn-IsDrawn : IsDrawn (random_height l.seed)
  IsDrawn-IsDrawn = random_height-IsDrawn l.seed c.seeded

  drawn_bounds : (0 < drawn) × (drawn ≤ max_height)
  drawn_bounds = (IsDrawn-IsDrawn.positive, IsDrawn-IsDrawn.at_most)

  pre_inside : All (λ b. b < new_address) (0 ∷ pre)
  pre_inside = (c.inside.0, All-front (λ b. b < new_address) pre post c.inside.1)

  before_inside : (i : ℕ) → before i < new_address
  before_inside i =
      subst (λ t. t < new_address) (sym (last_of-tall height i 0 pre))
        (last_or-inside new_address 0 (tall height i pre)
          (pre_inside.0, All-tall (λ b. b < new_address) height i pre pre_inside.1))

  order-Apart : All (Apart new_address) (0 ∷ (pre ++ post))
  order-Apart = inside-Apart new_address (0 ∷ (pre ++ post)) c.inside

  size_grown : length grown ≡ new_address + 1
  size_grown = omega (arith, length-append l.nodes (new_node key ∷ []))

  Wide-grown : Wide grown
  Wide-grown = Wide-append l.nodes key c.wide

  sizes_started : Wide started × (length started ≡ length grown)
  sizes_started = link_new-sizes before new_address drawn 0 grown Wide-grown

  sizes_linked : Wide linked_nodes × (length linked_nodes ≡ length started)
  sizes_linked = link_prev-sizes before new_address drawn 0 started sizes_started.0

  before-started : (i : ℕ) → before i < length started
  before-started i = omega (arith, before_inside i, size_grown, sizes_started)

  top : 0 + drawn ≤ max_height
  top = omega (arith, drawn_bounds)

  new_inside : new_address < length grown
  new_inside = omega (arith, size_grown)

  -- A node that is not the new one keeps its pointer where it is not the level's entry.
  kept :
      (b i : ℕ)
      → Apart new_address b
      → ((b == before i) ≡ false) ⊎ ((i < 0) ⊎ (0 + drawn ≤ i))
      → next_of linked_nodes b i ≡ next_of l.nodes b i
  kept b i other o =
      link_prev_others before new_address drawn 0 started b i before-started sizes_started.0 top o
      ∙ link_new_others before new_address drawn 0 grown b i new_inside Wide-grown top (inl other)
      ∙ next_of-new_node l.nodes key b i

  spliced : (i : ℕ) → i < drawn → Spliced l.nodes linked_nodes new_address i (before i)
  spliced i lt = record {
    at_prev =
        link_prev_at before new_address drawn 0 started i before-started sizes_started.0 top
          (omega arith) (omega arith);
    at_new =
        link_prev_others before new_address drawn 0 started new_address i before-started
          sizes_started.0 top (inl (ground (arith, before_inside i)))
        ∙ link_new_at before new_address drawn 0 grown i new_inside Wide-grown top
            (λ m. ground (arith, before_inside m)) (omega arith) (omega arith)
        ∙ next_of-new_node l.nodes key (before i) i;
    others = λ b away other. kept b i other (inl away);
  }

  abbrev heights : ℕ → ℕ
  heights = with_height new_address drawn height

  abbrev order : List ℕ
  order = pre ++ (new_address ∷ post)

  parts : (i : ℕ) → tall height i (pre ++ post) ≡ tall height i pre ++ tall height i post
  parts i = tall-append height i pre post

  levels : (i : ℕ) → i < max_height → Links linked_nodes i 0 (tall heights i order)
  levels i lt = elim (Bool-cases (ltb i drawn)) [
    | inl e ↦
        let high = ltb→lt i drawn e in
        subst (Links linked_nodes i 0)
          (sym (tall_high new_address drawn height i pre post order-Apart.1 high))
          (Links-splice l.nodes linked_nodes new_address i 0 (tall height i pre)
            (tall height i post)
            (subst (Spliced l.nodes linked_nodes new_address i) (last_of-tall height i 0 pre)
              (spliced i high))
            (subst (λ t. Distinct (0 ∷ t)) (parts i)
              (
                All-tall (Apart 0) height i (pre ++ post) c.distinct.0,
                Distinct-tall height i (pre ++ post) c.distinct.1,
              ))
            (subst (λ t. All (Apart new_address) (0 ∷ t)) (parts i)
              (order-Apart.0, All-tall (Apart new_address) height i (pre ++ post) order-Apart.1))
            (subst (Links l.nodes i 0) (parts i) (c.linked i lt)))
    | inr e ↦
        let low = ltb→le i drawn e in
        subst (Links linked_nodes i 0)
          (sym (tall_low new_address drawn height i pre post order-Apart.1 low))
          (Links-same l.nodes linked_nodes new_address i 0 (tall height i (pre ++ post))
            (λ b other. kept b i other (inr (inr (omega arith))))
            (order-Apart.0, All-tall (Apart new_address) height i (pre ++ post) order-Apart.1)
            (c.linked i lt))
  ]

  size_linked : length linked_nodes ≡ new_address + 1
  size_linked = omega (arith, sizes_linked.1, sizes_started.1, size_grown)

  pub IsList-inserted : IsList (inserted key l (entries before drawn 0)) heights order
  IsList-inserted = record {
    linked = levels;
    on_level_0 = λ a. positive a (Bool-cases (a == new_address));
    low = λ a. lower a (Bool-cases (a == new_address));
    has_level = ground (arith, c.has_level, drawn_bounds);
    few_levels = ground (arith, c.few_levels, drawn_bounds);
    wide = sizes_linked.0;
    distinct = Distinct-between (0 ∷ pre) new_address post c.distinct order-Apart;
    inside =
        All-between (λ b. b < length linked_nodes) (0 ∷ pre) new_address post
          (wider new_address (length linked_nodes) (0 ∷ (pre ++ post)) (omega (arith, size_linked))
            c.inside)
          (omega (arith, size_linked));
    stored = omega (
      arith,
      size_linked,
      c.stored,
      length-append pre post,
      length-append pre (new_address ∷ post),
    );
    seeded = IsDrawn-IsDrawn.seed;
  }
    where
      positive :
          (a : ℕ) → ((a == new_address) ≡ true) ⊎ ((a == new_address) ≡ false) → 0 < heights a
      positive a (inl e) = ground (arith, e, drawn_bounds)
      positive a (inr e) = ground (arith, e, c.on_level_0 a)

      lower :
          (a : ℕ)
          → ((a == new_address) ≡ true) ⊎ ((a == new_address) ≡ false)
          → heights a ≤ (if ltb l.cur_height drawn then drawn else l.cur_height)
      lower a (inl e) = ground (arith, e)
      lower a (inr e) = ground (arith, e, c.low a)
