-- ===== src/Skiplist.antt =====
-- src/db/skiplist.h: the random numbers and the list. Nodes stand in a store and are named by their
-- place in it; the head is node 0.
pub mod Random
pub mod Chain
pub mod Search
pub mod Store
pub mod Splice
pub mod Prev
pub mod Insertion
pub mod Inserted
pub mod Sequence
pub mod Keys
pub mod Refines
pub mod Contains
mod Tests
use mini_leveldb.Prelude.{
  ℕ, zero, suc, ◌+◌, ◌-◌, ◌*◌, ◌/◌, ◌%◌, ◌^◌, ltb, leb, ◌==◌, ◌||◌, ◌&&◌, not, if◌then◌else◌, Bool,
  true, false, Option, none, some, List, [], ◌∷◌, ◌++◌, length, take, drop, get_or, replicate, u32,
  u64, bit_and, ◌>>>◌,
}

-- `Random::Random` and `Random::Next`; a generator is its seed.
unfoldable pub random_init : ℕ → ℕ
random_init s =
    let seed = bit_and s 0x7fffffff in if seed == 0 || seed == 2147483647 then 1 else seed

unfoldable pub random_next : ℕ → ℕ
random_next seed =
    let product = u64 (seed * 16807) in
    let next = u32 ((product >>> 31) + bit_and product 2147483647) in
    if ltb 2147483647 next then next - 2147483647 else next

abbrev pub max_height : ℕ
max_height = 12

abbrev pub branching : ℕ
branching = 4

-- The loop of `RandomHeight`: the height and the seed behind it. `&&` draws no number once the
-- height is the largest.
pub random_height_loop : ℕ → ℕ → ℕ → ℕ × ℕ
random_height_loop zero h seed = (h, seed)
random_height_loop (suc fuel) h seed =
    let seed' = random_next seed in
    let higher = random_height_loop fuel (h + 1) seed' in
    if ltb h max_height then (if seed' % branching == 0 then higher else (h, seed')) else (h, seed)

unfoldable pub random_height : ℕ → ℕ × ℕ
unfolding random_height_loop
random_height seed = random_height_loop max_height 1 seed

-- `Node`, its twelve pointers a list.
pub record Node {ℓ} (K : Type ℓ) : Type ℓ where
  pub key : K
  pub next : List (Option ℕ)

pub record SkipList {ℓ} (K : Type ℓ) : Type ℓ where
  pub nodes : List (Node K)
  pub cur_height : ℕ
  pub seed : ℕ

unfoldable pub set_at : List (Option ℕ) → ℕ → Option ℕ → List (Option ℕ)
set_at [] i p = []
set_at (q ∷ ps) zero p = p ∷ ps
set_at (q ∷ ps) (suc i) p = q ∷ set_at ps i p

module _ {ℓ} {K : Type ℓ} where
  unfoldable pub new_node : K → Node K
  new_node key = record { key = key; next = replicate max_height none }

  -- The constructor; `empty_key` is `Key{}`.
  unfoldable pub new_list : K → SkipList K
  new_list empty_key = record {
    nodes = new_node empty_key ∷ [];
    cur_height = 1;
    seed = random_init 0x9e3779b9;
  }

  unfoldable pub node_at : List (Node K) → ℕ → Option (Node K)
  node_at [] a = none
  node_at (n ∷ ns) zero = some n
  node_at (n ∷ ns) (suc a) = node_at ns a

  -- `Node::Next`
  unfoldable pub next_of : List (Node K) → ℕ → ℕ → Option ℕ
  unfolding node_at
  next_of nodes a level = elim (node_at nodes a) [ none ↦ none | some n ↦ get_or n.next level none ]

  -- `x->next_[level].store(p)`
  unfoldable pub store_next : List (Node K) → ℕ → ℕ → Option ℕ → List (Node K)
  unfolding set_at
  store_next [] a level p = []
  store_next (n ∷ ns) zero level p = record n { next = set_at n.next level p } ∷ ns
  store_next (n ∷ ns) (suc a) level p = n ∷ store_next ns a level p

  module _ (less : K → K → Bool) where
    -- Whether the loop steps to `next`: `next != nullptr && compare_(next->key, key)`.
    unfoldable pub steps_to : List (Node K) → Option ℕ → K → Bool
    unfolding node_at
    steps_to nodes none key = false
    steps_to nodes (some a) key = elim (node_at nodes a) [ none ↦ false | some n ↦ less n.key key ]

    -- The loop of `FindGreaterOrEqual`. `prev` holds the entries of the array from the level above on,
    -- which the loop fills from the top down; `none` means that the fuel ran out.
    pub find_loop : ℕ → List (Node K) → K → ℕ → ℕ → List ℕ → Option (Option ℕ × List ℕ)
    find_loop zero nodes key x level prev = none
    find_loop (suc fuel) nodes key x level prev =
        let next = next_of nodes x level in
        elim (steps_to nodes next key) [
          | true ↦ elim next [ none ↦ none | some a ↦ find_loop fuel nodes key a level prev ]
          | false ↦ elim (level == 0) [
            | true ↦ some (next, x ∷ prev)
            | false ↦ find_loop fuel nodes key x (level - 1) (x ∷ prev)
          ]
        ]

    -- No round repeats a node or a level.
    unfoldable pub find_greater_or_equal : SkipList K → K → Option (Option ℕ × List ℕ)
    unfolding find_loop
    find_greater_or_equal l key =
        find_loop (length l.nodes + l.cur_height) l.nodes key 0 (l.cur_height - 1) []

    -- `Contains`
    unfoldable pub contains : SkipList K → K → Option Bool
    contains l key = elim (find_greater_or_equal l key) [
      | none ↦ none
      | some (none, prev) ↦ some false
      | some (some a, prev) ↦ elim (node_at l.nodes a) [
        | none ↦ some false
        | some x ↦ some (not (less x.key key) && not (less key x.key))
      ]
    ]

  -- The two loops of `Insert` from level `i` on, with the entries of `prev` from there on.
  unfoldable pub link_new : ℕ → ℕ → List ℕ → List (Node K) → List (Node K)
  link_new n i [] nodes = nodes
  link_new n i (p ∷ prev) nodes = link_new n (i + 1) prev (store_next nodes n i (next_of nodes p i))

  unfoldable pub link_prev : ℕ → ℕ → List ℕ → List (Node K) → List (Node K)
  link_prev n i [] nodes = nodes
  link_prev n i (p ∷ prev) nodes = link_prev n (i + 1) prev (store_next nodes p i (some n))

  -- `Insert`
  unfoldable pub insert : (K → K → Bool) → K → SkipList K → Option (SkipList K)
  unfolding link_new link_prev
  insert less key l = elim (find_greater_or_equal less l key) [
    | none ↦ none
    | some (found, prev) ↦
        let (h, seed') = random_height l.seed in
        let n = length l.nodes in
        let prev' = take h (prev ++ replicate (h - l.cur_height) 0) in
        let with_node = l.nodes ++ (new_node key ∷ []) in
        some record {
          nodes = link_prev n 0 prev' (link_new n 0 prev' with_node);
          cur_height = if ltb l.cur_height h then h else l.cur_height;
          seed = seed';
        }
  ]

-- The keys of the nodes along level 0, what an `Iterator` visits from `SeekToFirst` on; the fuel
-- bounds the number of nodes.
unfoldable pub keys_from {ℓ} : {K : Type ℓ} → ℕ → List (Node K) → Option ℕ → List K
keys_from zero nodes p = []
keys_from (suc fuel) nodes none = []
keys_from (suc fuel) nodes (some a) = elim (node_at nodes a) [
  | none ↦ []
  | some n ↦ n.key ∷ keys_from fuel nodes (get_or n.next 0 none)
]

unfoldable pub all_keys {ℓ} : {K : Type ℓ} → SkipList K → List K
unfolding keys_from next_of
all_keys l = keys_from (length l.nodes) l.nodes (next_of l.nodes 0 0)
