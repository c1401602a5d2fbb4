-- ===== src/Skiplist/Refines.antt =====
-- The list of src/db/skiplist.h implements a sorted sequence of keys.
use mini_leveldb.Prelude.{
  ℕ, zero, suc, ◌<◌, Bool, ◌≡◌, refl, ap, sym, ◌∙◌, subst, inl, inr, Option, none, some, List, [],
  ◌∷◌, ◌++◌, length, Option-cases, get_or, replicate, arith,
}
use mini_leveldb.Skiplist.{
  Node, SkipList, new_list, new_node, node_at, next_of, insert, find_greater_or_equal,
  random_height, all_keys, keys_from, max_height,
}
use mini_leveldb.Skiplist.Random.{random_init-IsSeed}
use mini_leveldb.Skiplist.Chain.{head_of, last_of, tall, tall_all, Links}
use mini_leveldb.Skiplist.Search.{find_greater_or_equal-result}
use mini_leveldb.Skiplist.Store.{entries}
use mini_leveldb.Skiplist.Splice.{All-front, All-back}
use mini_leveldb.Skiplist.Prev.{prev_entries}
use mini_leveldb.Skiplist.Insertion.{IsList, IsList-Chained, inserted, insert-found}
use mini_leveldb.Skiplist.Inserted.{IsList-inserted}
use mini_leveldb.Skiplist.Sequence.{
  WeakOrder, Sorted, lower, upper, insert_key, lower-upper, lower_below, upper_not_below,
  insert_key-Sorted,
}
use mini_leveldb.Skiplist.Keys.{
  key_of, KeysAt, nil, cons, key_of-link_new, key_of-link_prev, key_of-grown_old, key_of-grown_new,
  KeysAt-same, KeysAt-append, KeysAt-split, KeysAt-Below, KeysAt-NotBelow,
}

-- The list holds these keys, in this order.
pub record Represents {ℓ} {K : Type ℓ} (l : SkipList K) (keys : List K) : Type ℓ where
  pub height : ℕ → ℕ
  pub order : List ℕ
  pub is_list : IsList l height order
  pub keys_at : KeysAt l.nodes order keys

module _ {ℓ} {K : Type ℓ} (less : K → K → Bool) (o : WeakOrder less) (l : SkipList K)
    (keys : List K) (key : K) (r : Represents l keys) (s : Sorted less keys) where
  -- Where a search stops.
  pub record Position : Type ℓ where
    pub pre : List ℕ
    pub post : List ℕ
    pub is_list : IsList l r.height (pre ++ post)
    pub low : KeysAt l.nodes pre (lower less key keys)
    pub high : KeysAt l.nodes post (upper less key keys)

  pub position : Position
  position =
      let (pre, post, split, low, high) =
        KeysAt-split l.nodes r.order (lower less key keys) (upper less key keys)
          (subst (KeysAt l.nodes r.order) (sym (lower-upper less key keys)) r.keys_at) in
      record {
        pre = pre;
        post = post;
        is_list = subst (IsList l r.height) (sym split) r.is_list;
        low = low;
        high = high;
      }

  pub search :
      (p : Position)
      → (prev : List ℕ) × (find_greater_or_equal less l key ≡ some (head_of p.post, prev))
  search p = (
    _,
    find_greater_or_equal-result less l r.height key p.pre p.post
        (IsList-Chained l r.height (p.pre ++ p.post) p.is_list)
        (KeysAt-Below less l.nodes r.height key p.pre (lower less key keys) p.low
          (lower_below less key keys))
        (KeysAt-NotBelow less l.nodes r.height key p.post (upper less key keys) p.high
          (upper_not_below less o key keys s)),
  )

  insertion :
      (p : Position)
      → (l' : SkipList K) × (insert less key l ≡ some l') × Represents l' (insert_key less key keys)
  insertion p =
      let c = p.is_list in
      let found =
        find_greater_or_equal-result less l r.height key p.pre p.post
          (IsList-Chained l r.height (p.pre ++ p.post) c)
          (KeysAt-Below less l.nodes r.height key p.pre (lower less key keys) p.low
            (lower_below less key keys))
          (KeysAt-NotBelow less l.nodes r.height key p.post (upper less key keys) p.high
            (upper_not_below less o key keys s)) in
      let run =
        insert-found less key l _ _ found
        ∙ ap (λ prev. some (inserted key l prev))
            (prev_entries less l.nodes r.height key l.cur_height (random_height l.seed).0 p.pre
              c.has_level c.low) in
      let prev = entries (λ i. last_of r.height i 0 p.pre) (random_height l.seed).0 0 in
      let same : (b : ℕ)
          → key_of (inserted key l prev).nodes b ≡ key_of (l.nodes ++ (new_node key ∷ [])) b =
        λ b.
          key_of-link_prev (length l.nodes) 0 prev _ b
          ∙ key_of-link_new (length l.nodes) 0 prev _ b in
      let old : (b : ℕ)
          → b < length l.nodes
          → key_of (inserted key l prev).nodes b ≡ key_of l.nodes b =
        λ b lt. same b ∙ key_of-grown_old l.nodes key b lt in
      let new : key_of (inserted key l prev).nodes (length l.nodes) ≡ some key =
        same (length l.nodes) ∙ key_of-grown_new l.nodes key in
      (
        _,
        run,
        record {
          height = _;
          order = _;
          is_list = IsList-inserted key l r.height p.pre p.post c;
          keys_at =
              KeysAt-append _ p.pre (length l.nodes ∷ p.post) (lower less key keys)
                (key ∷ upper less key keys)
                (KeysAt-same l.nodes _ (length l.nodes) p.pre (lower less key keys) old p.low
                  (All-front (λ b. b < length l.nodes) p.pre p.post c.inside.1))
                (cons new (
                  KeysAt-same l.nodes _ (length l.nodes) p.post (upper less key keys) old p.high
                    (All-back (λ b. b < length l.nodes) p.pre p.post c.inside.1)));
        },
      )

-- A new list holds no key.
pub new_list-Represents {ℓ} : {K : Type ℓ} (empty_key : K) → Represents (new_list empty_key) []
unfolding new_list new_node next_of node_at tall Links
new_list-Represents empty_key = record {
  height = λ a. 1;
  order = [];
  is_list = record {
    linked = nothing;
    on_level_0 = λ a. omega arith;
    low = λ a. omega arith;
    has_level = omega arith;
    few_levels = omega arith;
    wide = (refl, tt);
    distinct = (tt, tt);
    inside = (omega arith, tt);
    stored = omega arith;
    seeded = random_init-IsSeed 0x9e3779b9;
  };
  keys_at = nil;
}
  where
    no_pointer : (m j : ℕ) → get_or (replicate {A = Option ℕ} m none) j none ≡ none
    no_pointer zero j = refl
    no_pointer (suc m) zero = refl
    no_pointer (suc m) (suc j) = no_pointer m j

    nothing :
        (i : ℕ) → i < max_height → get_or (replicate {A = Option ℕ} max_height none) i none ≡ none
    nothing i lt = no_pointer max_height i

-- `Insert` into a list that holds keys in order ends, and the list then holds the same keys with the
-- new one in front of the first that is not below it, in order again.
pub insert-refines {ℓ} :
    {K : Type ℓ} (less : K → K → Bool) (o : WeakOrder less) (l : SkipList K) (keys : List K)
    (key : K)
    → Represents l keys
    → Sorted less keys
    → (l' : SkipList K) × (insert less key l ≡ some l')
      × Represents l' (insert_key less key keys)
      × Sorted less (insert_key less key keys)
insert-refines less o l keys key r s =
    let (l', run, r') = insertion less o l keys key r s (position less o l keys key r s) in
    (l', run, r', insert_key-Sorted less o key keys s)

keys_from-some {ℓ} :
    {K : Type ℓ} (nodes : List (Node K)) (fuel a : ℕ) (k : K)
    → key_of nodes a ≡ some k
    → keys_from (suc fuel) nodes (some a) ≡ k ∷ keys_from fuel nodes (next_of nodes a 0)
unfolding keys_from key_of next_of
keys_from-some nodes fuel a k h = elim (Option-cases (node_at nodes a)) [
  | inl e ↦ ground (arith, e, h)
  | inr (n, e) ↦ ground (arith, e, h)
]

keys_from-KeysAt {ℓ} :
    {K : Type ℓ} (nodes : List (Node K)) (fuel x : ℕ) (order : List ℕ) (keys : List K)
    → length order < fuel
    → KeysAt nodes order keys
    → Links nodes 0 x order
    → keys_from fuel nodes (next_of nodes x 0) ≡ keys
unfolding keys_from Links
keys_from-KeysAt nodes zero x order keys lt at links = absurd (omega arith)
keys_from-KeysAt nodes (suc fuel) x _ _ lt nil links = ap (keys_from (suc fuel) nodes) links
keys_from-KeysAt nodes (suc fuel) x _ _ lt (cons {a} {k} {order} {keys} h hs) (next, links) =
    ap (keys_from (suc fuel) nodes) next
    ∙ keys_from-some nodes fuel a k h
    ∙ ap (λ t. k ∷ t) (keys_from-KeysAt nodes fuel a order keys (omega arith) hs links)

-- An iterator visits the keys in order, from `SeekToFirst` on.
pub all_keys-eq-keys {ℓ} :
    {K : Type ℓ} (l : SkipList K) (keys : List K) → Represents l keys → all_keys l ≡ keys
unfolding all_keys
all_keys-eq-keys l keys r =
    let c = r.is_list in
    keys_from-KeysAt l.nodes (length l.nodes) 0 r.order keys c.stored r.keys_at (
      subst (Links l.nodes 0 0) (tall_all r.height c.on_level_0 r.order) (c.linked 0 (omega arith)))
