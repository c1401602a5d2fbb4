-- ===== src/Skiplist/Tests.antt =====
-- Runs on skip lists of numbers.
use mini_leveldb.Prelude.{
  ℕ, zero, suc, ◌*◌, ◌%◌, ◌<◌, ltb, ◌==◌, if◌then◌else◌, ◌≡◌, refl, Option, none, some, List, [],
  ◌∷◌, arith, replicate,
}
use mini_leveldb.Skiplist.{
  SkipList, new_list, new_node, insert, all_keys, contains, find_greater_or_equal, next_of,
  store_next, steps_to, random_init, random_next, random_height,
}
use mini_leveldb.Skiplist.Random.{IsSeed, IsDrawn, random_next-eq-mod, random_height-IsDrawn}
use mini_leveldb.Skiplist.Chain.{Links, tall}
use mini_leveldb.Skiplist.Sequence.{WeakOrder, Sorted, insert_key}
use mini_leveldb.Skiplist.Refines.{
  Represents, new_list-Represents, insert-refines, all_keys-eq-keys,
}
use mini_leveldb.Skiplist.Contains.{has, contains-eq-has}
use mini_leveldb.Skiplist.Search.{Chained, find_greater_or_equal-result, prevs}

abbrev insert_all : List ℕ → SkipList ℕ → Option (SkipList ℕ)
insert_all [] l = some l
insert_all (k ∷ ks) l = elim (insert ltb k l) [ none ↦ none | some l' ↦ insert_all ks l' ]

abbrev keys_of : Option (SkipList ℕ) → List ℕ
keys_of none = []
keys_of (some l) = all_keys l

insert_run : keys_of (insert_all (5 ∷ (3 ∷ (9 ∷ (4 ∷ [])))) (new_list 0)) ≡ 3 ∷ (4 ∷ (5 ∷ (9 ∷ [])))
unfolding insert find_greater_or_equal steps_to next_of store_next new_list new_node random_height
    random_init random_next all_keys
insert_run = refl

random_next-eq-mod_example :
    (random_next 12345 ≡ 12345 * 16807 % 2147483647) × IsSeed (random_next 12345)
random_next-eq-mod_example =
    random_next-eq-mod 12345 (record { positive = omega arith; below = omega arith })

random_height-IsDrawn_example : IsDrawn (random_height 12345)
random_height-IsDrawn_example =
    random_height-IsDrawn 12345 (record { positive = omega arith; below = omega arith })

-- The head, a node of height 2 and a node of height 1.
abbrev two_nodes : SkipList ℕ
two_nodes = record {
  nodes =
      record { key = 0; next = some 1 ∷ (some 1 ∷ replicate 10 none) }
      ∷ (record { key = 3; next = some 2 ∷ replicate 11 none }
          ∷ (record { key = 5; next = replicate 12 none } ∷ []));
  cur_height = 2;
  seed = 1;
}

abbrev heights : ℕ → ℕ
heights a = if a == 1 then 2 else 1

two_nodes-Chained : Chained two_nodes heights (1 ∷ (2 ∷ []))
unfolding tall Links next_of
two_nodes-Chained = record {
  linked = linked;
  on_level_0 = λ a. ground arith;
  has_level = omega arith;
  stored = omega arith;
}
  where
    linked : (i : ℕ) → i < 2 → Links two_nodes.nodes i 0 (tall heights i (1 ∷ (2 ∷ [])))
    linked zero h = (refl, (refl, refl))
    linked (suc zero) h = (refl, refl)
    linked (suc (suc i)) h = absurd (omega arith)

find_greater_or_equal-result_example :
    find_greater_or_equal ltb two_nodes 4
    ≡ some (some 2, prevs ltb two_nodes.nodes heights 4 1 0 (1 ∷ []) [])
unfolding steps_to
find_greater_or_equal-result_example =
    find_greater_or_equal-result ltb two_nodes heights 4 (1 ∷ []) (2 ∷ []) two_nodes-Chained
      (refl, tt) (refl, tt)

ltb-WeakOrder : WeakOrder ltb
ltb-WeakOrder = record { asym = λ a b h. ground arith; neg_trans = λ a b c h1 h2. ground arith }

insert-refines_example :
    (l' : SkipList ℕ) × (insert ltb 5 (new_list 0) ≡ some l')
    × Represents l' (insert_key ltb 5 [])
    × Sorted ltb (insert_key ltb 5 [])
insert-refines_example =
    insert-refines ltb ltb-WeakOrder (new_list 0) [] 5 (new_list-Represents 0) tt

all_keys-eq-keys_example : all_keys insert-refines_example.0 ≡ insert_key ltb 5 []
all_keys-eq-keys_example = all_keys-eq-keys _ (insert_key ltb 5 []) insert-refines_example.2

contains-eq-has_example : contains ltb (new_list 0) 5 ≡ some (has ltb 5 [])
contains-eq-has_example =
    contains-eq-has ltb ltb-WeakOrder (new_list 0) [] 5 (new_list-Represents 0) tt
