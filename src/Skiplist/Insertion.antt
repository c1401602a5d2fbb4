-- ===== src/Skiplist/Insertion.antt =====
-- `Insert` of src/db/skiplist.h keeps the levels linked: it puts the new node in behind the nodes
-- below its key, on as many levels as the generator draws.
use mini_leveldb.Prelude.{
  ℕ, ◌-◌, ◌≤◌, ◌<◌, ◌==◌, ltb, if◌then◌else◌, Bool, ◌≡◌, refl, ap, ap₂, sym, ◌∙◌, Option, some,
  List, [], ◌∷◌, ◌++◌, length, take, replicate, All, arith,
}
use mini_leveldb.Skiplist.{
  Node, SkipList, new_node, next_of, link_new, link_prev, insert, find_greater_or_equal,
  random_height, max_height,
}
use mini_leveldb.Skiplist.Random.{IsSeed}
use mini_leveldb.Skiplist.Chain.{tall, tall-append, Links}
use mini_leveldb.Skiplist.Search.{Chained}
use mini_leveldb.Skiplist.Store.{Wide}
use mini_leveldb.Skiplist.Splice.{Apart, Distinct, last_or, All-front, All-back}

-- The invariant of the list: the nodes stand in one order, of which each level links those that are
-- tall enough.
pub record IsList {ℓ} {K : Type ℓ} (l : SkipList K) (height : ℕ → ℕ) (order : List ℕ) : Type 0 where
  pub linked : (i : ℕ) → i < max_height → Links l.nodes i 0 (tall height i order)
  pub on_level_0 : (a : ℕ) → 0 < height a
  pub low : (a : ℕ) → height a ≤ l.cur_height
  pub has_level : 0 < l.cur_height
  pub few_levels : l.cur_height ≤ max_height
  pub wide : Wide l.nodes
  pub distinct : Distinct (0 ∷ order)
  pub inside : All (λ b. b < length l.nodes) (0 ∷ order)
  pub stored : length order < length l.nodes
  pub seeded : IsSeed l.seed

pub IsList-Chained {ℓ} :
    {K : Type ℓ} (l : SkipList K) (height : ℕ → ℕ) (order : List ℕ)
    → IsList l height order
    → Chained l height order
IsList-Chained l height order c = record {
  linked = λ i lt. c.linked i (omega (arith, c.few_levels));
  on_level_0 = c.on_level_0;
  has_level = c.has_level;
  stored = c.stored;
}

-- The list after `Insert`, where `prev` is the array.
abbrev pub inserted {ℓ} : {K : Type ℓ} → K → SkipList K → List ℕ → SkipList K
inserted key l prev =
    let n = length l.nodes in
    record {
      nodes = link_prev n 0 prev (link_new n 0 prev (l.nodes ++ (new_node key ∷ [])));
      cur_height =
          if ltb l.cur_height (random_height l.seed).0
          then (random_height l.seed).0
          else l.cur_height;
      seed = (random_height l.seed).1;
    }

pub insert-found {ℓ} :
    {K : Type ℓ} (less : K → K → Bool) (key : K) (l : SkipList K) (found : Option ℕ) (prev : List ℕ)
    → find_greater_or_equal less l key ≡ some (found, prev)
    → insert less key l
      ≡ some (
          inserted key l (
            take
              (random_height l.seed).0
              (prev ++ replicate ((random_height l.seed).0 - l.cur_height) 0)))
unfolding insert
insert-found less key l found prev e = ground (arith, e)

pub Wide-append {ℓ} :
    {K : Type ℓ} (nodes : List (Node K)) (key : K)
    → Wide nodes
    → Wide (nodes ++ (new_node key ∷ []))
unfolding new_node
Wide-append [] key w = (refl, tt)
Wide-append (n ∷ nodes) key (h, w) = (h, Wide-append nodes key w)

-- A level whose pointers are the same.
pub Links-same {ℓ} :
    {K : Type ℓ} (nodes nodes' : List (Node K)) (n i x : ℕ) (xs : List ℕ)
    → ((b : ℕ) → Apart n b → next_of nodes' b i ≡ next_of nodes b i)
    → All (Apart n) (x ∷ xs)
    → Links nodes i x xs
    → Links nodes' i x xs
unfolding Links
Links-same nodes nodes' n i x [] same (f, fs) links = same x f ∙ links
Links-same nodes nodes' n i x (y ∷ xs) same (f, fs) (next, links) =
    (same x f ∙ next, Links-same nodes nodes' n i y xs same fs links)

pub last_or-inside : (n x : ℕ) (xs : List ℕ) → All (λ b. b < n) (x ∷ xs) → last_or x xs < n
unfolding last_or
last_or-inside n x [] (h, hs) = h
last_or-inside n x (a ∷ xs) (h, hs) = last_or-inside n a xs hs

pub inside-Apart : (n : ℕ) (xs : List ℕ) → All (λ b. b < n) xs → All (Apart n) xs
inside-Apart n [] h = tt
inside-Apart n (a ∷ xs) (h, hs) = (ground (arith, h), inside-Apart n xs hs)

-- The heights with that of a new node.
abbrev pub with_height : ℕ → ℕ → (ℕ → ℕ) → ℕ → ℕ
with_height n h height b = if b == n then h else height b

pub tall-with_height :
    (n h : ℕ) (height : ℕ → ℕ) (i : ℕ) (xs : List ℕ)
    → All (Apart n) xs
    → tall (with_height n h height) i xs ≡ tall height i xs
unfolding tall
tall-with_height n h height i [] f = refl
tall-with_height n h height i (a ∷ xs) (f, fs) =
    ground (arith, f, tall-with_height n h height i xs fs)

pub tall_high :
    (n h : ℕ) (height : ℕ → ℕ) (i : ℕ) (pre post : List ℕ)
    → All (Apart n) (pre ++ post)
    → i < h
    → tall (with_height n h height) i (pre ++ (n ∷ post))
      ≡ tall height i pre ++ (n ∷ tall height i post)
tall_high n h height i pre post f lt =
    let front = tall-with_height n h height i pre (All-front (Apart n) pre post f) in
    let back = tall-with_height n h height i post (All-back (Apart n) pre post f) in
    let here : tall (with_height n h height) i (n ∷ post)
        ≡ n ∷ tall (with_height n h height) i post =
      unfold tall in ground (arith, lt) in
    tall-append (with_height n h height) i pre (n ∷ post)
    ∙ ap₂ (λ x y. x ++ y) front (here ∙ ap (λ t. n ∷ t) back)

pub tall_low :
    (n h : ℕ) (height : ℕ → ℕ) (i : ℕ) (pre post : List ℕ)
    → All (Apart n) (pre ++ post)
    → h ≤ i
    → tall (with_height n h height) i (pre ++ (n ∷ post)) ≡ tall height i (pre ++ post)
tall_low n h height i pre post f le =
    let front = tall-with_height n h height i pre (All-front (Apart n) pre post f) in
    let back = tall-with_height n h height i post (All-back (Apart n) pre post f) in
    let here : tall (with_height n h height) i (n ∷ post) ≡ tall (with_height n h height) i post =
      unfold tall in ground (arith, le) in
    tall-append (with_height n h height) i pre (n ∷ post)
    ∙ ap₂ (λ x y. x ++ y) front (here ∙ back)
    ∙ sym (tall-append height i pre post)
