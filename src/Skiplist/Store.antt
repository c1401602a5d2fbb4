-- ===== src/Skiplist/Store.antt =====
-- Pointers of src/db/skiplist.h after a store, and after the two loops of `Insert`.
use mini_leveldb.Prelude.{
  ℕ, zero, suc, ◌+◌, ◌≤◌, ◌<◌, ◌==◌, false, ◌&&◌, if◌then◌else◌, ◌≡◌, refl, ap, sym, ◌∙◌, Option,
  none, some, List, [], ◌∷◌, ◌++◌, length, get_or, replicate, All, ==_iff, Bool-cases, ◌⊎◌, inl,
  inr, subst, arith,
}
use mini_leveldb.Skiplist.{
  Node, new_node, node_at, next_of, set_at, store_next, link_new, link_prev, max_height,
}

length-set_at : (ps : List (Option ℕ)) (i : ℕ) (p : Option ℕ) → length (set_at ps i p) ≡ length ps
unfolding set_at
length-set_at [] i p = refl
length-set_at (q ∷ ps) zero p = refl
length-set_at (q ∷ ps) (suc i) p = omega (arith, length-set_at ps i p)

get_or-set_at :
    (ps : List (Option ℕ)) (k i : ℕ) (p : Option ℕ)
    → k < length ps
    → get_or (set_at ps k p) i none ≡ (if i == k then p else get_or ps i none)
unfolding set_at
get_or-set_at [] k i p h = absurd (omega arith)
get_or-set_at (q ∷ ps) zero zero p h = refl
get_or-set_at (q ∷ ps) zero (suc i) p h = ground arith
get_or-set_at (q ∷ ps) (suc k) zero p h = ground arith
get_or-set_at (q ∷ ps) (suc k) (suc i) p h = ground (arith, get_or-set_at ps k i p)

module _ {ℓ} {K : Type ℓ} where
  -- All nodes have their twelve pointers.
  abbrev pub Wide : List (Node K) → Type 0
  Wide nodes = All (λ n. length n.next ≡ max_height) nodes

  pub store_next-Wide :
      (nodes : List (Node K)) (a k : ℕ) (p : Option ℕ) → Wide nodes → Wide (store_next nodes a k p)
  unfolding store_next
  store_next-Wide [] a k p w = tt
  store_next-Wide (n ∷ nodes) zero k p (h, w) = (length-set_at n.next k p ∙ h, w)
  store_next-Wide (n ∷ nodes) (suc a) k p (h, w) = (h, store_next-Wide nodes a k p w)

  pub length-store_next :
      (nodes : List (Node K)) (a k : ℕ) (p : Option ℕ)
      → length (store_next nodes a k p) ≡ length nodes
  unfolding store_next
  length-store_next [] a k p = refl
  length-store_next (n ∷ nodes) zero k p = refl
  length-store_next (n ∷ nodes) (suc a) k p = omega (arith, length-store_next nodes a k p)

  -- A store changes one pointer of one node.
  pub next_of-store_next :
      (nodes : List (Node K)) (a k : ℕ) (p : Option ℕ) (b i : ℕ)
      → a < length nodes
      → Wide nodes
      → k < max_height
      → next_of (store_next nodes a k p) b i
        ≡ (if (b == a) && (i == k) then p else next_of nodes b i)
  unfolding next_of node_at store_next
  next_of-store_next [] a k p b i h w l = absurd (omega arith)
  next_of-store_next (n ∷ nodes) zero k p zero i h (full, w) l =
      get_or-set_at n.next k i p (omega arith)
  next_of-store_next (n ∷ nodes) zero k p (suc b) i h w l = ground arith
  next_of-store_next (n ∷ nodes) (suc a) k p zero i h w l = ground arith
  next_of-store_next (n ∷ nodes) (suc a) k p (suc b) i h (full, w) l =
      ground (arith, next_of-store_next nodes a k p b i (omega arith) w l)

  -- A new node at the end changes no pointer.
  pub next_of-new_node :
      (nodes : List (Node K)) (key : K) (b i : ℕ)
      → next_of (nodes ++ (new_node key ∷ [])) b i ≡ next_of nodes b i
  unfolding next_of node_at new_node
  next_of-new_node [] key zero i = no_pointer max_height i
    where
      nothing : Option ℕ
      nothing = none

      no_pointer : (m j : ℕ) → get_or (replicate m nothing) j none ≡ nothing
      no_pointer zero j = refl
      no_pointer (suc m) zero = refl
      no_pointer (suc m) (suc j) = no_pointer m j
  next_of-new_node [] key (suc b) i = refl
  next_of-new_node (n ∷ nodes) key zero i = refl
  next_of-new_node (n ∷ nodes) key (suc b) i = next_of-new_node nodes key b i

-- The entries of `prev` from level `i` on, `k` of them, where level `i` has the entry `P i`.
unfoldable pub entries : (ℕ → ℕ) → ℕ → ℕ → List ℕ
entries P zero i = []
entries P (suc k) i = P i ∷ entries P k (i + 1)

module _ {ℓ} {K : Type ℓ} (P : ℕ → ℕ) (n : ℕ) where
  pub link_new-sizes :
      (k i : ℕ) (nodes : List (Node K))
      → Wide nodes
      → Wide (link_new n i (entries P k i) nodes)
        × (length (link_new n i (entries P k i) nodes) ≡ length nodes)
  unfolding link_new entries
  link_new-sizes zero i nodes w = (w, refl)
  link_new-sizes (suc k) i nodes w =
      let next = next_of nodes (P i) i in
      let (wide, same) =
        link_new-sizes k (i + 1) (store_next nodes n i next) (store_next-Wide nodes n i next w) in
      (wide, same ∙ length-store_next nodes n i next)

  -- The first loop writes pointers of the new node only, from level `i` on.
  pub link_new_others :
      (k i : ℕ) (nodes : List (Node K)) (b j : ℕ)
      → n < length nodes
      → Wide nodes
      → i + k ≤ max_height
      → ((b == n) ≡ false) ⊎ (j < i)
      → next_of (link_new n i (entries P k i) nodes) b j ≡ next_of nodes b j
  unfolding link_new entries
  link_new_others zero i nodes b j h w l o = refl
  link_new_others (suc k) i nodes b j h w l o =
      let next = next_of nodes (P i) i in
      let stored = store_next nodes n i next in
      let size = length-store_next nodes n i next in
      link_new_others k (i + 1) stored b j (omega (arith, size)) (store_next-Wide nodes n i next w)
        (omega arith) (later o)
      ∙ next_of-store_next nodes n i next b j h w (omega arith)
      ∙ elsewhere o next
    where
      later : ((b == n) ≡ false) ⊎ (j < i) → ((b == n) ≡ false) ⊎ (j < i + 1)
      later (inl e) = inl e
      later (inr e) = inr (omega arith)

      elsewhere :
          ((b == n) ≡ false) ⊎ (j < i)
          → (next : Option ℕ)
          → (if (b == n) && (j == i) then next else next_of nodes b j) ≡ next_of nodes b j
      elsewhere (inl e) next = ground (arith, e)
      elsewhere (inr e) next = ground (arith, e)

  -- And on each of these levels it is the pointer of the level's entry.
  pub link_new_at :
      (k i : ℕ) (nodes : List (Node K)) (j : ℕ)
      → n < length nodes
      → Wide nodes
      → i + k ≤ max_height
      → ((m : ℕ) → (P m == n) ≡ false)
      → i ≤ j
      → j < i + k
      → next_of (link_new n i (entries P k i) nodes) n j ≡ next_of nodes (P j) j
  unfolding link_new entries
  link_new_at zero i nodes j h w l o lo hi = absurd (omega arith)
  link_new_at (suc k) i nodes j h w l o lo hi =
      let next = next_of nodes (P i) i in
      let stored = store_next nodes n i next in
      let size = length-store_next nodes n i next in
      let wide = store_next-Wide nodes n i next w in
      elim (Bool-cases (j == i)) [
        | inl here ↦
            let e : i ≡ j = sym ((==_iff j i).0 here) in
            link_new_others k (i + 1) stored n j (omega (arith, size)) wide (omega arith)
              (inr (omega arith))
            ∙ next_of-store_next nodes n i next n j h w (omega arith)
            ∙ ground arith
            ∙ ap (λ t. next_of nodes (P t) t) e
        | inr later ↦
            let above : i + 1 ≤ j = ground arith in
            link_new_at k (i + 1) stored j (omega (arith, size)) wide (omega arith) o (omega arith)
              (omega arith)
            ∙ next_of-store_next nodes n i next (P j) j h w (omega arith)
            ∙ ground (arith, o j)
      ]

  pub link_prev-sizes :
      (k i : ℕ) (nodes : List (Node K))
      → Wide nodes
      → Wide (link_prev n i (entries P k i) nodes)
        × (length (link_prev n i (entries P k i) nodes) ≡ length nodes)
  unfolding link_prev entries
  link_prev-sizes zero i nodes w = (w, refl)
  link_prev-sizes (suc k) i nodes w =
      let (wide, same) =
        link_prev-sizes k (i + 1) (store_next nodes (P i) i (some n))
          (store_next-Wide nodes (P i) i (some n) w) in
      (wide, same ∙ length-store_next nodes (P i) i (some n))

  -- The second loop writes one pointer on each level from `i` on, that of the level's entry.
  pub link_prev_others :
      (k i : ℕ) (nodes : List (Node K)) (b j : ℕ)
      → ((m : ℕ) → P m < length nodes)
      → Wide nodes
      → i + k ≤ max_height
      → ((b == P j) ≡ false) ⊎ ((j < i) ⊎ (i + k ≤ j))
      → next_of (link_prev n i (entries P k i) nodes) b j ≡ next_of nodes b j
  unfolding link_prev entries
  link_prev_others zero i nodes b j h w l o = refl
  link_prev_others (suc k) i nodes b j h w l o =
      let stored = store_next nodes (P i) i (some n) in
      let size = length-store_next nodes (P i) i (some n) in
      link_prev_others k (i + 1) stored b j (λ m. omega (arith, size, h m))
        (store_next-Wide nodes (P i) i (some n) w) (omega arith) (later o)
      ∙ next_of-store_next nodes (P i) i (some n) b j (h i) w (omega arith)
      ∙ elsewhere o
    where
      later :
          ((b == P j) ≡ false) ⊎ ((j < i) ⊎ (i + suc k ≤ j))
          → ((b == P j) ≡ false) ⊎ ((j < i + 1) ⊎ (i + 1 + k ≤ j))
      later (inl e) = inl e
      later (inr (inl e)) = inr (inl (omega arith))
      later (inr (inr e)) = inr (inr (omega arith))

      elsewhere :
          ((b == P j) ≡ false) ⊎ ((j < i) ⊎ (i + suc k ≤ j))
          → (if (b == P i) && (j == i) then some n else next_of nodes b j) ≡ next_of nodes b j
      elsewhere (inl e) = elim (Bool-cases (j == i)) [
        | inl same ↦
            let level : j ≡ i = (==_iff j i).0 same in
            let other : (b == P i) ≡ false = subst (λ t. (b == P t) ≡ false) level e in
            ground (arith, other)
        | inr apart ↦ ground (arith, apart)
      ]
      elsewhere (inr (inl e)) = ground (arith, e)
      elsewhere (inr (inr e)) = ground (arith, e)

  pub link_prev_at :
      (k i : ℕ) (nodes : List (Node K)) (j : ℕ)
      → ((m : ℕ) → P m < length nodes)
      → Wide nodes
      → i + k ≤ max_height
      → i ≤ j
      → j < i + k
      → next_of (link_prev n i (entries P k i) nodes) (P j) j ≡ some n
  unfolding link_prev entries
  link_prev_at zero i nodes j h w l lo hi = absurd (omega arith)
  link_prev_at (suc k) i nodes j h w l lo hi =
      let stored = store_next nodes (P i) i (some n) in
      let size = length-store_next nodes (P i) i (some n) in
      let wide = store_next-Wide nodes (P i) i (some n) w in
      elim (Bool-cases (j == i)) [
        | inl here ↦
            let e : i ≡ j = sym ((==_iff j i).0 here) in
            let at_i : next_of stored (P i) i ≡ some n =
              next_of-store_next nodes (P i) i (some n) (P i) i (h i) w (omega arith)
              ∙ ground arith in
            link_prev_others k (i + 1) stored (P j) j (λ m. omega (arith, size, h m)) wide
              (omega arith) (inr (inl (omega arith)))
            ∙ subst (λ t. next_of stored (P t) t ≡ some n) e at_i
        | inr later ↦
            let above : i + 1 ≤ j = ground arith in
            link_prev_at k (i + 1) stored j (λ m. omega (arith, size, h m)) wide (omega arith)
              (omega arith) (omega arith)
      ]
