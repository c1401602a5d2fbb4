-- ===== src/Skiplist/Keys.antt =====
-- The keys of the nodes in src/db/skiplist.h.
use mini_leveldb.Prelude.{
  ℕ, zero, suc, ◌+◌, ◌<◌, Bool, true, false, ◌≡◌, refl, ap, ◌∙◌, Option, none, some, List, [], ◌∷◌,
  ◌++◌, length, All, arith,
}
use mini_leveldb.Skiplist.{Node, new_node, node_at, steps_to, store_next, link_new, link_prev}
use mini_leveldb.Skiplist.Search.{Below, NotBelow}

module _ {ℓ} {K : Type ℓ} where
  unfoldable pub key_of : List (Node K) → ℕ → Option K
  key_of nodes a = elim (node_at nodes a) [ none ↦ none | some n ↦ some n.key ]

  -- The nodes at these addresses have these keys.
  pub data KeysAt (nodes : List (Node K)) : List ℕ → List K → Type ℓ where
    nil : KeysAt nodes [] []
    cons :
        {a : ℕ} {k : K} {order : List ℕ} {keys : List K}
        → key_of nodes a ≡ some k
        → KeysAt nodes order keys
        → KeysAt nodes (a ∷ order) (k ∷ keys)

  key_of-store_next :
      (nodes : List (Node K)) (a k : ℕ) (p : Option ℕ) (b : ℕ)
      → key_of (store_next nodes a k p) b ≡ key_of nodes b
  unfolding key_of node_at store_next
  key_of-store_next [] a k p b = refl
  key_of-store_next (n ∷ nodes) zero k p zero = refl
  key_of-store_next (n ∷ nodes) zero k p (suc b) = refl
  key_of-store_next (n ∷ nodes) (suc a) k p zero = refl
  key_of-store_next (n ∷ nodes) (suc a) k p (suc b) = key_of-store_next nodes a k p b

  pub key_of-link_new :
      (n i : ℕ) (prev : List ℕ) (nodes : List (Node K)) (b : ℕ)
      → key_of (link_new n i prev nodes) b ≡ key_of nodes b
  unfolding link_new
  key_of-link_new n i [] nodes b = refl
  key_of-link_new n i (p ∷ prev) nodes b =
      key_of-link_new n (i + 1) prev _ b ∙ key_of-store_next nodes n i _ b

  pub key_of-link_prev :
      (n i : ℕ) (prev : List ℕ) (nodes : List (Node K)) (b : ℕ)
      → key_of (link_prev n i prev nodes) b ≡ key_of nodes b
  unfolding link_prev
  key_of-link_prev n i [] nodes b = refl
  key_of-link_prev n i (p ∷ prev) nodes b =
      key_of-link_prev n (i + 1) prev _ b ∙ key_of-store_next nodes p i _ b

  pub key_of-grown_old :
      (nodes : List (Node K)) (key : K) (b : ℕ)
      → b < length nodes
      → key_of (nodes ++ (new_node key ∷ [])) b ≡ key_of nodes b
  unfolding key_of node_at
  key_of-grown_old [] key b h = absurd (omega arith)
  key_of-grown_old (n ∷ nodes) key zero h = refl
  key_of-grown_old (n ∷ nodes) key (suc b) h = key_of-grown_old nodes key b (omega arith)

  pub key_of-grown_new :
      (nodes : List (Node K)) (key : K)
      → key_of (nodes ++ (new_node key ∷ [])) (length nodes) ≡ some key
  unfolding key_of node_at new_node
  key_of-grown_new [] key = refl
  key_of-grown_new (n ∷ nodes) key = key_of-grown_new nodes key

  -- The same keys in another store.
  pub KeysAt-same :
      (nodes nodes' : List (Node K)) (n : ℕ) (order : List ℕ) (keys : List K)
      → ((b : ℕ) → b < n → key_of nodes' b ≡ key_of nodes b)
      → KeysAt nodes order keys
      → All (λ b. b < n) order
      → KeysAt nodes' order keys
  KeysAt-same nodes nodes' n _ _ same nil f = nil
  KeysAt-same nodes nodes' n _ _ same (cons h hs) (f, fs) =
      cons (same _ f ∙ h) (KeysAt-same nodes nodes' n _ _ same hs fs)

  pub KeysAt-append :
      (nodes : List (Node K)) (pre post : List ℕ) (low high : List K)
      → KeysAt nodes pre low
      → KeysAt nodes post high
      → KeysAt nodes (pre ++ post) (low ++ high)
  KeysAt-append nodes _ post _ high nil k = k
  KeysAt-append nodes _ post _ high (cons h hs) k = cons h (KeysAt-append nodes _ post _ high hs k)

  -- The addresses split where the keys do.
  pub KeysAt-split :
      (nodes : List (Node K)) (order : List ℕ) (low high : List K)
      → KeysAt nodes order (low ++ high)
      → (pre post : List ℕ) × (pre ++ post ≡ order) × KeysAt nodes pre low × KeysAt nodes post high
  KeysAt-split nodes order [] high h = ([], order, refl, nil, h)
  KeysAt-split nodes _ (x ∷ low) high (cons {a} h hs) =
      let (pre, post, split, front, back) = KeysAt-split nodes _ low high hs in
      (a ∷ pre, post, ap (λ t. a ∷ t) split, cons h front, back)

  module _ (less : K → K → Bool) (nodes : List (Node K)) (height : ℕ → ℕ) (key : K) where
    steps_to-key_of :
        (a : ℕ) (k : K) → key_of nodes a ≡ some k → steps_to less nodes (some a) key ≡ less k key
    unfolding steps_to key_of
    steps_to-key_of a k h = ground (arith, h)

    pub KeysAt-Below :
        (order : List ℕ) (keys : List K)
        → KeysAt nodes order keys
        → All (λ k. less k key ≡ true) keys
        → All (Below less nodes height key) order
    KeysAt-Below _ _ nil a = tt
    KeysAt-Below _ _ (cons h hs) (e, es) = (steps_to-key_of _ _ h ∙ e, KeysAt-Below _ _ hs es)

    pub KeysAt-NotBelow :
        (order : List ℕ) (keys : List K)
        → KeysAt nodes order keys
        → All (λ k. less k key ≡ false) keys
        → All (NotBelow less nodes height key) order
    KeysAt-NotBelow _ _ nil a = tt
    KeysAt-NotBelow _ _ (cons h hs) (e, es) = (steps_to-key_of _ _ h ∙ e, KeysAt-NotBelow _ _ hs es)
