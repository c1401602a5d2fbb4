-- ===== src/Memtable/Newest.antt =====
-- The writes of a memory table in the order of src/db/dbformat.h, and the first one of a key.
use mini_leveldb.Prelude.{
  ◌^◌, ◌<◌, true, false, Bool-cases, if◌then◌else◌, ◌≡◌, refl, ap, sym, ◌∙◌, subst, inl, inr,
  Option, none, some, List, [], ◌∷◌, Bytes, All, arith,
}
use mini_leveldb.Slice.{slice_eq}
use mini_leveldb.Slice.Order.{Below, slice_eq_iff}
use mini_leveldb.Dbformat.Keys.{internal_key_less_iff}
use mini_leveldb.Dbformat.Comparator.{
  Below-total, Below-irrefl, internal_key_less_asym, internal_key_less_neg_trans,
}
use mini_leveldb.Skiplist.Sequence.{WeakOrder, Sorted, lower, upper, first, insert_key}
use mini_leveldb.Memtable.{LookupState, not_found, Entry, entry_less, lookup_key, judge}
use mini_leveldb.Memtable.Lookup.{Write, entry_of, newest, state_of, judge-entry_of, Below-lookup}

pub entry_order : WeakOrder entry_less
unfolding entry_less
entry_order = record {
  asym = λ a b. internal_key_less_asym a.ikey b.ikey;
  neg_trans = λ a b c. internal_key_less_neg_trans a.ikey b.ikey c.ikey;
}

abbrev pub entries_of : List Write → List Entry
entries_of [] = []
entries_of (w ∷ ws) = entry_of w ∷ entries_of ws

abbrev pub Numbered : List Write → Type 0
Numbered ws = All (λ w. w.seq < 2 ^ 56) ws

-- The write of a key and the writes of others.
Below-other : (k u : Bytes) → Below k u → slice_eq k u ≡ false
Below-other k u h = elim (Bool-cases (slice_eq k u)) [
  | inr e ↦ e
  | inl e ↦ absurd (Below-irrefl u (subst (λ t. Below t u) ((slice_eq_iff k u).0 e) h))
]

before_write :
    (v w : Write)
    → v.seq < 2 ^ 56
    → w.seq < 2 ^ 56
    → Below v.key w.key
    → entry_less (entry_of v) (entry_of w) ≡ true
unfolding entry_less
before_write v w hv hw h =
    (internal_key_less_iff v.key w.key v.seq w.seq v.type w.type hv hw).1 (inl h)

module _ (user_key : Bytes) where
  -- What `Get` makes of the place where its search stops.
  unfoldable pub judged : Option Entry → LookupState
  judged none = not_found
  judged (some e) = judge user_key e

  -- Behind a write of a later key there is none of the key.
  newest_behind :
      (w : Write) (ws : List Write)
      → w.seq < 2 ^ 56
      → Numbered ws
      → Below user_key w.key
      → All (λ e. entry_less e (entry_of w) ≡ false) (entries_of ws)
      → newest user_key ws ≡ not_found
  unfolding newest
  newest_behind w [] h n later s = refl
  newest_behind w (v ∷ ws) h (hv, n) later (behind, s) =
      elim (Bool-cases (slice_eq v.key user_key)) [
        | inr other ↦ ground (arith, other, newest_behind w ws h n later s)
        | inl here ↦
            let below : Below v.key w.key =
              subst (λ t. Below t w.key) (sym ((slice_eq_iff v.key user_key).0 here)) later in
            let before = before_write v w hv h below in absurd cc
      ]

  pub judged-first :
      (ws : List Write)
      → Numbered ws
      → Sorted entry_less (entries_of ws)
      → judged (
          first entry_less
            (lookup_key user_key)
            (upper entry_less (lookup_key user_key) (entries_of ws)))
        ≡ newest user_key ws
  unfolding newest upper judged
  judged-first [] n s = refl
  judged-first (w ∷ ws) (h, n) (behind, s) =
      elim (Bool-cases (entry_less (entry_of w) (lookup_key user_key))) [
        | inl before ↦
            let other = Below-other w.key user_key ((Below-lookup user_key w h).0 before) in
            rw (before, other) (judged-first ws n s)
        | inr stop ↦ elim (Bool-cases (slice_eq w.key user_key)) [
          | inl here ↦ rw (stop, judge-entry_of user_key w h, here) refl
          | inr other ↦
              rw (stop, judge-entry_of user_key w h, other)
                (sym (newest_behind w ws h n (above w h stop other) behind))
        ]
      ]
    where
      above :
          (v : Write)
          → v.seq < 2 ^ 56
          → entry_less (entry_of v) (lookup_key user_key) ≡ false
          → slice_eq v.key user_key ≡ false
          → Below user_key v.key
      above v hv stop other = elim (Below-total v.key user_key) [
        | inl below ↦ let before = (Below-lookup user_key v hv).1 below in absurd cc
        | inr (inl equal) ↦ let here = (slice_eq_iff v.key user_key).1 equal in absurd cc
        | inr (inr later) ↦ later
      ]

-- A write put in where the list puts its entry.
unfoldable pub insert_write : Write → List Write → List Write
insert_write w [] = w ∷ []
insert_write w (x ∷ xs) =
    let later = insert_write w xs in
    if entry_less (entry_of x) (entry_of w) then x ∷ later else w ∷ (x ∷ xs)

pub entries_of-insert_write :
    (w : Write) (ws : List Write)
    → insert_key entry_less (entry_of w) (entries_of ws) ≡ entries_of (insert_write w ws)
unfolding insert_write lower upper
entries_of-insert_write w [] = refl
entries_of-insert_write w (x ∷ xs) = elim (Bool-cases (entry_less (entry_of x) (entry_of w))) [
  | inl e ↦ rw (e, entries_of-insert_write w xs) refl
  | inr e ↦ rw e refl
]

pub insert_write-All :
    (P : Write → Type 0) (w : Write) (ws : List Write) → P w → All P ws → All P (insert_write w ws)
unfolding insert_write
insert_write-All P w [] h hs = (h, tt)
insert_write-All P w (x ∷ xs) h (k, hs) = elim (Bool-cases (entry_less (entry_of x) (entry_of w))) [
  | inl e ↦ rw e (k, insert_write-All P w xs h hs)
  | inr e ↦ rw e (h, (k, hs))
]

-- A write that is newer than all others is the newest of its key, and hides no other key.
pub newest-insert_write :
    (user_key : Bytes) (w : Write) (ws : List Write)
    → w.seq < 2 ^ 56
    → Numbered ws
    → All (λ v. v.seq < w.seq) ws
    → newest user_key (insert_write w ws)
      ≡ (if slice_eq w.key user_key then state_of w.type w.value else newest user_key ws)
unfolding newest insert_write
newest-insert_write user_key w [] h n newer = refl
newest-insert_write user_key w (x ∷ xs) h (hx, n) (older, newer) =
    elim (Bool-cases (entry_less (entry_of x) (entry_of w))) [
      | inr e ↦ rw e refl
      | inl e ↦ elim (Bool-cases (slice_eq w.key user_key)) [
        | inl here ↦
            let other : slice_eq x.key user_key ≡ false =
              subst (λ t. slice_eq x.key t ≡ false) ((slice_eq_iff w.key user_key).0 here)
                (Below-other x.key w.key (key_below x e hx older)) in
            rw (e, other, here) (newest-insert_write user_key w xs h n newer ∙ rw here refl)
        | inr there ↦
            rw (e, there)
              (ap (λ t. if slice_eq x.key user_key then state_of x.type x.value else t)
                (newest-insert_write user_key w xs h n newer ∙ rw there refl))
      ]
    ]
  where
    key_below :
        (v : Write)
        → entry_less (entry_of v) (entry_of w) ≡ true
        → v.seq < 2 ^ 56
        → v.seq < w.seq
        → Below v.key w.key
    key_below v e hv old =
        elim ((internal_key_less_iff v.key w.key v.seq w.seq v.type w.type hv h).0
          (unfold entry_less in e)) [
            | inl below ↦ below
            | inr (_, inl newest) ↦ absurd (omega arith)
            | inr (_, inr (same, _)) ↦ absurd (omega arith)
          ]
