-- ===== src/Block/Keys.antt =====
-- The order of a block's keys, `operator<` of include/mini-leveldb/slice.h.
use mini_leveldb.Prelude.{
  Bool, Bool-cases, true, false, ◌≡◌, inl, inr, refl, subst, Bytes, List, [], ◌∷◌, ◌++◌, All,
}
use mini_leveldb.Slice.{slice_lt}
use mini_leveldb.Slice.Order.{Below, Below-trans, slice_lt_iff}
use mini_leveldb.Dbformat.Comparator.{Below-total, Below-irrefl}
use mini_leveldb.Skiplist.Sequence.{WeakOrder, Sorted, upper}
use mini_leveldb.Block.Layout.{KeyValue}

slice_lt_neg_trans :
    (a b c : Bytes) → slice_lt b a ≡ false → slice_lt c b ≡ false → slice_lt c a ≡ false
slice_lt_neg_trans a b c h k = elim (Bool-cases (slice_lt c a)) [
  | inr e ↦ e
  | inl e ↦
      let below = (slice_lt_iff c a).0 e in
      elim (Below-total a b) [
        | inl on ↦ let other = (slice_lt_iff c b).1 (Below-trans below on) in absurd cc
        | inr (inl equal) ↦
            let other = (slice_lt_iff c b).1 (subst (Below c) equal below) in absurd cc
        | inr (inr back) ↦ let other = (slice_lt_iff b a).1 back in absurd cc
      ]
]

slice_lt_asym : (a b : Bytes) → slice_lt a b ≡ true → slice_lt b a ≡ false
slice_lt_asym a b h = elim (Bool-cases (slice_lt b a)) [
  | inr e ↦ e
  | inl e ↦ absurd (Below-irrefl a (Below-trans ((slice_lt_iff a b).0 h) ((slice_lt_iff b a).0 e)))
]

abbrev pub key_less : KeyValue → KeyValue → Bool
key_less a b = slice_lt a.key b.key

pub key_order : WeakOrder key_less
key_order = record {
  asym = λ a b. slice_lt_asym a.key b.key;
  neg_trans = λ a b c. slice_lt_neg_trans a.key b.key c.key;
}

abbrev pub target_entry : Bytes → KeyValue
target_entry target = record { key = target; value = [] }

-- The entries from the first on whose key is not below the target.
abbrev pub from : Bytes → List KeyValue → List KeyValue
from target es = upper key_less (target_entry target) es

abbrev pub AllBelow : Bytes → List KeyValue → Type 0
AllBelow target es = All (λ e. slice_lt e.key target ≡ true) es

pub from-append :
    (target : Bytes) (before es : List KeyValue)
    → AllBelow target before
    → from target (before ++ es) ≡ from target es
unfolding upper
from-append target [] es h = refl
from-append target (e ∷ before) es (h, hs) = rw h (from-append target before es hs)

-- Behind an entry whose key is not below the target there is none below it.
unfoldable pub Parted : Bytes → List KeyValue → Type 0
Parted target [] = Unit
Parted target (x ∷ xs) =
    (slice_lt x.key target ≡ false → All (λ y. slice_lt y.key target ≡ false) xs) × Parted target xs

pub Sorted-Parted : (target : Bytes) (es : List KeyValue) → Sorted key_less es → Parted target es
unfolding Parted
Sorted-Parted target [] s = tt
Sorted-Parted target (x ∷ xs) (behind, s) =
    (λ stop. above xs behind stop, Sorted-Parted target xs s)
  where
    above :
        (ys : List KeyValue)
        → All (λ y. slice_lt y.key x.key ≡ false) ys
        → slice_lt x.key target ≡ false
        → All (λ y. slice_lt y.key target ≡ false) ys
    above [] h stop = tt
    above (y ∷ ys) (h, hs) stop = (slice_lt_neg_trans target x.key y.key stop h, above ys hs stop)

-- In front of a key below the target all keys are.
pub before-AllBelow :
    (target : Bytes) (before : List KeyValue) (e : KeyValue) (es : List KeyValue)
    → Parted target (before ++ (e ∷ es))
    → slice_lt e.key target ≡ true
    → AllBelow target before
unfolding Parted
before-AllBelow target [] e es s h = tt
before-AllBelow target (x ∷ before) e es (later, s) h = (
  elim (Bool-cases (slice_lt x.key target)) [
    | inl below ↦ below
    | inr not_below ↦ let stop = at_end before (later not_below) in absurd cc
  ],
  before-AllBelow target before e es s h,
)
  where
    at_end :
        (xs : List KeyValue)
        → All (λ y. slice_lt y.key target ≡ false) (xs ++ (e ∷ es))
        → slice_lt e.key target ≡ false
    at_end [] (k, ks) = k
    at_end (y ∷ xs) (k, ks) = at_end xs ks
