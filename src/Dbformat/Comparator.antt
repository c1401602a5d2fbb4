-- ===== src/Dbformat/Comparator.antt =====
-- `InternalKeyComparator` of src/db/dbformat.h on any keys is a strict weak order.
use mini_leveldb.Prelude.{
  ℕ, ◌<◌, ltb, not, if◌then◌else◌, true, false, Bool-cases, ltb→lt, ltb→le, lt→ltb, ◌≡◌, refl, ap,
  sym, ◌∙◌, subst, ◌⊎◌, ◌↔◌, inl, inr, Bytes, Comparison, less, same, more, arith,
}
use mini_leveldb.Slice.{compare, is_same, is_less}
use mini_leveldb.Slice.Order.{Below, Below-trans, compare_iff, flip}
use mini_leveldb.Dbformat.{extract_user_key, extract_tag, internal_key_less}

-- The order of the comparator on user keys and tags.
abbrev Ahead : Bytes → ℕ → Bytes → ℕ → Type 0
Ahead k t k' t' = Below k k' ⊎ ((k ≡ k') × (t' < t))

Ahead-by :
    (k k' : Bytes) (t t' : ℕ) (r : Comparison)
    → r ≡ compare k k'
    → ((if not (is_same r) then is_less r else ltb t' t) ≡ true) ↔ Ahead k t k' t'
unfolding is_same is_less
Ahead-by k k' t t' less e = (λ h. inl ((compare_iff k k').0.0 (sym e)), λ h. refl)
Ahead-by k k' t t' same e = (
  λ h. inr ((compare_iff k k').1.0 (sym e), ltb→lt _ _ h),
  λ h. elim h [
    | inl below ↦ let other = (compare_iff k k').0.1 below in absurd cc
    | inr (_, n) ↦ lt→ltb _ _ n
  ],
)
Ahead-by k k' t t' more e = (
  λ h. absurd cc,
  λ h. elim h [
    | inl below ↦ let other = (compare_iff k k').0.1 below in absurd cc
    | inr (equal, n) ↦ let other = (compare_iff k k').1.1 equal in absurd cc
  ],
)

Ahead-iff :
    (a b : Bytes)
    → (internal_key_less a b ≡ true)
      ↔ Ahead (extract_user_key a) (extract_tag a) (extract_user_key b) (extract_tag b)
unfolding internal_key_less
Ahead-iff a b =
    Ahead-by (extract_user_key a) (extract_user_key b) (extract_tag a) (extract_tag b) _ refl

tri_by : (a b : Bytes) (r : Comparison) → r ≡ compare a b → Below a b ⊎ ((a ≡ b) ⊎ Below b a)
unfolding flip
tri_by a b less e = inl ((compare_iff a b).0.0 (sym e))
tri_by a b same e = inr (inl ((compare_iff a b).1.0 (sym e)))
tri_by a b more e = inr (inr ((compare_iff b a).0.0 ((compare_iff a b).2 ∙ ap flip (sym e))))

-- Of two strings one is below the other, or they are equal.
pub Below-total : (a b : Bytes) → Below a b ⊎ ((a ≡ b) ⊎ Below b a)
Below-total a b = tri_by a b (compare a b) refl

pub Below-irrefl : (a : Bytes) → Below a a → ⊥
Below-irrefl a h =
    let less = (compare_iff a a).0.1 h in let equal = (compare_iff a a).1.1 refl in cc

Ahead-asym : (k k' : Bytes) (t t' : ℕ) → Ahead k t k' t' → Ahead k' t' k t → ⊥
Ahead-asym k k' t t' (inl a) (inl b) = Below-irrefl k (Below-trans a b)
Ahead-asym k k' t t' (inl a) (inr (e, _)) = Below-irrefl k (subst (Below k) e a)
Ahead-asym k k' t t' (inr (e, _)) (inl b) = Below-irrefl k' (subst (Below k') e b)
Ahead-asym k k' t t' (inr (_, a)) (inr (_, b)) = omega arith

-- Whatever stands between: one of the two parts is a step ahead too.
Ahead-between :
    (k1 k2 k3 : Bytes) (t1 t2 t3 : ℕ) → Ahead k3 t3 k1 t1 → Ahead k2 t2 k1 t1 ⊎ Ahead k3 t3 k2 t2
Ahead-between k1 k2 k3 t1 t2 t3 h = elim (Below-total k2 k1) [
  | inl below ↦ inl (inl below)
  | inr (inr above) ↦ elim h [
    | inl b ↦ inr (inl (Below-trans b above))
    | inr (e, _) ↦ inr (inl (subst (λ t. Below t k2) (sym e) above))
  ]
  | inr (inl equal) ↦ elim (Bool-cases (ltb t1 t2)) [
    | inl newer ↦ inl (inr (equal, ltb→lt t1 t2 newer))
    | inr older ↦ elim h [
      | inl b ↦ inr (inl (subst (Below k3) (sym equal) b))
      | inr (e, n) ↦ inr (inr (e ∙ sym equal, omega (arith, ltb→le t1 t2 older)))
    ]
  ]
]

pub internal_key_less_asym :
    (a b : Bytes) → internal_key_less a b ≡ true → internal_key_less b a ≡ false
internal_key_less_asym a b h = elim (Bool-cases (internal_key_less b a)) [
  | inr e ↦ e
  | inl e ↦ absurd (Ahead-asym _ _ _ _ ((Ahead-iff a b).0 h) ((Ahead-iff b a).0 e))
]

pub internal_key_less_neg_trans :
    (a b c : Bytes)
    → internal_key_less b a ≡ false
    → internal_key_less c b ≡ false
    → internal_key_less c a ≡ false
internal_key_less_neg_trans a b c h k = elim (Bool-cases (internal_key_less c a)) [
  | inr e ↦ e
  | inl e ↦
      elim (Ahead-between (extract_user_key a) (extract_user_key b) (extract_user_key c)
        (extract_tag a) (extract_tag b) (extract_tag c) ((Ahead-iff c a).0 e)) [
          | inl step ↦ let other = (Ahead-iff b a).1 step in absurd cc
          | inr step ↦ let other = (Ahead-iff c b).1 step in absurd cc
        ]
]
