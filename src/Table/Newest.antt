-- ===== src/Table/Newest.antt =====
-- The entries of src/db/memtable.h in a table of src/table: their order is that of
-- src/db/dbformat.h, and `Table::Get` searches in the order of bytes.
use mini_leveldb.Prelude.{
  ◌^◌, ◌<◌, Bool, Bool-cases, true, false, ◌≡◌, refl, sym, ap, ◌∙◌, ◌↔◌, inl, inr, List, [], ◌∷◌,
  ◌++◌, Bytes, All, drop, arith,
}
use mini_leveldb.Slice.{slice_lt, starts_with}
use mini_leveldb.Slice.Order.{Below, prefix, byte, tail, starts_with_iff, slice_lt_iff}
use mini_leveldb.Coding.{encode_fixed64}
use mini_leveldb.Dbformat.{append_internal_key, pack_sequence_and_type}
use mini_leveldb.Skiplist.Sequence.{Sorted, upper, first}
use mini_leveldb.Memtable.{Entry, entry_less, lookup_key, judge}
use mini_leveldb.Memtable.Lookup.{Write, entry_of, newest, Below-lookup}
use mini_leveldb.Memtable.Newest.{entries_of, Numbered, entry_order, judged-first}
use mini_leveldb.Memtable.Newest
use mini_leveldb.Block.Layout.{KeyValue}
use mini_leveldb.Block.Keys.{from, Parted}
use mini_leveldb.Table.Reader.{judge_entry, judged}

-- The entry that `BuildTable` gives to the builder for a write.
abbrev pub key_value_of : Write → KeyValue
key_value_of w = record { key = (entry_of w).ikey; value = w.value }

abbrev pub key_values_of : List Write → List KeyValue
key_values_of [] = []
key_values_of (w ∷ ws) = key_value_of w ∷ key_values_of ws

-- No key is a proper prefix of the user key.
abbrev pub NoPrefix : Bytes → List Write → Type 0
NoPrefix user_key ws = All (λ w. starts_with user_key w.key ≡ true → w.key ≡ user_key) ws

-- A key with bytes behind it is below another if the key is, and if it begins the other, only then.
Below-shorter : (a t u : Bytes) → Below (a ++ t) u → Below a u
Below-shorter [] t (y ∷ u) h = prefix
Below-shorter [] t [] h = elim h [ ]
Below-shorter (x ∷ a) t [] h = elim h [ ]
Below-shorter (x ∷ a) t (y ∷ u) (byte h) = byte h
Below-shorter (x ∷ a) t (y ∷ u) (tail h) = tail (Below-shorter a t u h)

Below-longer :
    (a t u : Bytes) → ((rest : Bytes) → u ≡ a ++ rest → a ≡ u) → Below a u → Below (a ++ t) u
Below-longer [] t (y ∷ u) other prefix = let e = other (y ∷ u) refl in absurd cc
Below-longer [] t [] other h = elim h [ ]
Below-longer (x ∷ a) t [] other h = elim h [ ]
Below-longer (x ∷ a) t (y ∷ u) other (byte h) = byte h
Below-longer (x ∷ a) t (y ∷ u) other (tail h) =
    tail (Below-longer a t u (λ rest e. ap (drop 1) (other rest (ap (λ l. x ∷ l) e))) h)

Bool-iff : (a b : Bool) → (a ≡ true) ↔ (b ≡ true) → a ≡ b
Bool-iff a b (to, of) = elim (Bool-cases a) [
  | inl e ↦ e ∙ sym (to e)
  | inr e ↦ elim (Bool-cases b) [ inl k ↦ let h = of k in absurd cc | inr k ↦ e ∙ sym k ]
]

module _ (user_key : Bytes) where
  -- The table's search and the memory table's stop at the same entries.
  same_side :
      (w : Write)
      → w.seq < 2 ^ 56
      → (starts_with user_key w.key ≡ true → w.key ≡ user_key)
      → slice_lt (key_value_of w).key user_key ≡ entry_less (entry_of w) (lookup_key user_key)
  unfolding append_internal_key
  same_side w h other =
      let tag = encode_fixed64 (pack_sequence_and_type w.seq w.type) in
      let at = slice_lt_iff (w.key ++ tag) user_key in
      let sought = Below-lookup user_key w h in
      let apart : (rest : Bytes) → user_key ≡ w.key ++ rest → w.key ≡ user_key =
        λ rest e. other ((starts_with_iff user_key w.key).1 (rest, e)) in
      Bool-iff _ _ (
        λ e. sought.1 (Below-shorter w.key tag user_key (at.0 e)),
        λ e. at.1 (Below-longer w.key tag user_key apart (sought.0 e)),
      )

  pub key_values_of-Parted :
      (ws : List Write)
      → Numbered ws
      → NoPrefix user_key ws
      → Sorted entry_less (entries_of ws)
      → Parted user_key (key_values_of ws)
  unfolding Parted
  key_values_of-Parted [] n p s = tt
  key_values_of-Parted (w ∷ ws) (h, n) (q, p) (behind, s) =
      (λ stop. above ws n p behind (sym (same_side w h q) ∙ stop), key_values_of-Parted ws n p s)
    where
      above :
          (vs : List Write)
          → Numbered vs
          → NoPrefix user_key vs
          → All (λ e. entry_less e (entry_of w) ≡ false) (entries_of vs)
          → entry_less (entry_of w) (lookup_key user_key) ≡ false
          → All (λ y. slice_lt y.key user_key ≡ false) (key_values_of vs)
      above [] n p b stop = tt
      above (v ∷ vs) (h, n) (q, p) (b, bs) stop = (
        same_side v h q
            ∙ entry_order.neg_trans (lookup_key user_key) (entry_of w) (entry_of v) stop b,
        above vs n p bs stop,
      )

  judge_entry-eq-judge : (e : Entry) → judge_entry user_key e.ikey e.value ≡ judge user_key e
  unfolding judge_entry judge
  judge_entry-eq-judge e = ground arith

  stop-eq-stop :
      (ws : List Write)
      → Numbered ws
      → NoPrefix user_key ws
      → judged user_key (from user_key (key_values_of ws))
        ≡ Newest.judged user_key (
            first entry_less
              (lookup_key user_key)
              (upper entry_less (lookup_key user_key) (entries_of ws)))
  unfolding upper judged Newest.judged
  stop-eq-stop [] n p = refl
  stop-eq-stop (v ∷ vs) (h, n) (q, p) =
      elim (Bool-cases (entry_less (entry_of v) (lookup_key user_key))) [
        | inl before ↦
            let here = same_side v h q ∙ before in rw (here, before) (stop-eq-stop vs n p)
        | inr stop ↦
            let here = same_side v h q ∙ stop in rw (here, stop) (judge_entry-eq-judge (entry_of v))
      ]

  -- What `Table::Get` makes of the place where its search stops is what the newest write says.
  pub judged-newest :
      (ws : List Write)
      → Numbered ws
      → NoPrefix user_key ws
      → Sorted entry_less (entries_of ws)
      → judged user_key (from user_key (key_values_of ws)) ≡ newest user_key ws
  judged-newest ws n p s = stop-eq-stop ws n p ∙ judged-first user_key ws n s
