-- ===== src/Table/Chunks.antt =====
-- The data blocks of a table and the entries of its index block, for src/table/table_builder.cc and
-- src/table/table.cc.
use mini_leveldb.Prelude.{
  Bool-cases, true, false, ◌≡◌, refl, sym, ap, ◌∙◌, ◌⊎◌, inl, inr, List, [], ◌∷◌, ◌++◌,
  append_assoc, append-nil, Bytes, All,
}
use mini_leveldb.Slice.{slice_lt}
use mini_leveldb.Skiplist.Sequence.{upper}
use mini_leveldb.Table.Format.{BlockHandle, encode_handle}
use mini_leveldb.Block.Layout.{KeyValue}
use mini_leveldb.Block.Keys.{from, AllBelow, Parted, before-AllBelow, from-append}

-- The entries of a data block, the last of them apart, and where the block stands.
pub record Chunk : Type 0 where
  pub front : List KeyValue
  pub last : KeyValue
  pub handle : BlockHandle

abbrev pub entries : Chunk → List KeyValue
entries c = c.front ++ (c.last ∷ [])

abbrev pub all_entries : List Chunk → List KeyValue
all_entries [] = []
all_entries (c ∷ cs) = entries c ++ all_entries cs

abbrev pub index_entry : Chunk → KeyValue
index_entry c = record { key = c.last.key; value = encode_handle c.handle [] }

abbrev pub index_entries : List Chunk → List KeyValue
index_entries [] = []
index_entries (c ∷ cs) = index_entry c ∷ index_entries cs

pub all_entries-append :
    (cs : List Chunk) (c : Chunk) → all_entries (cs ++ (c ∷ [])) ≡ all_entries cs ++ entries c
all_entries-append [] c = append-nil (entries c)
all_entries-append (d ∷ cs) c =
    ap (λ t. entries d ++ t) (all_entries-append cs c)
    ∙ sym (append_assoc (entries d) (all_entries cs) (entries c))

pub index_entries-append :
    (cs : List Chunk) (c : Chunk)
    → index_entries (cs ++ (c ∷ [])) ≡ index_entries cs ++ (index_entry c ∷ [])
index_entries-append [] c = refl
index_entries-append (d ∷ cs) c = ap (λ t. index_entry d ∷ t) (index_entries-append cs c)

-- The parts of a sequence that is parted are.
pub Parted-front : (u : Bytes) (xs ys : List KeyValue) → Parted u (xs ++ ys) → Parted u xs
unfolding Parted
Parted-front u [] ys s = tt
Parted-front u (x ∷ xs) ys (h, s) = (λ stop. part xs (h stop), Parted-front u xs ys s)
  where
    part :
        (zs : List KeyValue)
        → All (λ y. slice_lt y.key u ≡ false) (zs ++ ys)
        → All (λ y. slice_lt y.key u ≡ false) zs
    part [] k = tt
    part (z ∷ zs) (k, ks) = (k, part zs ks)

pub Parted-back : (u : Bytes) (xs ys : List KeyValue) → Parted u (xs ++ ys) → Parted u ys
unfolding Parted
Parted-back u [] ys s = s
Parted-back u (x ∷ xs) ys (h, s) = Parted-back u xs ys s

pub All-last :
    (P : KeyValue → Type 0) (front : List KeyValue) (e : KeyValue) (rest : List KeyValue)
    → All P ((front ++ (e ∷ [])) ++ rest)
    → P e
All-last P [] e rest (h, hs) = h
All-last P (x ∷ front) e rest (h, hs) = All-last P front e rest hs

pub All-rest : (P : KeyValue → Type 0) (xs rest : List KeyValue) → All P (xs ++ rest) → All P rest
All-rest P [] rest h = h
All-rest P (x ∷ xs) rest (h, hs) = All-rest P xs rest hs

pub index_entries-All :
    (P Q : KeyValue → Type 0)
    → ((c : Chunk) → P c.last → Q (index_entry c))
    → (cs : List Chunk) → All P (all_entries cs)
    → All Q (index_entries cs)
index_entries-All P Q step [] h = tt
index_entries-All P Q step (c ∷ cs) h = (
  step c (All-last P c.front c.last (all_entries cs) h),
  index_entries-All P Q step cs (All-rest P (entries c) (all_entries cs) h),
)

last-Parted :
    (u : Bytes) (front : List KeyValue) (e : KeyValue) (rest : List KeyValue)
    → Parted u ((front ++ (e ∷ [])) ++ rest)
    → slice_lt e.key u ≡ false
    → All (λ y. slice_lt y.key u ≡ false) rest
unfolding Parted
last-Parted u [] e rest (h, s) stop = h stop
last-Parted u (x ∷ front) e rest (h, s) stop = last-Parted u front e rest s stop

pub index_entries-Parted :
    (u : Bytes) (cs : List Chunk) → Parted u (all_entries cs) → Parted u (index_entries cs)
unfolding Parted
index_entries-Parted u [] s = tt
index_entries-Parted u (c ∷ cs) s = (
  λ stop.
      index_entries-All (λ y. slice_lt y.key u ≡ false) (λ y. slice_lt y.key u ≡ false) (λ d h. h)
        cs (last-Parted u c.front c.last (all_entries cs) s stop),
  index_entries-Parted u cs (Parted-back u (entries c) (all_entries cs) s),
)

AllBelow-append :
    (u : Bytes) (front : List KeyValue) (e : KeyValue)
    → AllBelow u front
    → slice_lt e.key u ≡ true
    → AllBelow u (front ++ (e ∷ []))
AllBelow-append u [] e h k = (k, tt)
AllBelow-append u (x ∷ front) e (h, hs) k = (h, AllBelow-append u front e hs k)

-- Some entry of a block whose last key is not below the target is the first that is not.
from-last :
    (u : Bytes) (front : List KeyValue) (last : KeyValue) (rest : List KeyValue)
    → slice_lt last.key u ≡ false
    → (e : KeyValue) × (es : List KeyValue) × (es' : List KeyValue) × (from u (front ++ (last ∷ []))
        ≡ e ∷ es)
      × (from u ((front ++ (last ∷ [])) ++ rest) ≡ e ∷ es')
unfolding upper
from-last u [] last rest h = (last, [], rest, rw h refl, rw h refl)
from-last u (x ∷ front) last rest h = elim (Bool-cases (slice_lt x.key u)) [
  | inl below ↦
      let (e, es, es', p, q) = from-last u front last rest h in (e, es, es', rw below p, rw below q)
  | inr stop ↦ (x, front ++ (last ∷ []), (front ++ (last ∷ [])) ++ rest, rw stop refl, rw stop refl)
]

-- The first entry of the table that is not below the target stands in the block whose index entry is
-- the first that is not.
pub record Located (P : Chunk → Type 0) (u : Bytes) (cs : List Chunk) : Type 0 where
  pub chunk : Chunk
  pub others : List KeyValue
  pub holds : P chunk
  pub in_index : from u (index_entries cs) ≡ index_entry chunk ∷ others
  pub ordered : Parted u (entries chunk)
  pub e : KeyValue
  pub es : List KeyValue
  pub es' : List KeyValue
  pub in_chunk : from u (entries chunk) ≡ e ∷ es
  pub in_all : from u (all_entries cs) ≡ e ∷ es'

abbrev pub NotLocated : Bytes → List Chunk → Type 0
NotLocated u cs = (from u (index_entries cs) ≡ []) × (from u (all_entries cs) ≡ [])

pub locate :
    (P : Chunk → Type 0) (u : Bytes) (cs : List Chunk)
    → All P cs
    → Parted u (all_entries cs)
    → NotLocated u cs ⊎ Located P u cs
unfolding upper
locate P u [] h s = inl (refl, refl)
locate P u (c ∷ cs) (h, hs) s = elim (Bool-cases (slice_lt c.last.key u)) [
  | inr stop ↦
      let (e, es, es', p, q) = from-last u c.front c.last (all_entries cs) stop in
      inr (record {
        chunk = c;
        others = index_entries cs;
        holds = h;
        in_index = rw stop refl;
        ordered = Parted-front u (entries c) (all_entries cs) s;
        e = e;
        es = es;
        es' = es';
        in_chunk = p;
        in_all = q;
      })
  | inl below ↦
      let before =
        before-AllBelow u c.front c.last [] (Parted-front u (entries c) (all_entries cs) s) below in
      let skip =
        from-append u (entries c) (all_entries cs)
          (AllBelow-append u c.front c.last before below) in
      elim (locate P u cs hs (Parted-back u (entries c) (all_entries cs) s)) [
        | inl (none_in_index, none_in_all) ↦ inl (rw below none_in_index, skip ∙ none_in_all)
        | inr l ↦ inr (record {
          chunk = l.chunk;
          others = l.others;
          holds = l.holds;
          in_index = rw below l.in_index;
          ordered = l.ordered;
          e = l.e;
          es = l.es;
          es' = l.es';
          in_chunk = l.in_chunk;
          in_all = skip ∙ l.in_all;
        })
      ]
]
