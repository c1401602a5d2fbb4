-- ===== src/Memtable/Get.antt =====
-- `Add` and `Get` of src/db/memtable.cc: the table is a map from keys to their newest writes.
use mini_leveldb.Prelude.{
  ℕ, ◌^◌, ◌<◌, if◌then◌else◌, Option-cases, ◌≡◌, ap, ◌∙◌, subst, inl, inr, some, List, [], Bytes,
  All, arith,
}
use mini_leveldb.Slice.{slice_eq}
use mini_leveldb.Skiplist.{node_at, find_greater_or_equal}
use mini_leveldb.Skiplist.Chain.{head_of}
use mini_leveldb.Skiplist.Keys.{KeysAt, nil, cons, key_of}
use mini_leveldb.Skiplist.Sequence.{Sorted, first}
use mini_leveldb.Skiplist.Refines.{
  Represents, position, search, new_list-Represents, insert-refines,
}
use mini_leveldb.Memtable.{Entry, entry_less, MemTable, new_table, add, lookup_key, get}
use mini_leveldb.Memtable.Lookup.{Write, entry_of, newest, state_of}
use mini_leveldb.Memtable.Newest.{
  entry_order, entries_of, Numbered, judged, judged-first, insert_write, entries_of-insert_write,
  insert_write-All, newest-insert_write,
}

-- The table holds these writes, in the order of their keys.
pub record Holds (table : MemTable) (ws : List Write) : Type 0 where
  pub represents : Represents table (entries_of ws)
  pub sorted : Sorted entry_less (entries_of ws)
  pub numbered : Numbered ws

get-at :
    (user_key : Bytes) (table : MemTable) (post : List ℕ) (high : List Entry) (prev : List ℕ)
    → find_greater_or_equal entry_less table (lookup_key user_key) ≡ some (head_of post, prev)
    → KeysAt table.nodes post high
    → get user_key table ≡ some (judged user_key (first entry_less (lookup_key user_key) high))
unfolding get judged key_of
get-at user_key table _ _ prev e nil = ground (arith, e)
get-at user_key table _ _ prev e (cons {a} {k} h hs) = elim (Option-cases (node_at table.nodes a)) [
  | inl missing ↦ ground (arith, missing, h)
  | inr (n, found) ↦ ground (arith, e, found, h)
]

-- `Get` on a table that holds writes ends and says what the newest write of the key says: its value,
-- or that it is deleted; and that the key is not there if no write has it.
pub get-newest :
    (table : MemTable) (ws : List Write) (user_key : Bytes)
    → Holds table ws
    → get user_key table ≡ some (newest user_key ws)
get-newest table ws user_key h =
    let p =
      position entry_less entry_order table (entries_of ws) (lookup_key user_key) h.represents
        h.sorted in
    let (prev, found) =
      search entry_less entry_order table (entries_of ws) (lookup_key user_key) h.represents
        h.sorted p in
    get-at user_key table p.post _ prev found p.high
    ∙ ap some (judged-first user_key ws h.numbered h.sorted)

pub new_table-Holds : Holds new_table []
unfolding new_table
new_table-Holds = record {
  represents = new_list-Represents (record { ikey = []; value = [] });
  sorted = tt;
  numbered = tt;
}

pub add-Holds :
    (table : MemTable) (ws : List Write) (w : Write)
    → Holds table ws
    → w.seq < 2 ^ 56
    → (table' : MemTable) × (add w.seq w.type w.key w.value table ≡ some table')
      × Holds table' (insert_write w ws)
unfolding add
add-Holds table ws w h lt =
    let (table', run, r, s) =
      insert-refines entry_less entry_order table (entries_of ws) (entry_of w) h.represents
        h.sorted in
    let same = entries_of-insert_write w ws in
    (
      table',
      run,
      record {
        represents = subst (Represents table') same r;
        sorted = subst (Sorted entry_less) same s;
        numbered = insert_write-All (λ v. v.seq < 2 ^ 56) w ws lt h.numbered;
      },
    )

-- `Add` of a write that is newer than all that the table holds ends; afterwards `Get` says of its
-- key what it says, the value or that the key is deleted, and of every other key what it said
-- before.
pub get-add :
    (table : MemTable) (ws : List Write) (w : Write) (user_key : Bytes)
    → Holds table ws
    → w.seq < 2 ^ 56
    → All (λ v. v.seq < w.seq) ws
    → (table' : MemTable) × (add w.seq w.type w.key w.value table ≡ some table')
      × (get user_key table' ≡ (
          if slice_eq w.key user_key then some (state_of w.type w.value) else get user_key table))
get-add table ws w user_key h lt newer =
    let (table', run, h') = add-Holds table ws w h lt in
    (
      table',
      run,
      get-newest table' (insert_write w ws) user_key h'
          ∙ ap some (newest-insert_write user_key w ws lt h.numbered newer)
          ∙ rw (get-newest table ws user_key h) (ground arith),
    )
