-- ===== src/Memtable/Lookup.antt =====
-- `Get` of src/db/memtable.cc finds the newest entry of a key.
use mini_leveldb.Prelude.{
  ℕ, ◌+◌, ◌*◌, ◌^◌, ◌<◌, ◌==◌, if◌then◌else◌, true, ◌≡◌, ◌∙◌, ◌↔◌, inl, inr, List, [], ◌∷◌, Bytes,
  not, bit_and, bit_and_mask, arith,
}
use mini_leveldb.Slice.{slice_eq, slice_ne}
use mini_leveldb.Slice.Order.{Below}
use mini_leveldb.Dbformat.{
  ValueType, type_value, type_deletion, type_code, max_sequence_number, append_internal_key,
}
use mini_leveldb.Dbformat.Keys.{internal_key_less_iff, internal_parts, extract_tag-append}
use mini_leveldb.Memtable.{
  LookupState, not_found, found_value, deleted, Entry, entry_less, lookup_key, judge,
}

-- A write that the table holds.
pub record Write : Type 0 where
  pub key : Bytes
  pub seq : ℕ
  pub type : ValueType
  pub value : Bytes

abbrev pub entry_of : Write → Entry
entry_of w = record { ikey = append_internal_key [] w.key w.seq w.type; value = w.value }

-- What the newest write of a key says.
unfoldable pub state_of : ValueType → Bytes → LookupState
state_of type_value v = found_value v
state_of type_deletion v = deleted

unfoldable pub newest : Bytes → List Write → LookupState
newest user_key [] = not_found
newest user_key (w ∷ ws) =
    let older = newest user_key ws in
    if slice_eq w.key user_key then state_of w.type w.value else older

pub judge-entry_of :
    (user_key : Bytes) (w : Write)
    → w.seq < 2 ^ 56
    → judge user_key (entry_of w)
      ≡ (if slice_eq w.key user_key then state_of w.type w.value else not_found)
unfolding judge state_of slice_ne
judge-entry_of user_key w h =
    let user = (internal_parts w.key w.seq w.type).0 in
    let tag = extract_tag-append w.key w.seq w.type h in rw (user, tag) (by_type w.type)
  where
    by_type :
        (t : ValueType)
        → (if not (slice_eq w.key user_key)
            then not_found
            else if bit_and (w.seq * 256 + type_code t) 0xff == 1
            then found_value w.value
            else deleted)
          ≡ (if slice_eq w.key user_key then state_of t w.value else not_found)
    by_type type_value =
        let low : bit_and (w.seq * 256 + 1) 0xff ≡ 1 = bit_and_mask 8 _ ∙ omega arith in
        ground (arith, low)
    by_type type_deletion =
        let low : bit_and (w.seq * 256 + 0) 0xff ≡ 0 = bit_and_mask 8 _ ∙ omega arith in
        ground (arith, low)

-- Whether an entry stands in front of the key that is sought.
pub Below-lookup :
    (user_key : Bytes) (w : Write)
    → w.seq < 2 ^ 56
    → (entry_less (entry_of w) (lookup_key user_key) ≡ true) ↔ Below w.key user_key
unfolding entry_less lookup_key
Below-lookup user_key w h =
    let both =
      internal_key_less_iff w.key user_key w.seq max_sequence_number w.type type_value h
        (omega arith) in
    (
      λ e. elim (both.0 e) [
        | inl below ↦ below
        | inr (_, inl newer) ↦ absurd (omega (arith, h))
        | inr (_, inr (_, type)) ↦ absurd (no_type w.type type)
      ],
      λ below. both.1 (inl below),
    )
  where
    no_type : (t : ValueType) → 1 < type_code t → ⊥
    no_type type_value l = omega arith
    no_type type_deletion l = omega arith
