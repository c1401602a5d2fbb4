-- ===== src/Block/Walk.antt =====
-- `DecodeEntry` and `Next` of src/table/block.cc where entries stand one behind the other.
use mini_leveldb.Prelude.{
  ℕ, zero, suc, ◌^◌, ◌<◌, ◌≤◌, true, false, Option, none, some, List, [], ◌∷◌, ◌++◌, append_assoc,
  length-append, ◌≡◌, refl, sym, ap, ◌∙◌, Bytes, length, take, All, arith,
}
use mini_leveldb.Block.Reader.{Iterator, decode_entry, next, advance_restart}
use mini_leveldb.Block.Layout.{
  KeyValue, Fits, entry_bytes, encoded, shared_with, next_counter, shared_with_le,
}
use mini_leveldb.Block.Decode.{decode_entry-entry_bytes, shared-prefix}

-- The iterator is valid on the first of these entries and the others follow, or it is not valid and
-- none is left.
pub record Stands (bytes : Bytes) (points : List ℕ) (e : KeyValue) (es : List KeyValue)
    (it : Iterator) : Type 0 where
  pub front : Bytes
  pub counter : ℕ
  pub same_data : it.entry_data ≡ bytes
  pub same_points : it.restarts ≡ points
  pub split : bytes ≡ front ++ encoded counter e.key es
  pub current : it.current ≡ length front
  pub key : it.key ≡ e.key
  pub value : it.value ≡ e.value
  pub valid : it.valid ≡ true

abbrev pub Shows : Bytes → List ℕ → List KeyValue → Iterator → Type 0
Shows bytes points [] it = it.valid ≡ false
Shows bytes points (e ∷ es) it = Stands bytes points e es it

-- A step that ends on these entries.
abbrev pub Steps : Bytes → List ℕ → List KeyValue → Option Iterator → Type 0
Steps bytes points es r = (it : Iterator) × (r ≡ some it) × Shows bytes points es it

next-some :
    (it it' : Iterator)
    → it.valid ≡ true
    → decode_entry it ≡ some it'
    → next it
      ≡ some record it' {
        restart_index =
            advance_restart (length it'.restarts) it'.restarts it'.current it'.restart_index;
      }
unfolding next
next-some it it' valid run = ground (arith, valid, run)

module _ (bytes : Bytes) (points : List ℕ) (small : length bytes < 2 ^ 32) where
  -- `DecodeEntry` where entries start.
  pub decode_entry-encoded :
      (it : Iterator) (front last : Bytes) (counter : ℕ) (es : List KeyValue)
      → All Fits es
      → it.entry_data ≡ bytes
      → it.restarts ≡ points
      → bytes ≡ front ++ encoded counter last es
      → it.current ≡ length front
      → (0 < counter → it.key ≡ last)
      → Steps bytes points es (decode_entry it)
  unfolding encoded
  decode_entry-encoded it front last counter [] f same_data same_points split at old = (
    record it { valid = false },
    unfold decode_entry in
        ground (arith, at, ap length same_data, ap length split, length-append front []),
    refl,
  )
  decode_entry-encoded it front last counter (e ∷ es) ((hk, hv), f) same_data same_points split at
        old =
      let shared = shared_with counter last e.key in
      let prefix : (take shared it.key ≡ take shared e.key) × (shared ≤ length it.key) =
        shared-prefix counter last it.key e.key old in
      (
        _,
        decode_entry-entry_bytes it front (encoded (next_counter counter) e.key es) shared e
            (same_data ∙ split) at (omega (arith, small, ap length same_data)) (hk, hv)
            (shared_with_le counter last e.key) prefix.0 prefix.1,
        record {
          front = front ++ entry_bytes shared e;
          counter = next_counter counter;
          same_data = same_data;
          same_points = same_points;
          split = split ∙ sym (append_assoc front (entry_bytes shared e) _);
          current = refl;
          key = refl;
          value = refl;
          valid = refl;
        },
      )

  -- `Next` goes from an entry to the one behind it.
  pub next-Shows :
      (it : Iterator) (e : KeyValue) (es : List KeyValue)
      → All Fits es
      → Stands bytes points e es it
      → Steps bytes points es (next it)
  unfolding next
  next-Shows it e es f st =
      let (it', run, shows) =
        decode_entry-encoded it st.front e.key st.counter es f st.same_data st.same_points st.split
          st.current (λ _. st.key) in
      let it'' : Iterator = record it' {
        restart_index =
            advance_restart (length it'.restarts) it'.restarts it'.current it'.restart_index;
      } in
      (it'', next-some it it' st.valid run, moved es it' shows _)
    where
      moved :
          (es : List KeyValue) (it' : Iterator)
          → Shows bytes points es it'
          → (i : ℕ) → Shows bytes points es (record it' { restart_index = i })
      moved [] it' h i = h
      moved (e ∷ es) it' h i = record {
        front = h.front;
        counter = h.counter;
        same_data = h.same_data;
        same_points = h.same_points;
        split = h.split;
        current = h.current;
        key = h.key;
        value = h.value;
        valid = h.valid;
      }

-- The loop `for (; it.Valid(); it.Next())`, with the entries that it visits; `none` also if the fuel
-- runs out.
unfoldable pub visit : ℕ → Option Iterator → Option (List KeyValue)
visit fuel none = none
visit zero (some it) = none
visit (suc fuel) (some it) = elim it.valid [
  | false ↦ some []
  | true ↦ elim (visit fuel (next it)) [
    | none ↦ none
    | some es ↦ some (record { key = it.key; value = it.value } ∷ es)
  ]
]

-- From where entries stand the loop visits them all.
pub visit-Shows :
    (bytes : Bytes) (points : List ℕ) (fuel : ℕ) (r : Option Iterator) (es : List KeyValue)
    → length bytes < 2 ^ 32
    → All Fits es
    → length es < fuel
    → Steps bytes points es r
    → visit fuel r ≡ some es
unfolding visit
visit-Shows bytes points zero r es small f few steps = absurd (omega arith)
visit-Shows bytes points (suc fuel) r [] small f few (it, run, shows) = rw (run, shows) refl
visit-Shows bytes points (suc fuel) r (e ∷ es) small (fe, f) few (it, run, st) =
    rw
      (
        run,
        st.valid,
        visit-Shows bytes points fuel (next it) es small f (omega arith)
            (next-Shows bytes points small it e es f st),
        st.key,
        st.value,
      )
      refl
