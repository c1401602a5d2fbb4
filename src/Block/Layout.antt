-- ===== src/Block/Layout.antt =====
-- Which bytes and restart points `Add` of src/table/block_builder.cc makes of entries.
use mini_leveldb.Prelude.{
  ℕ, ◌+◌, ◌-◌, ◌^◌, ◌<◌, ◌≤◌, ltb, leb, ◌==◌, if◌then◌else◌, Bool-cases, List, [], ◌∷◌, ◌++◌,
  append-nil, append_assoc, length-append, ◌≡◌, refl, sym, ap, ◌∙◌, Bytes, length, take, drop,
  take_all, length-drop, u32, All, IsU32, inl, inr, arith,
}
use mini_leveldb.Coding.{put_varint32, encode_varint}
use mini_leveldb.Block.Builder.{BlockBuilder, restart_interval, add, append_entry, count_shared}

pub record KeyValue : Type 0 where
  pub key : Bytes
  pub value : Bytes

abbrev pub Fits : KeyValue → Type 0
Fits e = IsU32 (length e.key) × IsU32 (length e.value)

unfoldable pub entry_bytes : ℕ → KeyValue → Bytes
entry_bytes shared e =
    encode_varint shared
    ++ (encode_varint (length e.key - shared)
        ++ (encode_varint (length e.value) ++ (drop shared e.key ++ e.value)))

pub append_entry-eq-append :
    (shared : ℕ) (e : KeyValue) (buffer : Bytes)
    → Fits e
    → shared ≤ length e.key
    → append_entry shared e.key e.value buffer ≡ buffer ++ entry_bytes shared e
unfolding append_entry entry_bytes put_varint32
append_entry-eq-append shared e buffer (hk, hv) le =
    let s : u32 shared ≡ shared = omega arith in
    let u : u32 (length e.key - shared) ≡ length e.key - shared = omega arith in
    let v : u32 (length e.value) ≡ length e.value = omega arith in
    let new : take (length e.key - shared) (drop shared e.key) ≡ drop shared e.key =
      take_all _ (drop shared e.key) (omega (arith, length-drop shared e.key)) in
    rw (s, u, v, new) (simp append_assoc)

pub take-zero : (xs : Bytes) → take 0 xs ≡ []
take-zero [] = refl
take-zero (x ∷ xs) = refl

-- The bytes that two keys share stand in front of both.
pub count_shared-prefix :
    (key last : Bytes)
    → (take (count_shared key last) last ≡ take (count_shared key last) key)
      × (count_shared key last ≤ length key)
      × (count_shared key last ≤ length last)
unfolding count_shared
count_shared-prefix [] last = (take-zero last, omega arith, omega arith)
count_shared-prefix (x ∷ key) [] = (refl, omega arith, omega arith)
count_shared-prefix (x ∷ key) (y ∷ last) =
    let (same, short, short') = count_shared-prefix key last in ground (arith, same, short, short')

abbrev pub shared_with : ℕ → Bytes → Bytes → ℕ
shared_with counter last key = if ltb 0 counter then count_shared key last else 0

abbrev pub next_counter : ℕ → ℕ
next_counter counter = if leb restart_interval (counter + 1) then 0 else counter + 1

-- The bytes of entries behind a key, with so many entries since the last restart point.
unfoldable pub encoded : ℕ → Bytes → List KeyValue → Bytes
encoded counter last [] = []
encoded counter last (e ∷ es) =
    entry_bytes (shared_with counter last e.key) e ++ encoded (next_counter counter) e.key es

-- The restart points: where each stands, and the entries from there on.
unfoldable pub points : ℕ → ℕ → Bytes → List KeyValue → List (ℕ × List KeyValue)
points counter at last [] = []
points counter at last (e ∷ es) =
    let others =
      points (next_counter counter) (at + length (entry_bytes (shared_with counter last e.key) e))
        e.key es in
    if counter == 0 then (at, e ∷ es) ∷ others else others

unfoldable pub offsets : List (ℕ × List KeyValue) → List ℕ
offsets [] = []
offsets ((at, es) ∷ ps) = at ∷ offsets ps

unfoldable pub add_all : List KeyValue → BlockBuilder → BlockBuilder
add_all [] b = b
add_all (e ∷ es) b = add_all es (add e.key e.value b)

pub shared_with_le : (counter : ℕ) (last key : Bytes) → shared_with counter last key ≤ length key
shared_with_le counter last key = ground (arith, (count_shared-prefix key last).1)

add-KeyValue :
    (e : KeyValue) (b : BlockBuilder)
    → Fits e
    → (add e.key e.value b).buffer
      ≡ b.buffer ++ entry_bytes (shared_with b.counter b.last_key e.key) e
unfolding add
add-KeyValue e b f =
    append_entry-eq-append (shared_with b.counter b.last_key e.key) e b.buffer f
      (shared_with_le b.counter b.last_key e.key)

pub buffer-add_all :
    (es : List KeyValue) (b : BlockBuilder)
    → All Fits es
    → (add_all es b).buffer ≡ b.buffer ++ encoded b.counter b.last_key es
unfolding add_all encoded
buffer-add_all [] b f = sym (append-nil b.buffer)
buffer-add_all (e ∷ es) b (f, fs) =
    let c : (add e.key e.value b).counter ≡ next_counter b.counter = unfold add in refl in
    let l : (add e.key e.value b).last_key ≡ e.key = unfold add in refl in
    buffer-add_all es (add e.key e.value b) fs
    ∙ rw (c, l, add-KeyValue e b f) (append_assoc b.buffer _ _)

pub restarts-add_all :
    (es : List KeyValue) (b : BlockBuilder)
    → All Fits es
    → length b.buffer + length (encoded b.counter b.last_key es) < 2 ^ 32
    → (add_all es b).restarts
      ≡ b.restarts ++ offsets (points b.counter (length b.buffer) b.last_key es)
unfolding add_all encoded points offsets
restarts-add_all [] b f small = sym (append-nil b.restarts)
restarts-add_all (e ∷ es) b (f, fs) small =
    let entry = entry_bytes (shared_with b.counter b.last_key e.key) e in
    let b' = add e.key e.value b in
    let c : b'.counter ≡ next_counter b.counter = unfold add in refl in
    let l : b'.last_key ≡ e.key = unfold add in refl in
    let n : length b'.buffer ≡ length b.buffer + length entry =
      ap length (add-KeyValue e b f) ∙ length-append b.buffer entry in
    let here : u32 (length b.buffer) ≡ length b.buffer = omega arith in
    let r : b'.restarts
        ≡ (if b.counter == 0 then b.restarts ++ (length b.buffer ∷ []) else b.restarts) =
      unfold add in ap (λ t. if b.counter == 0 then b.restarts ++ (t ∷ []) else b.restarts) here in
    let total : length b.buffer + length entry + length (encoded (next_counter b.counter) e.key es)
        < 2 ^ 32 =
      omega (arith, small, length-append entry (encoded (next_counter b.counter) e.key es)) in
    let small' : length b'.buffer + length (encoded b'.counter b'.last_key es) < 2 ^ 32 =
      rw (c, l, n) total in
    restarts-add_all es b' fs small'
    ∙ rw (c, l, n, r)
        (elim (Bool-cases (b.counter == 0)) [
          | inl point ↦ rw point (append_assoc b.restarts (length b.buffer ∷ []) _)
          | inr inside ↦ rw inside refl
        ])
