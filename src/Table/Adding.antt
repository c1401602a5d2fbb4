-- ===== src/Table/Adding.antt =====
-- `Add` of src/table/table_builder.cc: the entries that a table under construction holds.
use mini_leveldb.Prelude.{
  ℕ, ◌<◌, ◌≤◌, leb, Bool-cases, true, false, ◌≡◌, refl, sym, ap, subst, ◌∙◌, List, [], ◌∷◌, ◌++◌,
  append_assoc, append-nil, length, take, drop, ◌-◌, ◌⊎◌, u32, length-append, Bytes, inl, inr,
  arith,
}
use mini_leveldb.Coding.{put_varint32, encode_varint}
use mini_leveldb.Coding.Varint.{encode_varint-eq-groups, length-groups}
use mini_leveldb.Status.{Status, success, is_ok}
use mini_leveldb.Table.Builder.{TableBuilder, flush_data_block, add, block_size}
use mini_leveldb.Table.Chunks.{Chunk, all_entries, all_entries-append}
use mini_leveldb.Block.Builder.{
  BlockBuilder, append_entry, reset, finish, is_empty, current_size_estimate,
}
use mini_leveldb.Block.Builder
use mini_leveldb.Block.Layout.{KeyValue, add_all}
use mini_leveldb.Table.Writing.{Writing, flush-Writing, add_all-append}

-- Entries that have been added: all those in blocks, then those of the block that is being filled.
pub record Added (b : TableBuilder) (es : List KeyValue) : Type 0 where
  pub chunks : List Chunk
  pub rest : List KeyValue
  pub writing : Writing b chunks rest
  pub all : all_entries chunks ++ rest ≡ es
  pub current :
      (rest ≡ [])
      ⊎ ((front : List KeyValue) × (e : KeyValue) × (rest ≡ front ++ (e ∷ []))
          × (b.last_key ≡ e.key))

some_buffer : (b : BlockBuilder) → 0 < length b.buffer → is_empty b ≡ false
unfolding is_empty
some_buffer b h = by_buffer b.buffer h
  where
    by_buffer : (xs : Bytes) → 0 < length xs → elim xs [ [] ↦ true | x ∷ rest ↦ false ] ≡ false
    by_buffer [] l = absurd (omega arith)
    by_buffer (x ∷ xs) l = refl

append_entry-ne-nil :
    (shared : ℕ) (key value buffer : Bytes) → 0 < length (append_entry shared key value buffer)
unfolding append_entry put_varint32
append_entry-ne-nil shared key value buffer =
    let unshared = length key - shared in
    let c = u32 (length value) in
    let two = (buffer ++ encode_varint (u32 shared)) ++ encode_varint (u32 unshared) in
    let lengths = two ++ encode_varint c in
    let some_byte : 1 ≤ length (encode_varint c) =
      rw (encode_varint-eq-groups 4 c (omega arith)) (length-groups 4 c).0 in
    omega (
      arith,
      some_byte,
      length-append two (encode_varint c),
      length-append lengths (take unshared (drop shared key)),
      length-append (lengths ++ take unshared (drop shared key)) value,
    )

-- An entry has bytes.
pub is_empty-add :
    (key value : Bytes) (b : BlockBuilder) → is_empty (Builder.add key value b) ≡ false
unfolding Builder.add
is_empty-add key value b =
    some_buffer (Builder.add key value b) (append_entry-ne-nil _ key value b.buffer)

pub is_empty-snoc :
    (es : List KeyValue) (e : KeyValue) → is_empty (add_all (es ++ (e ∷ [])) reset) ≡ false
is_empty-snoc es e =
    ap is_empty (add_all-append es e reset) ∙ is_empty-add e.key e.value (add_all es reset)

-- The builder that `Add` has put an entry into, before it looks at the block's size.
abbrev with_entry : KeyValue → TableBuilder → TableBuilder
with_entry e b = record b { data_block = Builder.add e.key e.value b.data_block; last_key = e.key }

add-cases :
    (b : TableBuilder) (e : KeyValue)
    → b.finished ≡ false
    → (add e.key e.value b ≡ (success, with_entry e b))
      ⊎ (add e.key e.value b ≡ flush_data_block (with_entry e b))
unfolding add
add-cases b e not_finished =
    elim (Bool-cases
      (leb block_size (current_size_estimate (Builder.add e.key e.value b.data_block)))) [
        | inl full ↦ inr (ground (arith, not_finished, full))
        | inr not_full ↦ inl (ground (arith, not_finished, not_full))
      ]

-- `Add`, when it reports success.
pub add-Added :
    (b : TableBuilder) (es : List KeyValue) (e : KeyValue)
    → Added b es
    → is_ok (add e.key e.value b).0 ≡ true
    → Added (add e.key e.value b).1 (es ++ (e ∷ []))
add-Added b es e a ok =
    let w = a.writing in
    let b' = with_entry e b in
    let w' : Writing b' a.chunks (a.rest ++ (e ∷ [])) = record {
      data_block =
          ap (Builder.add e.key e.value) w.data_block ∙ sym (add_all-append a.rest e reset);
      index_block = w.index_block;
      not_finished = w.not_finished;
      stored = w.stored;
    } in
    let whole : all_entries a.chunks ++ (a.rest ++ (e ∷ [])) ≡ es ++ (e ∷ []) =
      sym (append_assoc (all_entries a.chunks) a.rest (e ∷ [])) ∙ ap (λ t. t ++ (e ∷ [])) a.all in
    elim (add-cases b e w.not_finished) [
      | inl run ↦
          subst (λ (r : Status × TableBuilder). Added r.1 (es ++ (e ∷ []))) (sym run)
            (record {
              chunks = a.chunks;
              rest = a.rest ++ (e ∷ []);
              writing = w';
              all = whole;
              current = inr (a.rest, e, refl, refl);
            })
      | inr run ↦
          let ok' : is_ok (flush_data_block b').0 ≡ true =
            ap (λ (r : Status × TableBuilder). is_ok r.0) (sym run) ∙ ok in
          let (c, same, w'') =
            flush-Writing b' a.chunks a.rest e w' refl (is_empty-add e.key e.value b.data_block)
              ok' in
          subst (λ (r : Status × TableBuilder). Added r.1 (es ++ (e ∷ []))) (sym run)
            (record {
              chunks = a.chunks ++ (c ∷ []);
              rest = [];
              writing = w'';
              all =
                  append-nil _
                  ∙ all_entries-append a.chunks c
                  ∙ ap (λ t. all_entries a.chunks ++ t) same
                  ∙ whole;
              current = inl refl;
            })
    ]
