-- ===== src/Table/Writing.antt =====
-- `Add` and `FlushDataBlock` of src/table/table_builder.cc: the entries go into data blocks, and each
-- block has its entry in the index block.
use mini_leveldb.Prelude.{
  ◌+◌, true, false, ◌≡◌, refl, sym, ap, ap₂, subst, ◌∙◌, List, [], ◌∷◌, ◌++◌, length, u64, All,
  arith,
}
use mini_leveldb.Status.{is_ok}
use mini_leveldb.Stdio.{File}
use mini_leveldb.Table.Format.{write_block, block_trailer_size, encode_handle}
use mini_leveldb.Table.Stored.{image, Stored, Stored-all, write_block-Wrote}
use mini_leveldb.Table.Builder.{TableBuilder, new_table_builder, flush_data_block, no_handle}
use mini_leveldb.Table.Chunks.{Chunk, entries, index_entry, index_entries, index_entries-append}
use mini_leveldb.Block.Builder.{
  BlockBuilder, append_entry, reset, finish, is_empty, current_size_estimate,
}
use mini_leveldb.Block.Builder
use mini_leveldb.Block.Layout.{KeyValue, add_all}

-- A table under construction: these blocks are in the file, and these entries are in the block that
-- is being filled.
pub record Writing (b : TableBuilder) (cs : List Chunk) (open_entries : List KeyValue)
    : Type 0 where
  pub data_block : b.data_block ≡ add_all open_entries reset
  pub index_block : b.index_block ≡ add_all (index_entries cs) reset
  pub not_finished : b.finished ≡ false
  pub stored : All (λ c. Stored b.file.contents (image (entries c)) c.handle) cs

pub new_table_builder-Writing : (file : File) → Writing (new_table_builder file) [] []
unfolding new_table_builder add_all
new_table_builder-Writing file = record {
  data_block = refl;
  index_block = refl;
  not_finished = refl;
  stored = tt;
}

pub add_all-append :
    (es : List KeyValue) (e : KeyValue) (b : BlockBuilder)
    → add_all (es ++ (e ∷ [])) b ≡ Builder.add e.key e.value (add_all es b)
unfolding add_all
add_all-append [] e b = refl
add_all-append (x ∷ es) e b = add_all-append es e (Builder.add x.key x.value b)

All-snoc {κ} :
    (P : Chunk → Type κ) (cs : List Chunk) (c : Chunk) → All P cs → P c → All P (cs ++ (c ∷ []))
All-snoc P [] c h k = (k, tt)
All-snoc P (d ∷ cs) c (h, hs) k = (h, All-snoc P cs c hs k)

-- The builder after a block has been written.
abbrev flushed : TableBuilder → TableBuilder
flushed b =
    let contents = (finish b.data_block).0 in
    let (s, handle, file') = write_block b.file contents no_handle in
    record b {
      file = file';
      data_block = reset;
      index_block = Builder.add b.last_key (encode_handle handle []) b.index_block;
      file_size = u64 (b.file_size + (length contents + block_trailer_size));
    }

flush_data_block-flushed :
    (b : TableBuilder)
    → is_empty b.data_block ≡ false
    → is_ok (flush_data_block b).0 ≡ true
    → (is_ok (write_block b.file (finish b.data_block).0 no_handle).0 ≡ true)
      × ((flush_data_block b).1 ≡ flushed b)
unfolding flush_data_block
flush_data_block-flushed b some_entry ok = ground (arith, some_entry, ok)

-- `FlushDataBlock` of a block with entries, when it reports success.
pub flush-Writing :
    (b : TableBuilder) (cs : List Chunk) (front : List KeyValue) (last : KeyValue)
    → Writing b cs (front ++ (last ∷ []))
    → b.last_key ≡ last.key
    → is_empty b.data_block ≡ false
    → is_ok (flush_data_block b).0 ≡ true
    → (c : Chunk) × (entries c ≡ front ++ (last ∷ []))
      × Writing (flush_data_block b).1 (cs ++ (c ∷ [])) []
unfolding add_all
flush-Writing b cs front last w key some_entry ok =
    let (wrote_ok, after) = flush_data_block-flushed b some_entry ok in
    let contents = (finish b.data_block).0 in
    let handle = (write_block b.file contents no_handle).1 in
    let wrote = write_block-Wrote b.file contents no_handle wrote_ok in
    let c : Chunk = record { front = front; last = last; handle = handle } in
    let index : Builder.add b.last_key (encode_handle handle []) b.index_block
        ≡ add_all (index_entries (cs ++ (c ∷ []))) reset =
      ap₂ (λ k i. Builder.add k (encode_handle handle []) i) key w.index_block
      ∙ sym (add_all-append (index_entries cs) (index_entry c) reset)
      ∙ ap (λ t. add_all t reset) (sym (index_entries-append cs c)) in
    let file' = (flushed b).file in
    let old : All (λ d. Stored file'.contents (image (entries d)) d.handle) cs =
      subst (λ t. All (λ d. Stored t (image (entries d)) d.handle) cs) (sym wrote.grown)
        (Stored-all b.file.contents wrote.more cs w.stored) in
    let new : Stored file'.contents (image (entries c)) c.handle =
      subst (λ t. Stored file'.contents t handle) (ap (λ d. (finish d).0) w.data_block)
        wrote.stored in
    (
      c,
      refl,
      subst (λ t. Writing t (cs ++ (c ∷ [])) []) (sym after)
          (record {
            data_block = refl;
            index_block = index;
            not_finished = w.not_finished;
            stored =
                All-snoc (λ d. Stored file'.contents (image (entries d)) d.handle) cs c old new;
          }),
    )
