-- ===== src/Table/Finished.antt =====
-- `Finish` of src/table/table_builder.cc: a table that has been written whole.
use mini_leveldb.Prelude.{
  ==_iff, Bool-cases, if◌then◌else◌, true, false, ◌≡◌, refl, sym, ap, subst, ◌∙◌, List, [], ◌∷◌,
  ◌++◌, append_assoc, append-nil, length, Bytes, All, inl, inr, arith,
}
use mini_leveldb.Status.{Status, success, is_ok}
use mini_leveldb.Stdio.{File, fwrite, fflush, fwrite-Sent}
use mini_leveldb.Table.Format.{BlockHandle, Footer, encode_footer, write_block}
use mini_leveldb.Table.Builder.{
  TableBuilder, new_table_builder, flush_data_block, add, finish_index, finish_table, no_handle,
  no_footer,
}
use mini_leveldb.Table.Chunks.{Chunk, entries, all_entries, index_entries, all_entries-append}
use mini_leveldb.Table.Stored.{image, Stored, Stored-append, Stored-all, write_block-Wrote}
use mini_leveldb.Table.Writing.{Writing, new_table_builder-Writing, flush-Writing}
use mini_leveldb.Table.Adding.{is_empty-snoc, Added, add-Added}
use mini_leveldb.Block.Builder.{reset, finish, is_empty}
use mini_leveldb.Block.Layout.{KeyValue, add_all}

-- The loop `for (; it.Valid(); it.Next())` over sorted entries, which stops at the first failure.
unfoldable pub add_each : List KeyValue → TableBuilder → Status × TableBuilder
add_each [] b = (success, b)
add_each (e ∷ es) b =
    let (s, b') = add e.key e.value b in
    let rest = add_each es b' in if is_ok s then rest else (s, b')

-- A whole table.
unfoldable pub build_table : List KeyValue → File → Status × TableBuilder
build_table es file =
    let (s, b) = add_each es (new_table_builder file) in if is_ok s then finish_table b else (s, b)

add_each-Added :
    (before es : List KeyValue) (b : TableBuilder)
    → Added b before
    → is_ok (add_each es b).0 ≡ true
    → Added (add_each es b).1 (before ++ es)
unfolding add_each
add_each-Added before [] b a ok = subst (Added b) (sym (append-nil before)) a
add_each-Added before (e ∷ es) b a ok = elim (Bool-cases (is_ok (add e.key e.value b).0)) [
  | inr failed ↦ absurd (ground (arith, failed, ok))
  | inl fine ↦
      let b' = (add e.key e.value b).1 in
      let same : add_each (e ∷ es) b ≡ add_each es b' = ground (arith, fine) in
      let ok' : is_ok (add_each es b').0 ≡ true =
        ap (λ (r : Status × TableBuilder). is_ok r.0) (sym same) ∙ ok in
      subst (λ (r : Status × TableBuilder). Added r.1 (before ++ (e ∷ es))) (sym same)
        (subst (Added (add_each es b').1) (append_assoc before (e ∷ []) es)
          (add_each-Added (before ++ (e ∷ [])) es b' (add-Added b before e a fine) ok'))
]

-- The footer of a table whose index block stands there.
abbrev pub footer_at : BlockHandle → Footer
footer_at h = record no_footer { index_handle = h }

-- The bytes of a whole table that holds these entries.
pub record Complete (contents : Bytes) (es : List KeyValue) : Type 0 where
  pub chunks : List Chunk
  pub all : all_entries chunks ≡ es
  pub stored : All (λ c. Stored contents (image (entries c)) c.handle) chunks
  pub index_handle : BlockHandle
  pub index_stored : Stored contents (image (index_entries chunks)) index_handle
  pub front : Bytes
  pub ends : contents ≡ front ++ encode_footer (footer_at index_handle) []

-- The last block is flushed, if there is one.
flush_last :
    (b : TableBuilder) (es : List KeyValue)
    → Added b es
    → is_ok (flush_data_block b).0 ≡ true
    → (cs : List Chunk) × (all_entries cs ≡ es) × Writing (flush_data_block b).1 cs []
flush_last b es a ok = elim a.current [
  | inl nothing ↦
      let empty : is_empty b.data_block ≡ true =
        ap is_empty (a.writing.data_block ∙ ap (λ t. add_all t reset) nothing)
        ∙ (unfold is_empty add_all reset in refl) in
      let same : flush_data_block b ≡ (success, b) =
        unfold flush_data_block in ground (arith, empty) in
      (
        a.chunks,
        sym (append-nil _) ∙ ap (λ t. all_entries a.chunks ++ t) (sym nothing) ∙ a.all,
        subst (λ (r : Status × TableBuilder). Writing r.1 a.chunks []) (sym same)
            (subst (Writing b a.chunks) nothing a.writing),
      )
  | inr (front, e, same, key) ↦
      let w = subst (Writing b a.chunks) same a.writing in
      let some_entry : is_empty b.data_block ≡ false =
        ap is_empty w.data_block ∙ is_empty-snoc front e in
      let (c, whole, w') = flush-Writing b a.chunks front e w key some_entry ok in
      (
        a.chunks ++ (c ∷ []),
        all_entries-append a.chunks c
            ∙ ap (λ t. all_entries a.chunks ++ t) (whole ∙ sym same)
            ∙ a.all,
        w',
      )
]

abbrev index_written : TableBuilder → Status × BlockHandle × File
index_written b = write_block b.file (finish b.index_block).0 no_handle

abbrev footer_of : TableBuilder → Bytes
footer_of b = encode_footer (footer_at (index_written b).1) []

finish_index-run :
    (b : TableBuilder)
    → is_ok (finish_index b).0 ≡ true
    → (is_ok (index_written b).0 ≡ true)
      × ((fwrite (footer_of b) (index_written b).2).0 ≡ length (footer_of b))
      × ((finish_index b).1.file ≡ (fwrite (footer_of b) (index_written b).2).1)
unfolding finish_index fflush
finish_index-run b ok = ground (arith, ok)

finish_index-Complete :
    (b : TableBuilder) (cs : List Chunk)
    → Writing b cs []
    → is_ok (finish_index b).0 ≡ true
    → Complete (finish_index b).1.file.contents (all_entries cs)
finish_index-Complete b cs w ok =
    let (wrote_ok, whole, same_file) = finish_index-run b ok in
    let file' = (index_written b).2 in
    let h = (index_written b).1 in
    let footer = footer_of b in
    let wrote = write_block-Wrote b.file (finish b.index_block).0 no_handle wrote_ok in
    let all_taken = (fwrite-Sent footer file').taken ((==_iff _ _).1 whole) in
    let ends : (finish_index b).1.file.contents ≡ file'.contents ++ footer =
      ap (λ (f : File). f.contents) same_file ∙ all_taken in
    let index : Stored file'.contents (image (index_entries cs)) h =
      subst (λ t. Stored file'.contents t h) (ap (λ d. (finish d).0) w.index_block) wrote.stored in
    let blocks : All (λ c. Stored file'.contents (image (entries c)) c.handle) cs =
      subst (λ t. All (λ c. Stored t (image (entries c)) c.handle) cs) (sym wrote.grown)
        (Stored-all b.file.contents wrote.more cs w.stored) in
    record {
      chunks = cs;
      all = refl;
      stored =
          subst (λ t. All (λ c. Stored t (image (entries c)) c.handle) cs) (sym ends)
            (Stored-all file'.contents footer cs blocks);
      index_handle = h;
      index_stored =
          subst (λ t. Stored t (image (index_entries cs)) h) (sym ends)
            (Stored-append file'.contents footer (image (index_entries cs)) h index);
      front = file'.contents;
      ends = ends;
    }

finish_table-run :
    (b : TableBuilder)
    → is_ok (finish_table b).0 ≡ true
    → (is_ok (flush_data_block b).0 ≡ true) × (finish_table b ≡ finish_index (flush_data_block b).1)
unfolding finish_table
finish_table-run b ok = ground (arith, ok)

build_table-run :
    (es : List KeyValue) (file : File)
    → is_ok (build_table es file).0 ≡ true
    → (is_ok (add_each es (new_table_builder file)).0 ≡ true)
      × (build_table es file ≡ finish_table (add_each es (new_table_builder file)).1)
unfolding build_table
build_table-run es file ok = ground (arith, ok)

-- A builder that reports success has given the stream a whole table.
pub build_table-Complete :
    (es : List KeyValue) (file : File)
    → is_ok (build_table es file).0 ≡ true
    → Complete (build_table es file).1.file.contents es
build_table-Complete es file ok =
    let (added, run) = build_table-run es file ok in
    let b = (add_each es (new_table_builder file)).1 in
    let a : Added b es =
      add_each-Added [] es (new_table_builder file)
        (record {
          chunks = [];
          rest = [];
          writing = new_table_builder-Writing file;
          all = refl;
          current = inl refl;
        })
        added in
    let ok' : is_ok (finish_table b).0 ≡ true =
      ap (λ (r : Status × TableBuilder). is_ok r.0) (sym run) ∙ ok in
    let (flushed, run') = finish_table-run b ok' in
    let (cs, all, w) = flush_last b es a flushed in
    let b' = (flush_data_block b).1 in
    let ok'' : is_ok (finish_index b').0 ≡ true =
      ap (λ (r : Status × TableBuilder). is_ok r.0) (sym run') ∙ ok' in
    subst (λ (r : Status × TableBuilder). Complete r.1.file.contents es) (sym (run ∙ run'))
      (subst (Complete (finish_index b').1.file.contents) all (finish_index-Complete b' cs w ok''))
