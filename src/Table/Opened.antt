-- ===== src/Table/Opened.antt =====
-- `Open` and `Get` of src/table/table.cc on a whole table.
use mini_leveldb.Prelude.{
  none, leb→le, take_all, ◌-◌, ◌^◌, ◌<◌, ◌≤◌, true, ◌≡◌, refl, sym, ap, ap₂, subst, ◌∙◌, some, List,
  [], append-nil, length, drop, drop-append, length-append, Bytes, All, inl, inr, arith,
}
use mini_leveldb.Status.{success, is_ok}
use mini_leveldb.Stdio.{File, on_device, fflush}
use mini_leveldb.Memtable.{not_found, entry_less}
use mini_leveldb.Memtable.Lookup.{Write, newest}
use mini_leveldb.Memtable.Newest.{entries_of, Numbered}
use mini_leveldb.Skiplist.Sequence.{Sorted}
use mini_leveldb.Table.Format.{
  decode_handle, encode_handle, decode_footer, encode_footer, read_block, encoded_length,
}
use mini_leveldb.Table.Footers.{
  IsHandle, decode-encode_handle, decode_footer_overrun, length-footer,
}
use mini_leveldb.Table.Builder.{no_handle, no_footer}
use mini_leveldb.Table.Reader.{Table, open_table, judged, get_at, get}
use mini_leveldb.Table.Chunks.{
  Chunk, entries, all_entries, index_entries, index_entries-Parted, locate,
}
use mini_leveldb.Table.Newest.{key_values_of, NoPrefix, key_values_of-Parted, judged-newest}
use mini_leveldb.Table.Stored.{image, Stored-small, Stored-IsHandle, read-Stored}
use mini_leveldb.Table.Finished.{build_table, Complete, footer_at, build_table-Complete}
use mini_leveldb.Block.Builder.{reset, current_size_estimate}
use mini_leveldb.Block.Reader.{Iterator, new_iterator, seek}
use mini_leveldb.Block.Layout.{KeyValue, Fits, add_all}
use mini_leveldb.Block.Keys.{from, Parted}
use mini_leveldb.Block.Walk.{Steps}
use mini_leveldb.Block.Built.{block, built, bytes, starts, seek_step}
use mini_leveldb.Table.Found.{
  estimate, get_in_block-image, no_handle-IsHandle, index_entries-Fits, Sound, all_entries-Sound,
}

module _ (contents : Bytes) (es : List KeyValue) (whole : Complete contents es)
    (short : length contents < 2 ^ 32) (f : All Fits es) where
  index : List KeyValue
  index = index_entries whole.chunks

  index-Fits : All Fits index
  unfolding index
  index-Fits =
      index_entries-Fits contents whole.chunks short (subst (All Fits) (sym whole.all) f)
        whole.stored

  index_small : current_size_estimate (add_all index reset) < 2 ^ 32
  unfolding index
  index_small = estimate index (
      omega (
        arith,
        Stored-small contents (image (index_entries whole.chunks)) whole.index_handle
            whole.index_stored short,
      ))

  index_IsHandle : IsHandle whole.index_handle
  index_IsHandle =
      Stored-IsHandle contents (image (index_entries whole.chunks)) whole.index_handle
        whole.index_stored short

  abbrev opened : Table
  opened = record { contents = contents; index_block = block index index-Fits index_small }

  -- `DecodeFrom` finds the footer, and runs over the end of its bytes.
  footer_read :
      decode_footer no_footer (drop (length contents - encoded_length) contents)
      ≡ (success, footer_at whole.index_handle, none)
  footer_read =
      let footer = encode_footer (footer_at whole.index_handle) [] in
      let n = length-footer (footer_at whole.index_handle) no_handle-IsHandle index_IsHandle in
      let at : length contents - encoded_length ≡ length whole.front =
        omega (arith, ap length whole.ends, length-append whole.front footer, n) in
      let tail : drop (length contents - encoded_length) contents ≡ footer =
        ap₂ drop at whole.ends ∙ drop-append (length whole.front) whole.front footer refl in
      ap (decode_footer no_footer) tail
      ∙ decode_footer_overrun (footer_at whole.index_handle) no_handle-IsHandle index_IsHandle
          no_footer

  -- `Open` of a whole table succeeds, if the overrun comes back.
  open_table-opened :
      (fname : Bytes) → open_table true fname (some contents) ≡ some (success, some opened)
  unfolding open_table
  open_table-opened fname =
      let n = length-footer (footer_at whole.index_handle) no_handle-IsHandle index_IsHandle in
      let long : encoded_length ≤ length contents = omega (
        arith,
        ap length whole.ends,
        length-append whole.front (encode_footer (footer_at whole.index_handle) []),
        n,
      ) in
      let read : read_block contents whole.index_handle ≡ some (success, image index) =
        unfold index in
        read-Stored contents (image (index_entries whole.chunks)) whole.index_handle
          whole.index_stored short in
      rw footer_read (ground (arith, long, read, built index index-Fits index_small))

  -- `Get` from the index block's entry of a block on.
  get_at-Sound :
      (user_key : Bytes) (c : Chunk) (it : Iterator)
      → Sound contents c
      → Parted user_key (entries c)
      → it.valid ≡ true
      → it.value ≡ encode_handle c.handle []
      → get_at user_key contents it ≡ some (judged user_key (from user_key (entries c)))
  unfolding get_at
  get_at-Sound user_key c it (stored, fits) s valid value =
      let decoded : decode_handle no_handle it.value ≡ (success, c.handle, []) =
        ap (decode_handle no_handle) (value ∙ sym (append-nil (encode_handle c.handle [])))
        ∙ decode-encode_handle no_handle c.handle []
            (Stored-IsHandle contents (image (entries c)) c.handle stored short) in
      let read : read_block contents c.handle ≡ some (success, image (entries c)) =
        read-Stored contents (image (entries c)) c.handle stored short in
      let inner =
        get_in_block-image user_key (entries c) fits
          (omega (arith, Stored-small contents (image (entries c)) c.handle stored short)) s in
      ground (arith, valid, decoded, read, inner)

  get_sought :
      (user_key : Bytes) (it : Iterator)
      → seek user_key (new_iterator opened.index_block) ≡ some it
      → get user_key opened ≡ get_at user_key contents it
  unfolding get
  get_sought user_key it run = ground (arith, run)

  -- `Get` goes through the index block to the one data block that can hold the key.
  get-opened :
      (user_key : Bytes)
      → Parted user_key es
      → get user_key opened ≡ some (judged user_key (from user_key es))
  unfolding index judged
  get-opened user_key s =
      let s' : Parted user_key (all_entries whole.chunks) =
        subst (Parted user_key) (sym whole.all) s in
      let steps =
        seek_step index user_key index-Fits index_small
          (index_entries-Parted user_key whole.chunks s') in
      let same : from user_key (all_entries whole.chunks) ≡ from user_key es =
        ap (from user_key) whole.all in
      elim (locate (Sound contents) user_key whole.chunks
        (all_entries-Sound contents whole.chunks (subst (All Fits) (sym whole.all) f) whole.stored)
        s') [
          | inl (none_in_index, none_in_all) ↦
              let (it, run, ended) =
                subst
                  (λ found.
                    Steps (bytes index index-Fits index_small) (starts index index-Fits index_small)
                      found (seek user_key (new_iterator opened.index_block)))
                  none_in_index steps in
              let nothing : get_at user_key contents it ≡ some not_found =
                unfold get_at in ground (arith, ended) in
              get_sought user_key it run
              ∙ nothing
              ∙ ap (λ found. some (judged user_key found)) (sym none_in_all ∙ same)
          | inr l ↦
              let (it, run, st) =
                subst
                  (λ found.
                    Steps (bytes index index-Fits index_small) (starts index index-Fits index_small)
                      found (seek user_key (new_iterator opened.index_block)))
                  l.in_index steps in
              get_sought user_key it run
              ∙ get_at-Sound user_key l.chunk it l.holds l.ordered st.valid st.value
              ∙ ap (λ found. some (judged user_key found)) l.in_chunk
              ∙ ap (λ found. some (judged user_key found)) (sym l.in_all ∙ same)
        ]

-- A table that is built from the writes of a memory table in the order of their internal keys, all
-- numbered below 2^56, with internal keys and values of less than 4 GiB: if the builder reports success, the
-- flush that it ignores reports success too, and the file is shorter than 4 GiB, then the file can be
-- opened, provided that the standard library's `remove_prefix` past a view's end comes back, and
-- `Get` of a user key says what the newest write of that key says, its value, that it is deleted or
-- that there is none, provided that no key of the table is a proper prefix of the user key.
pub get-build_table :
    (ws : List Write) (file : File) (fname user_key : Bytes)
    → Numbered ws
    → All Fits (key_values_of ws)
    → Sorted entry_less (entries_of ws)
    → let r = build_table (key_values_of ws) file in
      is_ok r.0 ≡ true
      → (fflush r.1.file).0 ≡ true
      → length r.1.file.contents < 2 ^ 32
      → NoPrefix user_key ws
      → (t : Table) × (open_table true fname (some (on_device r.1.file)) ≡ some (success, some t))
        × (get user_key t ≡ some (newest user_key ws))
get-build_table ws file fname user_key n f s ok flushed short p =
    let es = key_values_of ws in
    let built_file = (build_table es file).1.file in
    let contents = built_file.contents in
    let whole = build_table-Complete es file ok in
    let fits : length contents ≤ built_file.capacity = unfold fflush in leb→le _ _ flushed in
    let on : on_device built_file ≡ contents = take_all built_file.capacity contents fits in
    (
      opened contents es whole short f,
      ap (λ b. open_table true fname (some b)) on
          ∙ open_table-opened contents es whole short f fname,
      get-opened contents es whole short f user_key (key_values_of-Parted user_key ws n p s)
          ∙ ap some (judged-newest user_key ws n p s),
    )
