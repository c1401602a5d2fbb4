-- ===== src/Table/Reader.antt =====
-- src/table/table.h and src/table/table.cc: a table file is opened and searched. `none` stands for
-- what the code does outside the bytes it has, which C++ leaves undefined.
use mini_leveldb.Prelude.{
  ◌-◌, ltb, not, ◌==◌, if◌then◌else◌, Option, none, some, ◌++◌, Bool, true, List, [], ◌∷◌, Bytes,
  codes, length, drop, bit_and,
}
use mini_leveldb.Slice.{slice_ne}
use mini_leveldb.Status.{Status, success, io_error_status, corruption_status, is_ok}
use mini_leveldb.Dbformat.{extract_user_key, extract_tag, type_code, type_value}
use mini_leveldb.Memtable.{LookupState, not_found, found_value, deleted}
use mini_leveldb.Table.Format.{decode_handle, decode_footer, encoded_length, read_block}
use mini_leveldb.Table.Builder.{no_handle, no_footer}
use mini_leveldb.Block.Layout.{KeyValue}
use mini_leveldb.Block.Reader.{Block, Iterator, new_block, new_iterator, seek}

-- The bytes of the open file, and the index block over a copy of its bytes.
pub record Table : Type 0 where
  pub contents : Bytes
  pub index_block : Block

-- Whether `DecodeFrom` comes back: `past_end` says whether the standard library's `remove_prefix` does
-- if the view is shorter than the prefix, which C++ leaves undefined.
abbrev pub comes_back : Bool → Option Bytes → Bool
comes_back past_end none = past_end
comes_back past_end (some rest) = true

-- `Open`, given the file's bytes if there is such a file. What `DecodeFrom` leaves of the footer's
-- slice is not used again.
unfoldable pub open_table : Bool → Bytes → Option Bytes → Option (Status × Option Table)
open_table past_end fname none = some (io_error_status (codes "open table failed: " ++ fname), none)
open_table past_end fname (some contents) =
    let n = length contents in
    let (s, footer, rest) = decode_footer no_footer (drop (n - encoded_length) contents) in
    if ltb n encoded_length
    then some (corruption_status (codes "file too small to be sstable"), none)
    else if not (comes_back past_end rest)
    then none
    else if not (is_ok s)
    then some (s, none)
    else elim (read_block contents footer.index_handle) [
      | none ↦ none
      | some (s', index_data) ↦
          if not (is_ok s') then some (s', none) else elim (new_block index_data) [
            | none ↦ none
            | some b ↦ some (success, some record { contents = contents; index_block = b })
          ]
    ]

-- What `Get` makes of the entry that it has found.
unfoldable pub judge_entry : Bytes → Bytes → Bytes → LookupState
judge_entry user_key ikey value =
    if slice_ne (extract_user_key ikey) user_key
    then not_found
    else if not (bit_and (extract_tag ikey) 0xff == type_code type_value)
    then deleted
    else found_value value

-- `Get` in a data block.
unfoldable pub get_in_block : Bytes → Bytes → Option LookupState
get_in_block user_key contents = elim (new_block contents) [
  | none ↦ none
  | some b ↦ elim (seek user_key (new_iterator b)) [
    | none ↦ none
    | some it ↦ if it.valid then some (judge_entry user_key it.key it.value) else some not_found
  ]
]

-- `Get` from the entry of the index block on.
unfoldable pub get_at : Bytes → Bytes → Iterator → Option LookupState
unfolding get_in_block
get_at user_key contents it =
    let (s, handle, rest) = decode_handle no_handle it.value in
    if not it.valid
    then some not_found
    else if not (is_ok s)
    then some not_found
    else elim (read_block contents handle) [
      | none ↦ none
      | some (s', block) ↦ if is_ok s' then get_in_block user_key block else some not_found
    ]

-- `Get`
unfoldable pub get : Bytes → Table → Option LookupState
unfolding get_at
get user_key t = elim (seek user_key (new_iterator t.index_block)) [
  | none ↦ none
  | some it ↦ get_at user_key t.contents it
]

-- What `Get` says when the search ends in front of these entries.
unfoldable pub judged : Bytes → List KeyValue → LookupState
unfolding judge_entry
judged user_key [] = not_found
judged user_key (e ∷ es) = judge_entry user_key e.key e.value
