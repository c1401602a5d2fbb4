-- ===== src/Block/Tests.antt =====
-- Runs on blocks.
use mini_leveldb.Prelude.{
  ◌+◌, ◌*◌, ◌-◌, ◌^◌, ◌<◌, ◌≤◌, ◌<◌, ◌↔◌, ◌≡◌, refl, Option, none, some, List, [], ◌∷◌, Bytes,
  codes, length, drop, u32, All, arith,
}
use mini_leveldb.Coding.{encode_fixed32, decode_fixed32, put_varint32, get_varint32, encode_varint}
use mini_leveldb.Slice.{slice_lt, compare, is_less}
use mini_leveldb.Table.Format.{resize}
use mini_leveldb.Skiplist.Sequence.{Sorted}
use mini_leveldb.Block.Builder.{
  BlockBuilder, reset, add, append_entry, count_shared, append_restarts, finish,
  current_size_estimate,
}
use mini_leveldb.Block.Reader.{
  Block, Iterator, new_block, read_restarts, new_iterator, get_lengths, decode_entry, seek,
  search_restarts, scan, next, seek_to_first, advance_restart,
}
use mini_leveldb.Block.Layout.{KeyValue, Fits, add_all}
use mini_leveldb.Block.Keys.{key_less, from}
use mini_leveldb.Block.Walk.{visit}
use mini_leveldb.Block.Built.{length-finish, visit-finish, visit-seek}
use mini_leveldb.Block.Damaged.{new_block_overrun}

abbrev three : BlockBuilder
three =
    add (codes "abd") (codes "3")
      (add (codes "abc") (codes "2") (add (codes "ab") (codes "1") reset))

abbrev found : Option Block → Option Iterator
found none = none
found (some b) = seek (codes "abcc") (new_iterator b)

abbrev value_of : Option Iterator → Bytes
value_of none = []
value_of (some it) = it.value

seek_run : value_of (found (new_block (finish three).0)) ≡ codes "3"
unfolding reset add append_entry count_shared append_restarts finish new_block read_restarts
    new_iterator get_lengths decode_entry seek search_restarts scan next advance_restart resize
    slice_lt compare is_less encode_fixed32 decode_fixed32 put_varint32 get_varint32 encode_varint
seek_run = refl

abbrev two : List KeyValue
two =
    record { key = codes "ab"; value = codes "1" }
    ∷ (record { key = codes "abc"; value = codes "2" } ∷ [])

two-Fits : All Fits two
two-Fits = ((omega arith, omega arith), ((omega arith, omega arith), tt))

two_small : current_size_estimate (add_all two reset) < 2 ^ 32
unfolding current_size_estimate add_all reset add append_entry count_shared put_varint32
    encode_varint
two_small = omega arith

two-Sorted : Sorted key_less two
unfolding slice_lt compare is_less
two-Sorted = ((refl, tt), (tt, tt))

length-finish_example : length (finish three).0 ≡ current_size_estimate three
length-finish_example = length-finish three

visit-finish_example :
    (b : Block) × (new_block (finish (add_all two reset)).0 ≡ some b)
    × (visit 3 (seek_to_first (new_iterator b)) ≡ some two)
visit-finish_example = visit-finish two two-Fits two_small

visit-seek_example :
    (b : Block) × (new_block (finish (add_all two reset)).0 ≡ some b)
    × (visit 3 (seek (codes "abb") (new_iterator b)) ≡ some (from (codes "abb") two))
visit-seek_example = visit-seek two (codes "abb") two-Fits two_small two-Sorted

-- A block of four bytes that counts 2^30 restart points.
abbrev four_bytes : Bytes
four_bytes = 0 ∷ (0 ∷ (0 ∷ (64 ∷ [])))

new_block_overrun_example : (new_block four_bytes ≡ none) ↔ (
    (2 ^ 30 ≤ decode_fixed32 (drop (length four_bytes - 4) four_bytes))
    × (4 + u32 (decode_fixed32 (drop (length four_bytes - 4) four_bytes) * 4) ≤ length four_bytes)
    × (u32 (decode_fixed32 (drop (length four_bytes - 4) four_bytes) * 4) + 4 < 2 ^ 32))
new_block_overrun_example = new_block_overrun four_bytes (omega arith)
