-- ===== src/Block/Reader.antt =====
-- src/table/block.h and src/table/block.cc: the bytes of a block become an iterator. `none` stands for
-- what the code does outside the bytes it has, which C++ leaves undefined.
use mini_leveldb.Prelude.{
  ℕ, zero, suc, ◌+◌, ◌-◌, ◌*◌, ◌/◌, ltb, leb, ◌==◌, ◌&&◌, if◌then◌else◌, Bool, true, false, Option,
  none, some, List, [], ◌∷◌, ◌++◌, Bytes, length, take, drop, get_or, u32,
}
use mini_leveldb.Coding.{decode_fixed32, get_varint32}
use mini_leveldb.Slice.{slice_lt}
use mini_leveldb.Table.Format.{resize}

pub record Block : Type 0 where
  pub entry_data : Bytes
  pub restarts : List ℕ

-- The loop of the constructor from index `i` on, with `n` offsets left; `p` holds the bytes up to the
-- block's end. `i * 4` is a product of 32 bits.
unfoldable pub read_restarts : ℕ → ℕ → Bytes → Option (List ℕ)
read_restarts zero i p = some []
read_restarts (suc n) i p =
    let at = drop (u32 (i * 4)) p in
    let rest = read_restarts n (i + 1) p in
    if ltb (length at) 4
    then none
    else elim rest [ none ↦ none | some offsets ↦ some (decode_fixed32 at ∷ offsets) ]

abbrev pub no_block : Block
no_block = record { entry_data = []; restarts = [] }

-- The constructor. `count * 4` is a product of 32 bits.
unfoldable pub new_block : Bytes → Option Block
new_block contents =
    let n = length contents in
    let count = decode_fixed32 (drop (n - 4) contents) in
    let array_size = u32 (count * 4) in
    let start = n - 4 - array_size in
    if ltb n 4
    then some no_block
    else if ltb n (4 + array_size)
    then some no_block
    else elim (read_restarts count 0 (drop start contents)) [
      | none ↦ none
      | some restarts ↦ some record { entry_data = take start contents; restarts = restarts }
    ]

pub record Iterator : Type 0 where
  pub entry_data : Bytes
  pub restarts : List ℕ
  pub current : ℕ
  pub restart_index : ℕ
  pub key : Bytes
  pub value : Bytes
  pub valid : Bool

-- `NewIterator`
unfoldable pub new_iterator : Block → Iterator
new_iterator b = record {
  entry_data = b.entry_data;
  restarts = b.restarts;
  current = 0;
  restart_index = 0;
  key = [];
  value = [];
  valid = false;
}

-- The three lengths of an entry, and the bytes behind them.
unfoldable pub get_lengths : Bytes → Option (ℕ × ℕ × ℕ × Bytes)
get_lengths input = elim (get_varint32 input) [
  | none ↦ none
  | some (shared, input') ↦ elim (get_varint32 input') [
    | none ↦ none
    | some (unshared, input'') ↦ elim (get_varint32 input'') [
      | none ↦ none
      | some (value_len, rest) ↦ some (shared, unshared, value_len, rest)
    ]
  ]
]

-- `DecodeEntry`. The key's new bytes and the value lie in the data, else `none`: the code does not
-- compare their lengths with what is left of the data.
unfoldable pub decode_entry : Iterator → Option Iterator
decode_entry it =
    if leb (length it.entry_data) it.current
    then some record it { valid = false }
    else elim (get_lengths (drop it.current it.entry_data)) [
      | none ↦ some record it { valid = false }
      | some (shared, unshared, value_len, input) ↦
          let behind = drop unshared input in
          let entry_size = length it.entry_data - length behind - it.current + value_len in
          if leb (unshared + value_len) (length input)
          then some record it {
            current = u32 (it.current + u32 entry_size);
            key = resize shared it.key ++ take unshared input;
            value = take value_len behind;
            valid = true;
          }
          else none
    ]

-- `SeekToFirst`
unfoldable pub seek_to_first : Iterator → Option Iterator
seek_to_first it = elim it.restarts [
  | [] ↦ some record it { valid = false }
  | first ∷ others ↦ decode_entry (record it { restart_index = 0; current = first })
]

-- The loop of `Next`; each round takes a restart point, so as many rounds as there are points do.
unfoldable pub advance_restart : ℕ → List ℕ → ℕ → ℕ → ℕ
advance_restart zero restarts current index = index
advance_restart (suc n) restarts current index =
    let on = advance_restart n restarts current (index + 1) in
    if ltb (index + 1) (length restarts) && leb (get_or restarts (index + 1) 0) current
    then on
    else index

-- `Next`
unfoldable pub next : Iterator → Option Iterator
unfolding advance_restart
next it =
    if it.valid
    then elim (decode_entry it) [
      | none ↦ none
      | some it' ↦ some record it' {
        restart_index =
            advance_restart (length it'.restarts) it'.restarts it'.current it'.restart_index;
      }
    ]
    else some it

-- The binary search of `Seek`, and `none` also if the fuel runs out.
unfoldable pub search_restarts : ℕ → Bytes → ℕ → ℕ → Iterator → Option (ℕ × Iterator)
search_restarts zero target left right it = none
search_restarts (suc fuel) target left right it =
    let mid = (left + right + 1) / 2 in
    if ltb left right
    then elim (decode_entry (record it { current = get_or it.restarts mid 0 })) [
      | none ↦ none
      | some it' ↦ elim (slice_lt it'.key target) [
        | true ↦ search_restarts fuel target mid right it'
        | false ↦ search_restarts fuel target left (mid - 1) it'
      ]
    ]
    else some (left, it)

-- The linear scan of `Seek`, and `none` also if the fuel runs out.
unfoldable pub scan : ℕ → Bytes → Iterator → Option Iterator
unfolding next
scan zero target it = none
scan (suc fuel) target it = elim (it.valid && slice_lt it.key target) [
  | false ↦ some it
  | true ↦ elim (next it) [ none ↦ none | some it' ↦ scan fuel target it' ]
]

-- `Seek`. The search halves the range of restart points, and a step of the scan takes bytes off the
-- data.
unfoldable pub seek : Bytes → Iterator → Option Iterator
unfolding search_restarts scan decode_entry
seek target it =
    let n = length it.restarts in
    if n == 0
    then some record it { valid = false }
    else elim (search_restarts n target 0 (n - 1) it) [
      | none ↦ none
      | some (left, it') ↦
          elim (decode_entry
            (record it' { restart_index = left; current = get_or it'.restarts left 0 })) [
              | none ↦ none
              | some first ↦ scan (suc (length it.entry_data)) target first
            ]
    ]
