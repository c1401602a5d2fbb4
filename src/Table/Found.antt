-- ===== src/Table/Found.antt =====
-- `Get` of src/table/table.cc in one block, and the blocks of a whole table.
use mini_leveldb.Prelude.{
  ◌^◌, ◌<◌, ◌≡◌, subst, some, List, [], ◌∷◌, ◌++◌, length, Bytes, All, arith,
}
use mini_leveldb.Table.Footers.{IsHandle, length-encode_handle}
use mini_leveldb.Table.Builder.{no_handle}
use mini_leveldb.Table.Reader.{judged, get_in_block}
use mini_leveldb.Table.Chunks.{Chunk, entries, all_entries, index_entries, All-last, All-rest}
use mini_leveldb.Table.Stored.{image, Stored, Stored-IsHandle}
use mini_leveldb.Block.Builder.{reset, current_size_estimate}
use mini_leveldb.Block.Reader.{Block, new_iterator, seek}
use mini_leveldb.Block.Layout.{KeyValue, Fits, add_all}
use mini_leveldb.Block.Keys.{from, Parted}
use mini_leveldb.Block.Walk.{Steps}
use mini_leveldb.Block.Built.{length-finish, block, built, bytes, starts, seek_step}

pub estimate :
    (es : List KeyValue)
    → length (image es) < 2 ^ 32
    → current_size_estimate (add_all es reset) < 2 ^ 32
estimate es small = subst (λ n. n < 2 ^ 32) (length-finish (add_all es reset)) small

pub get_in_block-image :
    (user_key : Bytes) (es : List KeyValue)
    → All Fits es
    → length (image es) < 2 ^ 32
    → Parted user_key es
    → get_in_block user_key (image es) ≡ some (judged user_key (from user_key es))
get_in_block-image user_key es f small s =
    by_steps (from user_key es) (seek_step es user_key f (estimate es small) s)
  where
    b : Block
    b = block es f (estimate es small)

    by_steps :
        (found : List KeyValue)
        → Steps
            (bytes es f (estimate es small))
            (starts es f (estimate es small))
            found
            (seek user_key (new_iterator b))
        → get_in_block user_key (image es) ≡ some (judged user_key found)
    by_steps [] (it, run, ended) =
        unfold get_in_block judged in ground (arith, built es f (estimate es small), run, ended)
    by_steps (e ∷ rest) (it, run, st) =
        unfold get_in_block judged in
        ground (arith, built es f (estimate es small), run, st.valid, st.key, st.value)

pub no_handle-IsHandle : IsHandle no_handle
no_handle-IsHandle = record { offset_fits = omega arith; size_fits = omega arith }

abbrev AllStored : Bytes → List Chunk → Type 0
AllStored contents cs = All (λ c. Stored contents (image (entries c)) c.handle) cs

pub index_entries-Fits :
    (contents : Bytes) (cs : List Chunk)
    → length contents < 2 ^ 32
    → All Fits (all_entries cs)
    → AllStored contents cs
    → All Fits (index_entries cs)
index_entries-Fits contents [] short f h = tt
index_entries-Fits contents (c ∷ cs) short f (h, hs) = (
  (
    (All-last Fits c.front c.last (all_entries cs) f).0,
    omega (
      arith,
      length-encode_handle c.handle (Stored-IsHandle contents (image (entries c)) c.handle h short),
    ),
  ),
  index_entries-Fits contents cs short (All-rest Fits (entries c) (all_entries cs) f) hs,
)

-- A block in the file, with entries that fit.
abbrev pub Sound : Bytes → Chunk → Type 0
Sound contents c = Stored contents (image (entries c)) c.handle × All Fits (entries c)

All-start : (xs rest : List KeyValue) → All Fits (xs ++ rest) → All Fits xs
All-start [] rest f = tt
All-start (x ∷ xs) rest (h, hs) = (h, All-start xs rest hs)

pub all_entries-Sound :
    (contents : Bytes) (cs : List Chunk)
    → All Fits (all_entries cs)
    → AllStored contents cs
    → All (Sound contents) cs
all_entries-Sound contents [] f h = tt
all_entries-Sound contents (c ∷ cs) f (h, hs) = (
  (h, All-start (entries c) (all_entries cs) f),
  all_entries-Sound contents cs (All-rest Fits (entries c) (all_entries cs) f) hs,
)
