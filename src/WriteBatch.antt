-- ===== src/WriteBatch.antt =====
-- include/mini-leveldb/write_batch.h and src/db/write_batch.cc: a group of writes as one byte
-- string, [8 bytes sequence][4 bytes count][records].
pub mod Shape
pub mod Replay
mod Tests
use mini_leveldb.Prelude.{
  ℕ, zero, suc, ◌+◌, ◌-◌, ◌^◌, ltb, ◌==◌, if◌then◌else◌, Bool, Option, none, some, List, [], ◌∷◌,
  ◌++◌, Bytes, codes, length, take, drop, replicate, u32, u64, arith,
}
use mini_leveldb.Coding.{
  encode_fixed32, encode_fixed64, decode_fixed32, decode_fixed64, put_length_prefixed_slice,
  get_length_prefixed_slice,
}
use mini_leveldb.Status.{Status, success, corruption_status}

abbrev pub header_size : ℕ
header_size = 12

pub record WriteBatch : Type 0 where
  pub rep : Bytes

-- `EncodeFixed…(rep_.data() + at, …)` writes over the bytes that stand there.
unfoldable pub overwrite : ℕ → Bytes → Bytes → Bytes
overwrite at bytes rep = take at rep ++ (bytes ++ drop (at + length bytes) rep)

-- The constructor, and `Clear`.
unfoldable pub clear : WriteBatch
clear = record { rep = replicate header_size 0 }

-- `Count`, as the 32 bits of its `int`.
unfoldable pub count : WriteBatch → ℕ
count b = decode_fixed32 (drop 8 b.rep)

unfoldable pub sequence : WriteBatch → ℕ
sequence b = decode_fixed64 b.rep

unfoldable pub set_sequence : ℕ → WriteBatch → WriteBatch
unfolding overwrite
set_sequence seq b = record { rep = overwrite 0 (encode_fixed64 seq) b.rep }

-- `EncodeFixed32(rep_.data() + 8, Count() + 1)`, a sum of type `int`: `none` is its overflow, which C++
-- leaves undefined.
unfoldable pub bump_count : WriteBatch → Option WriteBatch
unfolding overwrite count
bump_count b =
    if count b == 2 ^ 31 - 1
    then none
    else some (record { rep = overwrite 8 (encode_fixed32 (u32 (count b + 1))) b.rep })

unfoldable pub put : Bytes → Bytes → WriteBatch → Option WriteBatch
put key value b =
    let tagged : Bytes = b.rep ++ (1 ∷ []) in
    bump_count
      (record { rep = put_length_prefixed_slice (put_length_prefixed_slice tagged key) value })

unfoldable pub delete : Bytes → WriteBatch → Option WriteBatch
delete key b =
    let tagged : Bytes = b.rep ++ (0 ∷ []) in
    bump_count (record { rep = put_length_prefixed_slice tagged key })

-- The new batch only if the contents have a header.
unfoldable pub set_contents : Bytes → WriteBatch → Status × WriteBatch
set_contents contents b =
    if ltb (length contents) header_size
    then (corruption_status (codes "malformed WriteBatch (too small)"), b)
    else (success, record { rep = contents })

-- `WriteBatch::Handler`, over the state that its two methods change.
pub record Handler {ℓ} (S : Type ℓ) : Type ℓ where
  pub put : ℕ → Bytes → Bytes → S → S
  pub delete : ℕ → Bytes → S → S

-- `static_cast<uint64_t>(Count())` extends the sign of the `int`.
abbrev pub sign_extend : ℕ → ℕ
sign_extend c = if ltb c (2 ^ 31) then c else c + (2 ^ 64 - 2 ^ 32)

-- What the two switch cases take off the input.
pub data Parsed : Type 0 where
  put_record : Bytes → Bytes → Bytes → Parsed
  delete_record : Bytes → Bytes → Parsed
  bad : Bytes → Parsed

parse_value : Bytes → Option Bytes × Bytes → Parsed
parse_value key (none, rest) = bad (codes "bad WriteBatch Put")
parse_value key (some value, rest) = put_record key value rest

parse_put : Option Bytes × Bytes → Parsed
unfolding parse_value
parse_put (none, rest) = bad (codes "bad WriteBatch Put")
parse_put (some key, rest) = parse_value key (get_length_prefixed_slice rest)

parse_delete : Option Bytes × Bytes → Parsed
parse_delete (none, rest) = bad (codes "bad WriteBatch Delete")
parse_delete (some key, rest) = delete_record key rest

unfoldable pub parse_record : ℕ → Bytes → Parsed
unfolding parse_put parse_delete
parse_record tag input =
    if tag == 1
    then parse_put (get_length_prefixed_slice input)
    else if tag == 0
    then parse_delete (get_length_prefixed_slice input)
    else bad (codes "unknown WriteBatch tag")

module _ {ℓ} {S : Type ℓ} (handler : Handler S) where
  -- The loop `while (!input.empty())` of `Iterate`; `none` means that the fuel ran out.
  pub iterate_loop : ℕ → Bytes → ℕ → ℕ → S → Option (Status × S)
  iterate_loop zero input seq remaining s = none
  iterate_loop (suc fuel) [] seq remaining s =
      if remaining == 0
      then some (success, s)
      else some (corruption_status (codes "WriteBatch has wrong count"), s)
  iterate_loop (suc fuel) (tag ∷ input) seq remaining s =
      if remaining == 0
      then some (corruption_status (codes "WriteBatch has too many records"), s)
      else elim (parse_record tag input) [
        | put_record key value rest ↦
            iterate_loop fuel rest (u64 (seq + 1)) (remaining - 1) (handler.put seq key value s)
        | delete_record key rest ↦
            iterate_loop fuel rest (u64 (seq + 1)) (remaining - 1) (handler.delete seq key s)
        | bad message ↦ some (corruption_status message, s)
      ]

  -- The loop takes a byte off the input in each round.
  unfoldable pub iterate : WriteBatch → S → Option (Status × S)
  unfolding iterate_loop
  iterate b s =
      let input : Bytes = drop header_size b.rep in
      iterate_loop (suc (length input)) input (sequence b) (sign_extend (count b)) s
