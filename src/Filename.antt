-- ===== src/Filename.antt =====
-- src/db/filename.h and src/db/filename.cc: the names of the database's files.
pub mod Numbers
pub mod Names
pub mod Listing
mod Tests
use mini_leveldb.Prelude.{
  ℕ, zero, suc, ◌+◌, ◌-◌, ◌*◌, ◌/◌, ◌%◌, ◌^◌, min, ltb, leb, ◌==◌, if◌then◌else◌, Bool, true, ◌&&◌,
  not, Option, none, some, [], ◌∷◌, ◌++◌, Bytes, codes, length, take, drop,
}
use mini_leveldb.Slice.{slice_eq}

pub data FileType : Type 0 where
  log_file table_file temp_file : FileType

-- `std::to_string` of an unsigned number; the fuel exceeds the number, so also its digits.
pub decimal_digits : ℕ → ℕ → Bytes
decimal_digits zero n = []
decimal_digits (suc fuel) n =
    let front = decimal_digits fuel (n / 10) in
    if ltb n 10 then (48 + n) ∷ [] else front ++ ((48 + n % 10) ∷ [])

unfoldable pub decimal : ℕ → Bytes
unfolding decimal_digits
decimal n = decimal_digits (suc n) n

unfoldable pub log_file_name : Bytes → ℕ → Bytes
log_file_name dbname number = dbname ++ (codes "/" ++ (decimal number ++ codes ".log"))

unfoldable pub table_file_name : Bytes → ℕ → Bytes
table_file_name dbname number = dbname ++ (codes "/" ++ (decimal number ++ codes ".ldb"))

unfoldable pub temp_file_name : Bytes → ℕ → Bytes
temp_file_name dbname number = dbname ++ (codes "/" ++ (decimal number ++ codes ".ldb.tmp"))

-- What follows the last slash, `found` if there is none.
pub after_slash : Bytes → Bytes → Bytes
after_slash [] found = found
after_slash (c ∷ s) found = after_slash s (if c == 47 then s else found)

unfoldable pub last_segment : Bytes → Bytes
unfolding after_slash
last_segment fname = after_slash fname fname

-- `name.size() > n && name.compare(name.size() - n, n, suffix) == 0`
unfoldable pub has_suffix : Bytes → Bytes → Bool
has_suffix name suffix =
    ltb (length suffix) (length name) && slice_eq (drop (length name - length suffix) name) suffix

-- The type and the length of what stands in front of the suffix.
unfoldable pub classify : Bytes → Option (FileType × ℕ)
classify name =
    if has_suffix name (codes ".ldb.tmp")
    then some (temp_file, length name - 8)
    else if has_suffix name (codes ".ldb")
    then some (table_file, length name - 4)
    else if has_suffix name (codes ".log")
    then some (log_file, length name - 4)
    else none

abbrev pub is_digit : ℕ → Bool
is_digit c = leb 48 c && leb c 57

-- The loop over `name[0 .. base_len)`.
unfoldable pub only_digits : Bytes → Bool
only_digits [] = true
only_digits (c ∷ s) = is_digit c && only_digits s

-- `strtoull` to the base 10: the digits in front, at most the largest number of 64 bits.
pub digits_value : ℕ → Bytes → ℕ
digits_value value [] = value
digits_value value (c ∷ s) =
    let more = digits_value (value * 10 + (c - 48)) s in if is_digit c then more else value

unfoldable pub strtoull : Bytes → ℕ
unfolding digits_value
strtoull s = min (digits_value 0 s) (2 ^ 64 - 1)

unfoldable pub parse_file_name : Bytes → Option (ℕ × FileType)
parse_file_name fname =
    let name = last_segment fname in
    elim (classify name) [
      | none ↦ none
      | some (t, base_len) ↦
          if base_len == 0
          then none
          else if not (only_digits (take base_len name))
          then none
          else some (strtoull name, t)
    ]
