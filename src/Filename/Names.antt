-- ===== src/Filename/Names.antt =====
-- The names that src/db/filename.cc makes, parsed back.
use mini_leveldb.Prelude.{
  ℕ, ◌+◌, ◌-◌, ◌<◌, true, false, ◌≡◌, refl, ap, sym, ◌∙◌, Bool-cases, inl, inr, some, [], ◌∷◌, ◌++◌,
  Bytes, codes, length, take, drop, get_or, length-append, take-append, drop-append, drop-drop,
  IsU64, arith,
}
use mini_leveldb.Slice.Order.{slice_eq_iff}
use mini_leveldb.Filename.{
  FileType, log_file, table_file, temp_file, decimal, log_file_name, table_file_name,
  temp_file_name, after_slash, last_segment, has_suffix, classify, only_digits, strtoull,
  parse_file_name,
}
use mini_leveldb.Filename.Numbers.{only_digits-decimal, decimal_some, strtoull-decimal}

-- The suffix of each type.
abbrev pub suffix : FileType → Bytes
suffix log_file = codes ".log"
suffix table_file = codes ".ldb"
suffix temp_file = codes ".ldb.tmp"

-- The name of a file, as the three functions make it.
unfoldable pub file_name : FileType → Bytes → ℕ → Bytes
file_name log_file dbname number = log_file_name dbname number
file_name table_file dbname number = table_file_name dbname number
file_name temp_file dbname number = temp_file_name dbname number

after_slash-digits :
    (digits rest found : Bytes)
    → only_digits digits ≡ true
    → after_slash (digits ++ rest) found ≡ after_slash rest found
unfolding after_slash only_digits
after_slash-digits [] rest found h = refl
after_slash-digits (c ∷ digits) rest found h = ground (arith, after_slash-digits digits rest found)

after_slash-suffix : (t : FileType) (found : Bytes) → after_slash (suffix t) found ≡ found
unfolding after_slash
after_slash-suffix log_file found = refl
after_slash-suffix table_file found = refl
after_slash-suffix temp_file found = refl

after_slash-append :
    (dbname name found : Bytes)
    → ((other : Bytes) → after_slash name other ≡ other)
    → after_slash (dbname ++ (47 ∷ name)) found ≡ name
unfolding after_slash
after_slash-append [] name found h = h name
after_slash-append (c ∷ dbname) name found h = after_slash-append dbname name _ h

file_name-eq-append :
    (t : FileType) (dbname : Bytes) (n : ℕ)
    → file_name t dbname n ≡ dbname ++ (47 ∷ (decimal n ++ suffix t))
unfolding file_name log_file_name table_file_name temp_file_name
file_name-eq-append log_file dbname n = refl
file_name-eq-append table_file dbname n = refl
file_name-eq-append temp_file dbname n = refl

last_segment-file_name :
    (t : FileType) (dbname : Bytes) (n : ℕ)
    → last_segment (file_name t dbname n) ≡ decimal n ++ suffix t
unfolding last_segment
last_segment-file_name t dbname n =
    ap (λ f. after_slash f f) (file_name-eq-append t dbname n)
    ∙ after_slash-append dbname (decimal n ++ suffix t) _ (λ other.
      after_slash-digits (decimal n) (suffix t) other (only_digits-decimal n)
      ∙ after_slash-suffix t other)

abbrev ending : ℕ → Bytes → Bytes
ending n name = drop (length name - n) name

ending-append : (front back : Bytes) (n : ℕ) → length back ≡ n → ending n (front ++ back) ≡ back
ending-append front back n h = drop-append _ front back (omega (arith, length-append front back))

-- A suffix that is found is the end of the name.
has_suffix-ending : (name suf : Bytes) → has_suffix name suf ≡ true → ending (length suf) name ≡ suf
unfolding has_suffix
has_suffix-ending name suf h = (slice_eq_iff _ _).0 (ground (arith, h))

has_suffix-append : (front suf : Bytes) → 0 < length front → has_suffix (front ++ suf) suf ≡ true
unfolding has_suffix
has_suffix-append front suf h =
    let end = (slice_eq_iff _ _).1 (ending-append front suf (length suf) refl) in
    ground (arith, h, length-append front suf, end)

has_suffix_tmp :
    (name : Bytes) → has_suffix name (codes ".ldb.tmp") ≡ true → ending 4 name ≡ codes ".tmp"
has_suffix_tmp name h =
    let end : drop (length name - 8) name ≡ codes ".ldb.tmp" =
      has_suffix-ending name (codes ".ldb.tmp") h in
    let long : 8 < length name = unfold has_suffix in ground (arith, h) in
    let at : length name - 4 ≡ length name - 8 + 4 = omega arith in
    ap (λ k. drop k name) at ∙ sym (drop-drop 4 (length name - 8) name) ∙ ap (drop 4) end

not_tmp :
    (front back : Bytes)
    → length back ≡ 4
    → (back ≡ codes ".tmp" → ⊥)
    → has_suffix (front ++ back) (codes ".ldb.tmp") ≡ false
not_tmp front back h other = elim (Bool-cases (has_suffix (front ++ back) (codes ".ldb.tmp"))) [
  | inl e ↦ absurd (other (sym (ending-append front back 4 h) ∙ has_suffix_tmp _ e))
  | inr e ↦ e
]

not_ldb : (front : Bytes) → has_suffix (front ++ codes ".log") (codes ".ldb") ≡ false
not_ldb front = elim (Bool-cases (has_suffix (front ++ codes ".log") (codes ".ldb"))) [
  | inl e ↦
      let end : codes ".log" ≡ codes ".ldb" =
        sym (ending-append front (codes ".log") 4 refl) ∙ has_suffix-ending _ (codes ".ldb") e in
      let byte : get_or (codes ".log") 2 0 ≡ get_or (codes ".ldb") 2 0 =
        ap (λ t. get_or t 2 0) end in
      absurd (omega arith)
  | inr e ↦ e
]

classify-append :
    (front : Bytes) (t : FileType)
    → 0 < length front
    → classify (front ++ suffix t) ≡ some (t, length front)
unfolding classify
classify-append front temp_file h =
    ground
      (arith, has_suffix-append front (codes ".ldb.tmp") h, length-append front (codes ".ldb.tmp"))
classify-append front table_file h = ground (
  arith,
  not_tmp front (codes ".ldb") refl
      (λ e. let byte : 108 ≡ 116 = ap (λ t. get_or t 1 0) e in omega arith),
  has_suffix-append front (codes ".ldb") h,
  length-append front (codes ".ldb"),
)
classify-append front log_file h = ground (
  arith,
  not_tmp front (codes ".log") refl
      (λ e. let byte : 108 ≡ 116 = ap (λ t. get_or t 1 0) e in omega arith),
  not_ldb front,
  has_suffix-append front (codes ".log") h,
  length-append front (codes ".log"),
)

strtoull-suffix : (n : ℕ) (t : FileType) → IsU64 n → strtoull (decimal n ++ suffix t) ≡ n
strtoull-suffix n log_file h = strtoull-decimal n 46 _ h refl
strtoull-suffix n table_file h = strtoull-decimal n 46 _ h refl
strtoull-suffix n temp_file h = strtoull-decimal n 46 _ h refl

-- `ParseFileName` reads back the number and the type of each name that `LogFileName`,
-- `TableFileName` and `TempFileName` make, for a number of 64 bits and in any directory.
pub parse-file_name :
    (t : FileType) (dbname : Bytes) (n : ℕ)
    → IsU64 n
    → parse_file_name (file_name t dbname n) ≡ some (n, t)
unfolding parse_file_name
parse-file_name t dbname n h =
    let name = last_segment-file_name t dbname n in
    let parts = classify-append (decimal n) t (decimal_some n) in
    let some_digits = decimal_some n in
    let digits : only_digits (take (length (decimal n)) (decimal n ++ suffix t)) ≡ true =
      ap only_digits (take-append _ (decimal n) (suffix t) refl) ∙ only_digits-decimal n in
    let number = strtoull-suffix n t h in ground (arith, name, parts, some_digits, digits, number)
