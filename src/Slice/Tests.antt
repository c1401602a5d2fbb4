-- ===== src/Slice/Tests.antt =====
-- Runs of the order of byte strings.
use mini_leveldb.Prelude.{◌≡◌, ◌↔◌, ◌++◌, refl, true, false, Bytes, codes, less, same, more}
use mini_leveldb.Slice.{compare, starts_with, slice_eq, slice_ne, slice_lt}
use mini_leveldb.Slice.Order.{Below, flip, compare_iff, operators_iff, starts_with_iff}

prefix_less : compare (codes "ab") (codes "abc") ≡ less
unfolding compare
prefix_less = refl

byte_decides : compare (codes "b") (codes "abc") ≡ more
unfolding compare
byte_decides = refl

starts_with_run : starts_with (codes "log.ldb") (codes "log") ≡ true
unfolding starts_with
starts_with_run = refl

eq_run : slice_eq (codes "a") (codes "b") ≡ false
unfolding slice_eq
eq_run = refl

compare_iff_example :
    ((compare (codes "a") (codes "b") ≡ less) ↔ Below (codes "a") (codes "b"))
    × ((compare (codes "a") (codes "b") ≡ same) ↔ (codes "a" ≡ codes "b"))
    × (compare (codes "b") (codes "a") ≡ flip (compare (codes "a") (codes "b")))
compare_iff_example = compare_iff (codes "a") (codes "b")

operators_iff_example :
    ((slice_lt (codes "a") (codes "ab") ≡ true) ↔ Below (codes "a") (codes "ab"))
    × ((slice_eq (codes "a") (codes "ab") ≡ true) ↔ (codes "a" ≡ codes "ab"))
    × ((slice_ne (codes "a") (codes "ab") ≡ true) ↔ ¬ (codes "a" ≡ codes "ab"))
operators_iff_example = operators_iff (codes "a") (codes "ab")

starts_with_iff_example :
    (starts_with (codes "log") (codes "l") ≡ true)
    ↔ ((rest : Bytes) × (codes "log" ≡ codes "l" ++ rest))
starts_with_iff_example = starts_with_iff (codes "log") (codes "l")
