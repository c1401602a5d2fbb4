-- ===== src/Slice.antt =====
-- include/mini-leveldb/slice.h: the order and the tests of byte strings. A Slice is the bytes that
-- it views.
pub mod Order
mod Tests
use mini_leveldb.Prelude.{
  ℕ, zero, suc, ◌-◌, min, leb, ltb, ◌==◌, if◌then◌else◌, Bool, true, false, not, ◌&&◌, [], ◌∷◌,
  Bytes, length, take, drop, Comparison, less, same, more,
}

-- `memcmp(a, b, n)` by the sign of its result. Both arguments have `n` bytes where it is called.
pub memcmp : ℕ → Bytes → Bytes → Comparison
memcmp zero a b = same
memcmp (suc n) [] b = same
memcmp (suc n) (x ∷ a) [] = same
memcmp (suc n) (x ∷ a) (y ∷ b) = if ltb x y then less else if ltb y x then more else memcmp n a b

-- `Slice::compare` after `memcmp`: a negative result is `less`, a positive one `more`.
pub compare_lengths : Comparison → ℕ → ℕ → Comparison
compare_lengths less m n = less
compare_lengths more m n = more
compare_lengths same m n = if ltb m n then less else if ltb n m then more else same

unfoldable pub compare : Bytes → Bytes → Comparison
unfolding memcmp compare_lengths
compare a b = compare_lengths (memcmp (min (length a) (length b)) a b) (length a) (length b)

unfoldable pub is_same : Comparison → Bool
is_same same = true
is_same _ = false

unfoldable pub is_less : Comparison → Bool
is_less less = true
is_less _ = false

-- `operator==`, `operator!=` and `operator<`.
unfoldable pub slice_eq : Bytes → Bytes → Bool
unfolding is_same compare
slice_eq a b = is_same (compare a b)

unfoldable pub slice_ne : Bytes → Bytes → Bool
unfolding slice_eq
slice_ne a b = not (slice_eq a b)

unfoldable pub slice_lt : Bytes → Bytes → Bool
unfolding is_less compare
slice_lt a b = is_less (compare a b)

unfoldable pub starts_with : Bytes → Bytes → Bool
unfolding is_same memcmp
starts_with a prefix = leb (length prefix) (length a) && is_same (memcmp (length prefix) a prefix)

-- A view cannot lose more bytes than it has: `std::string_view` leaves that undefined, and the
-- callers test the size.
abbrev pub remove_prefix : ℕ → Bytes → Bytes
remove_prefix n a = drop n a
