-- ===== src/Log/Rounds.antt =====
-- One round of `ReadRecord` in src/db/log_reader.cc.
use mini_leveldb.Prelude.{
  ℕ, suc, ◌+◌, ◌<◌, if◌then◌else◌, Bool, true, false, ◌≡◌, subst, none, some, List, [], ◌∷◌, ◌++◌,
  append_assoc, Bytes, length, length-append, arith,
}
use mini_leveldb.Log.Format.{full_type, first_type, middle_type, last_type}
use mini_leveldb.Log.Layout.{Piece, padding, piece_bytes, next_offset, layout, length-piece_bytes}
use mini_leveldb.Log.Reader.{LogReader, read_ok, read_eof, read_physical_record, read_record_loop}
use mini_leveldb.Log.Fields.{FitsAt}
use mini_leveldb.Log.Position.{At}
use mini_leveldb.Log.Physical.{Returned, whole}
use mini_leveldb.Log.Cut.{Ended, cut}

-- The reader's string plays no part in where it stands.
pub At-res :
    {r : LogReader} {o : ℕ} {bytes : Bytes} (s : Bytes)
    → At r o bytes
    → At (record r { res = s }) o bytes
At-res s at = record {
  ahead = at.ahead;
  size = at.size;
  within = at.within;
  bound = at.bound;
  offset = at.offset;
  phase = at.phase;
}

pub At-if :
    {r : LogReader} {o : ℕ} {bytes : Bytes} (b : Bool) (s : Bytes)
    → At r o bytes
    → At (if b then record r { res = s } else r) o bytes
At-if true s at = At-res s at
At-if false s at = at

fuel_two : (n : ℕ) → suc (suc n) ≡ n + 2
fuel_two n = omega arith

-- The two ways that the next call of `ReadPhysicalRecord` goes.
pub next_piece :
    (o : ℕ) (x : Piece) (rest : Bytes) (r : LogReader)
    → FitsAt o x
    → At r o ((padding o ++ piece_bytes x) ++ rest)
    → Returned (length r.unread + 2) r x (next_offset o x) rest
next_piece o x rest r fits at =
    subst (λ f. Returned f r x (next_offset o x) rest) (fuel_two (length r.unread))
      (whole (length r.unread) o x rest r fits at)

pub no_piece :
    (o : ℕ) (x : Piece) (bytes : Bytes) (y : ℕ) (more : Bytes) (r : LogReader)
    → FitsAt o x
    → bytes ++ (y ∷ more) ≡ padding o ++ piece_bytes x
    → At r o bytes
    → Ended (length r.unread + 2) r
no_piece o x bytes y more r fits e at =
    subst (λ f. Ended f r) (fuel_two (length r.unread))
      (cut (length r.unread) o x bytes y more r fits e at)

-- One round of `ReadRecord`, by what the physical record is.
module _ (fuel : ℕ) (in_frag : Bool) (r r' : LogReader) (frag : Bytes) where
  pub round_full :
      read_physical_record (length r.unread + 2) r ≡ some (read_ok full_type frag, r')
      → read_record_loop (suc fuel) in_frag r
        ≡ some (some frag, (if in_frag then record r' { res = [] } else r'))
  unfolding read_record_loop
  round_full e = rw (e, read_record_loop)

  pub round_first :
      read_physical_record (length r.unread + 2) r ≡ some (read_ok first_type frag, r')
      → read_record_loop (suc fuel) in_frag r
        ≡ read_record_loop fuel true (record r' { res = frag })
  unfolding read_record_loop
  round_first e = rw (e, read_record_loop)

  pub round_middle :
      read_physical_record (length r.unread + 2) r ≡ some (read_ok middle_type frag, r')
      → read_record_loop (suc fuel) in_frag r
        ≡ read_record_loop fuel in_frag (if in_frag then record r' { res = r'.res ++ frag } else r')
  unfolding read_record_loop
  round_middle e = rw (e, read_record_loop)

  pub round_last :
      read_physical_record (length r.unread + 2) r ≡ some (read_ok last_type frag, r')
      → read_record_loop (suc fuel) true r
        ≡ some (some (r'.res ++ frag), record r' { res = r'.res ++ frag })
  unfolding read_record_loop
  round_last e = rw (e, read_record_loop)

pub round_eof :
    (fuel : ℕ) (in_frag : Bool) (r r' : LogReader)
    → read_physical_record (length r.unread + 2) r ≡ some (read_eof, r')
    → read_record_loop (suc fuel) in_frag r ≡ some (none, r')
unfolding read_record_loop
round_eof fuel in_frag r r' e = rw (e, read_record_loop)

-- What is in front of the reader at a row of pieces.
unfoldable pub front_of : ℕ → Piece → Bytes
front_of o x = padding o ++ piece_bytes x

pub layout-cons :
    (o : ℕ) (x : Piece) (xs : List Piece) (rest : Bytes)
    → layout o (x ∷ xs) ++ rest ≡ front_of o x ++ (layout (next_offset o x) xs ++ rest)
unfolding layout front_of
layout-cons o x xs rest = append_assoc (padding o ++ piece_bytes x) _ rest

pub length-front : (o : ℕ) (x : Piece) (rest : Bytes) → length rest < length (front_of o x ++ rest)
unfolding front_of
length-front o x rest = omega (
  arith,
  length-append (padding o ++ piece_bytes x) rest,
  length-append (padding o) (piece_bytes x),
  length-piece_bytes x,
)

-- A call of `ReadRecord` that returns this record, and where it leaves the reader.
abbrev pub Gives : ℕ → Bool → LogReader → Bytes → ℕ → Bytes → Type 0
Gives fuel in_frag r d o rest =
    (r' : LogReader) × (read_record_loop fuel in_frag r ≡ some (some d, r')) × At r' o rest

-- And one that returns false.
abbrev pub Stops : ℕ → Bool → LogReader → Type 0
Stops fuel in_frag r = (r' : LogReader) × (read_record_loop fuel in_frag r ≡ some (none, r'))
