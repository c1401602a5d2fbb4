-- ===== src/Log/Position.antt =====
-- Where the reader of src/db/log_reader.cc stands in its file, and what `Refill` does.
use mini_leveldb.Prelude.{
  ℕ, ◌+◌, ◌≤◌, ltb, true, false, ◌≡◌, refl, ap, sym, ◌⊎◌, inl, inr, take-append-drop, Bool-cases,
  ltb→lt, ltb→le, ◌++◌, Bytes, length, take, drop, length-take, length-drop, subst, arith,
}
use mini_leveldb.Log.Format.{block_size}
use mini_leveldb.Log.Reader.{LogReader, refill, new_reader, open_reader}

-- Where a reader stands: at offset `o` of a block, with `bytes` of the file in front of it.
pub record At (r : LogReader) (o : ℕ) (bytes : Bytes) : Type 0 where
  pub ahead : drop r.pos r.buffer ++ r.unread ≡ bytes
  pub size : length r.buffer ≡ r.limit
  pub within : r.pos ≤ r.limit
  pub bound : r.limit ≤ block_size
  pub offset : r.pos ≡ o
  pub phase : ((r.eof ≡ true) × (length r.unread ≡ 0)) ⊎ ((r.eof ≡ false) × (r.limit ≡ block_size))

-- The reader after a block has been read.
abbrev pub refilled : LogReader → LogReader
refilled r = record r {
  unread = drop block_size r.unread;
  buffer = take block_size r.unread;
  base = r.base + r.limit;
  pos = 0;
  limit = length (take block_size r.unread);
  eof = ltb (length (take block_size r.unread)) block_size;
}

pub refill_lem :
    (r : LogReader)
    → r.eof ≡ false
    → refill r ≡ (ltb 0 (length (take block_size r.unread)), refilled r)
unfolding refill
refill_lem r fresh = rw fresh

pub refilled-At : (r : LogReader) → At (refilled r) 0 r.unread
refilled-At r =
    let chunk = take block_size r.unread in
    let size = length-take block_size r.unread in
    let left = length-drop block_size r.unread in
    record {
      ahead = take-append-drop block_size r.unread;
      size = refl;
      within = omega arith;
      bound = omega (arith, size);
      offset = refl;
      phase = elim (Bool-cases (ltb (length chunk) block_size)) [
        | inl short ↦ inl (short, omega (arith, size, left, ltb→lt _ _ short))
        | inr full ↦ inr (full, omega (arith, size, ltb→le _ _ full))
      ];
    }

pub open_reader-At : (contents : Bytes) → At (open_reader contents) 0 contents
unfolding open_reader
open_reader-At contents =
    subst (λ r. At r 0 contents) (sym (ap (λ p. p.1) (refill_lem (new_reader contents) refl)))
      (refilled-At (new_reader contents))
