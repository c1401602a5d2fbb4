-- ===== src/Log/Pieces.antt =====
-- The pieces that `AddRecord` makes of a record: one FULL piece, or a FIRST piece, MIDDLE pieces and
-- a LAST piece, each inside its block.
use mini_leveldb.Prelude.{
  ℕ, zero, suc, ◌+◌, ◌-◌, ◌≤◌, ◌<◌, min, ltb, ◌==◌, Bool, true, false, Bool-cases, ◌≡◌, refl, sym,
  subst, inl, inr, some, List, [], ◌∷◌, ◌++◌, Bytes, length, take, drop, length-take, length-drop,
  take-append-drop, take_all, lt→ltb, le→ltb, arith,
}
use mini_leveldb.Log.Format.{
  block_size, header_size, full_type, first_type, middle_type, last_type, type_code,
}
use mini_leveldb.Log.Writer.{piece_type}
use mini_leveldb.Log.Reader.{type_of_code}
use mini_leveldb.Log.Layout.{Piece, start, next_offset, end_offset, split, record_pieces, rounds}
use mini_leveldb.Log.Fields.{FitsAt}

-- The pieces behind a FIRST piece, with the bytes that they carry.
pub data Tail : Bytes → List Piece → Type 0 where
  last : (d : Bytes) → Tail d ((last_type, d) ∷ [])
  middle : (c d : Bytes) {xs : List Piece} → Tail d xs → Tail (c ++ d) ((middle_type, c) ∷ xs)

-- The pieces of a record.
pub data Pieces : Bytes → List Piece → Type 0 where
  full : (d : Bytes) → Pieces d ((full_type, d) ∷ [])
  first : (c d : Bytes) {xs : List Piece} → Tail d xs → Pieces (c ++ d) ((first_type, c) ∷ xs)

-- Each piece fits where the one before it ends.
abbrev pub Fitting : ℕ → List Piece → Type 0
Fitting o [] = Unit
Fitting o (x ∷ xs) = FitsAt o x × Fitting (next_offset o x) xs

-- How a piece is cut off a payload at offset `o`.
abbrev cut_at : ℕ → Bytes → ℕ
cut_at o payload = min (length payload) (block_size - start o - header_size)

typed_piece :
    (begin end : Bool)
    → type_of_code (type_code (piece_type begin end)) ≡ some (piece_type begin end)
unfolding type_of_code
typed_piece true true = refl
typed_piece true false = refl
typed_piece false true = refl
typed_piece false false = refl

-- A round fits its block, leaves room for the next, and uses fuel.
round_bounds :
    (fuel o : ℕ) (payload : Bytes)
    → o ≤ block_size
    → rounds o payload < suc fuel
    → let next = start o + (header_size + length (take (cut_at o payload) payload)) in
      (next ≤ block_size)
      × (cut_at o payload < length payload → rounds next (drop (cut_at o payload) payload) < fuel)
round_bounds fuel o payload h m =
    let n = cut_at o payload in
    (
      ground (arith, length-take n payload),
      λ more. ground (arith, length-take n payload, length-drop n payload),
    )

split_whole :
    (fuel o : ℕ) (payload : Bytes) (begin : Bool)
    → (cut_at o payload == length payload) ≡ true
    → split (suc fuel) o payload begin ≡ (piece_type begin true, payload) ∷ []
unfolding split
split_whole fuel o payload begin e =
    let n = cut_at o payload in
    let all : take n payload ≡ payload = take_all n payload (ground arith) in
    let nothing : ltb 0 (length (drop n payload)) ≡ false =
      le→ltb _ _ (ground (arith, length-drop n payload)) in
    rw (e, all, nothing)

split_more :
    (fuel o : ℕ) (payload : Bytes) (begin : Bool)
    → (cut_at o payload == length payload) ≡ false
    → let x : Piece = (piece_type begin false, take (cut_at o payload) payload) in
      split (suc fuel) o payload begin
      ≡ x ∷ split fuel (next_offset o x) (drop (cut_at o payload) payload) false
unfolding split
split_more fuel o payload begin e =
    let n = cut_at o payload in
    let some_left : ltb 0 (length (drop n payload)) ≡ true =
      lt→ltb _ _ (ground (arith, length-drop n payload)) in
    rw (e, some_left)

-- What is shown of the pieces at an offset.
abbrev Splits : (Bytes → List Piece → Type 0) → ℕ → Bytes → List Piece → Type 0
Splits P o payload xs = P payload xs × Fitting o xs × (end_offset o xs ≤ block_size)

whole_bounds :
    (o : ℕ) (payload : Bytes)
    → (cut_at o payload == length payload) ≡ true
    → start o + (header_size + length (take (cut_at o payload) payload)) ≤ block_size
    → start o + (header_size + length payload) ≤ block_size
whole_bounds o payload whole inside = ground (arith, length-take (cut_at o payload) payload)

abbrev remaining : ℕ → ℕ → Bytes → List Piece
remaining fuel o payload =
    let n = cut_at o payload in
    split fuel (start o + (header_size + length (take n payload))) (drop n payload) false

split-Tail :
    (fuel o : ℕ) (payload : Bytes)
    → o ≤ block_size
    → rounds o payload < fuel
    → Splits Tail o payload (split fuel o payload false)
unfolding end_offset
split-Tail zero o payload h m = absurd (omega arith)
split-Tail (suc fuel) o payload h m =
    let n = cut_at o payload in
    let (inside, shrinks) = round_bounds fuel o payload h m in
    elim (Bool-cases (n == length payload)) [
      | inl whole ↦
          let fits = whole_bounds o payload whole inside in
          subst (Splits Tail o payload) (sym (split_whole fuel o payload false whole))
            (last payload, (record { typed = typed_piece false true; inside = fits }, tt), fits)
      | inr partial ↦
          let (tail, fits, ends) =
            split-Tail fuel (start o + (header_size + length (take n payload))) (drop n payload)
              inside (shrinks (ground arith)) in
          subst (Splits Tail o payload) (sym (split_more fuel o payload false partial)) (
            subst (λ d. Tail d ((middle_type, take n payload) ∷ remaining fuel o payload))
                (take-append-drop n payload) (middle (take n payload) _ tail),
            (record { typed = typed_piece false false; inside = inside }, fits),
            ends,
          )
    ]

-- The pieces of a record written at any offset are a FULL piece with all of it, or a FIRST piece,
-- MIDDLE pieces and a LAST piece that carry it in order; none crosses the end of a block.
pub record_pieces-Pieces :
    (o : ℕ) (payload : Bytes)
    → o ≤ block_size
    → Pieces payload (record_pieces o payload)
      × Fitting o (record_pieces o payload)
      × (end_offset o (record_pieces o payload) ≤ block_size)
unfolding record_pieces end_offset
record_pieces-Pieces o payload h =
    let n = cut_at o payload in
    let fuel = suc (length payload) in
    let enough : suc fuel ≡ length payload + 2 = omega arith in
    let (inside, shrinks) = round_bounds fuel o payload h (ground arith) in
    subst (λ f. Splits Pieces o payload (split f o payload true)) enough
      (elim (Bool-cases (n == length payload)) [
        | inl whole ↦
            let fits = whole_bounds o payload whole inside in
            subst (Splits Pieces o payload) (sym (split_whole fuel o payload true whole))
              (full payload, (record { typed = typed_piece true true; inside = fits }, tt), fits)
        | inr partial ↦
            let (tail, fits, ends) =
              split-Tail fuel (start o + (header_size + length (take n payload))) (drop n payload)
                inside (shrinks (ground arith)) in
            subst (Splits Pieces o payload) (sym (split_more fuel o payload true partial)) (
              subst (λ d. Pieces d ((first_type, take n payload) ∷ remaining fuel o payload))
                  (take-append-drop n payload) (first (take n payload) _ tail),
              (record { typed = typed_piece true false; inside = inside }, fits),
              ends,
            )
      ])
