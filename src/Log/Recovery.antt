-- ===== src/Log/Recovery.antt =====
-- What the reader of src/db/log_reader.cc makes of a log that the writer wrote, cut anywhere.
use mini_leveldb.Prelude.{
  ℕ, zero, suc, ◌<◌, if◌then◌else◌, Bool, true, false, ◌≡◌, refl, ap, ◌∙◌, subst, inl, inr, some,
  List, [], ◌∷◌, ◌++◌, append_assoc, Bytes, length, append_cut, append-ne-nil, arith,
}
use mini_leveldb.Log.Format.{full_type, first_type, middle_type, last_type}
use mini_leveldb.Log.Layout.{Piece, next_offset, layout, end_offset}
use mini_leveldb.Log.Reader.{LogReader}
use mini_leveldb.Log.Fields.{FitsAt}
use mini_leveldb.Log.Position.{At}
use mini_leveldb.Log.Pieces.{Tail, last, middle, Pieces, full, first, Fitting}
use mini_leveldb.Log.Rounds.{
  At-res, At-if, next_piece, no_piece, round_full, round_first, round_middle, round_last, round_eof,
  front_of, layout-cons, length-front, Gives, Stops,
}

Tail-read :
    {d : Bytes} {xs : List Piece}
    → Tail d xs
    → (fuel o : ℕ) (rest : Bytes) (r : LogReader) → Fitting o xs
    → At r o (layout o xs ++ rest)
    → length (layout o xs ++ rest) < fuel
    → Gives fuel true r (r.res ++ d) (end_offset o xs) rest
unfolding layout end_offset front_of
Tail-read t zero o rest r fits at f = absurd (omega arith)
Tail-read (last d) (suc fuel) o rest r (fits, _) at f =
    let x : Piece = (last_type, d) in
    let (r', run, at', kept) =
      next_piece o x (layout (next_offset o x) [] ++ rest) r fits
        (subst (At r o) (layout-cons o x [] rest) at) in
    (
      record r' { res = r'.res ++ d },
      round_last fuel true r r' d run
          ∙ ap (λ s. some (some (s ++ d), record r' { res = r'.res ++ d })) kept,
      At-res (r'.res ++ d) at',
    )
Tail-read (middle c d {xs = xs} t) (suc fuel) o rest r (fits, more) at f =
    let x : Piece = (middle_type, c) in
    let rest' = layout (next_offset o x) xs ++ rest in
    let (r', run, at', kept) =
      next_piece o x rest' r fits (subst (At r o) (layout-cons o x xs rest) at) in
    let r2 : LogReader = record r' { res = r'.res ++ c } in
    let (r3, run', at3) =
      Tail-read t fuel (next_offset o x) rest r2 more (At-res (r'.res ++ c) at')
        (omega (arith, length-front o x rest', ap length (layout-cons o x xs rest))) in
    (
      r3,
      round_middle fuel true r r' c run
          ∙ run'
          ∙ ap (λ s. some (some s, r3)) (append_assoc r'.res c d ∙ ap (λ s. s ++ (c ++ d)) kept),
      at3,
    )

-- `ReadRecord` in front of all the pieces of a record returns the record.
pub Pieces-read :
    {d : Bytes} {xs : List Piece}
    → Pieces d xs
    → (fuel o : ℕ) (rest : Bytes) (r : LogReader) → Fitting o xs
    → At r o (layout o xs ++ rest)
    → length (layout o xs ++ rest) < fuel
    → Gives fuel false r d (end_offset o xs) rest
unfolding layout end_offset front_of
Pieces-read p zero o rest r fits at f = absurd (omega arith)
Pieces-read (full d) (suc fuel) o rest r (fits, _) at f =
    let x : Piece = (full_type, d) in
    let (r', run, at', kept) =
      next_piece o x (layout (next_offset o x) [] ++ rest) r fits
        (subst (At r o) (layout-cons o x [] rest) at) in
    (r', round_full fuel false r r' d run, at')
Pieces-read (first c d {xs = xs} t) (suc fuel) o rest r (fits, more) at f =
    let x : Piece = (first_type, c) in
    let rest' = layout (next_offset o x) xs ++ rest in
    let (r', run, at', kept) =
      next_piece o x rest' r fits (subst (At r o) (layout-cons o x xs rest) at) in
    let (r3, run', at3) =
      Tail-read t fuel (next_offset o x) rest (record r' { res = c }) more (At-res c at')
        (omega (arith, length-front o x rest', ap length (layout-cons o x xs rest))) in
    (r3, round_first fuel false r r' c run ∙ run', at3)

pub layout_split :
    (o : ℕ) (x : Piece) (xs : List Piece)
    → layout o (x ∷ xs) ≡ front_of o x ++ layout (next_offset o x) xs
unfolding layout front_of
layout_split o x xs = refl

-- The end of the file inside the next piece.
stop_here :
    (fuel o : ℕ) (in_frag : Bool) (x : Piece) (bytes : Bytes) (y : ℕ) (more : Bytes) (r : LogReader)
    → FitsAt o x
    → bytes ++ (y ∷ more) ≡ front_of o x
    → At r o bytes
    → Stops (suc fuel) in_frag r
unfolding front_of
stop_here fuel o in_frag x bytes y more r fits e at =
    let (r', run) = no_piece o x bytes y more r fits e at in (r', round_eof fuel in_frag r r' run)

Tail-cut :
    {d : Bytes} {xs : List Piece}
    → Tail d xs
    → (fuel o : ℕ) (in_frag : Bool) (bytes : Bytes) (y : ℕ) (more : Bytes) (r : LogReader)
    → Fitting o xs
    → bytes ++ (y ∷ more) ≡ layout o xs
    → At r o bytes
    → length bytes < fuel
    → Stops fuel in_frag r
Tail-cut t zero o in_frag bytes y more r fits e at f = absurd (omega arith)
Tail-cut (last d) (suc fuel) o in_frag bytes y more r (fits, _) e at f =
    let x : Piece = (last_type, d) in
    elim (append_cut bytes y more (front_of o x) _ (e ∙ layout_split o x [])) [
      | inl (z, zs, here) ↦ stop_here fuel o in_frag x bytes z zs r fits here at
      | inr (bytes', same, beyond) ↦
          absurd (append-ne-nil bytes' y more (beyond ∙ unfold layout in refl))
    ]
Tail-cut (middle c d {xs = xs} t) (suc fuel) o in_frag bytes y more r (fits, fitting) e at f =
    let x : Piece = (middle_type, c) in
    elim (append_cut bytes y more (front_of o x) _ (e ∙ layout_split o x xs)) [
      | inl (z, zs, here) ↦ stop_here fuel o in_frag x bytes z zs r fits here at
      | inr (bytes', same, beyond) ↦
          let (r', run, at', kept) =
            next_piece o x bytes' r fits (unfold front_of in subst (At r o) same at) in
          let r2 : LogReader = if in_frag then record r' { res = r'.res ++ c } else r' in
          let (r3, run') =
            Tail-cut t fuel (next_offset o x) in_frag bytes' y more r2 fitting beyond
              (At-if in_frag (r'.res ++ c) at')
              (omega (arith, length-front o x bytes', ap length same)) in
          (r3, round_middle fuel in_frag r r' c run ∙ run')
    ]

-- `ReadRecord` in front of the pieces of a record, cut by the end of the file, returns false.
pub Pieces-cut :
    {d : Bytes} {xs : List Piece}
    → Pieces d xs
    → (fuel o : ℕ) (bytes : Bytes) (y : ℕ) (more : Bytes) (r : LogReader) → Fitting o xs
    → bytes ++ (y ∷ more) ≡ layout o xs
    → At r o bytes
    → length bytes < fuel
    → Stops fuel false r
Pieces-cut p zero o bytes y more r fits e at f = absurd (omega arith)
Pieces-cut (full d) (suc fuel) o bytes y more r (fits, _) e at f =
    let x : Piece = (full_type, d) in
    elim (append_cut bytes y more (front_of o x) _ (e ∙ layout_split o x [])) [
      | inl (z, zs, here) ↦ stop_here fuel o false x bytes z zs r fits here at
      | inr (bytes', same, beyond) ↦
          absurd (append-ne-nil bytes' y more (beyond ∙ unfold layout in refl))
    ]
Pieces-cut (first c d {xs = xs} t) (suc fuel) o bytes y more r (fits, fitting) e at f =
    let x : Piece = (first_type, c) in
    elim (append_cut bytes y more (front_of o x) _ (e ∙ layout_split o x xs)) [
      | inl (z, zs, here) ↦ stop_here fuel o false x bytes z zs r fits here at
      | inr (bytes', same, beyond) ↦
          let (r', run, at', kept) =
            next_piece o x bytes' r fits (unfold front_of in subst (At r o) same at) in
          let (r3, run') =
            Tail-cut t fuel (next_offset o x) true bytes' y more (record r' { res = c }) fitting
              beyond (At-res c at') (omega (arith, length-front o x bytes', ap length same)) in
          (r3, round_first fuel false r r' c run ∙ run')
    ]
