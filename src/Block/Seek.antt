-- ===== src/Block/Seek.antt =====
-- `Seek` of src/table/block.cc: the binary search over the restart points and the scan behind it.
use mini_leveldb.Prelude.{
  ℕ, zero, suc, ◌+◌, ◌-◌, ◌/◌, ◌^◌, ◌<◌, ◌≤◌, ltb, ◌==◌, ==_iff, Bool-cases, true, false, Option,
  some, List, [], ◌∷◌, ◌++◌, append_assoc, length-append, ◌≡◌, refl, sym, ap, subst, ◌∙◌, Bytes,
  length, get_or, All, inl, inr, arith,
}
use mini_leveldb.Slice.{slice_lt}
use mini_leveldb.Skiplist.Sequence.{upper}
use mini_leveldb.Block.Keys.{from, AllBelow, from-append, Parted, before-AllBelow}
use mini_leveldb.Block.Reader.{Iterator, decode_entry, next, search_restarts, scan, seek}
use mini_leveldb.Block.Layout.{
  KeyValue, Fits, encoded, points, offsets, entry_bytes, shared_with, next_counter,
}
use mini_leveldb.Block.Walk.{Shows, Steps, decode_entry-encoded, next-Shows}

module _ (bytes : Bytes) (ps : List ℕ) (small : length bytes < 2 ^ 32) (target : Bytes) where
  -- A round of the binary search.
  search_up :
      (fuel left right : ℕ) (it it' : Iterator) (key : Bytes)
      → ltb left right ≡ true
      → decode_entry (record it { current = get_or it.restarts ((left + right + 1) / 2) 0 })
        ≡ some it'
      → it'.key ≡ key
      → slice_lt key target ≡ true
      → search_restarts (suc fuel) target left right it
        ≡ search_restarts fuel target ((left + right + 1) / 2) right it'
  unfolding search_restarts
  search_up fuel left right it it' key on run same below =
      let here : slice_lt it'.key target ≡ true = ap (λ k. slice_lt k target) same ∙ below in
      ground (arith, on, run, here)

  search_down :
      (fuel left right : ℕ) (it it' : Iterator) (key : Bytes)
      → ltb left right ≡ true
      → decode_entry (record it { current = get_or it.restarts ((left + right + 1) / 2) 0 })
        ≡ some it'
      → it'.key ≡ key
      → slice_lt key target ≡ false
      → search_restarts (suc fuel) target left right it
        ≡ search_restarts fuel target left ((left + right + 1) / 2 - 1) it'
  unfolding search_restarts
  search_down fuel left right it it' key on run same above =
      let here : slice_lt it'.key target ≡ false = ap (λ k. slice_lt k target) same ∙ above in
      ground (arith, on, run, here)

  -- The search and the first step of the scan.
  seek-scan :
      (it it' first : Iterator) (i : ℕ)
      → 0 < length it.restarts
      → search_restarts (length it.restarts) target 0 (length it.restarts - 1) it ≡ some (i, it')
      → decode_entry (record it' { restart_index = i; current = get_or it'.restarts i 0 })
        ≡ some first
      → seek target it ≡ scan (suc (length it.entry_data)) target first
  unfolding seek
  seek-scan it it' first i some_point run run' = ground (arith, some_point, run, run')

  scan_stop :
      (fuel : ℕ) (it : Iterator) (key : Bytes)
      → it.valid ≡ true
      → it.key ≡ key
      → slice_lt key target ≡ false
      → scan (suc fuel) target it ≡ some it
  unfolding scan
  scan_stop fuel it key valid same stop =
      let here : slice_lt it.key target ≡ false = ap (λ k. slice_lt k target) same ∙ stop in
      ground (arith, valid, here)

  scan_on :
      (fuel : ℕ) (it it' : Iterator) (key : Bytes)
      → it.valid ≡ true
      → it.key ≡ key
      → slice_lt key target ≡ true
      → next it ≡ some it'
      → scan (suc fuel) target it ≡ scan fuel target it'
  unfolding scan
  scan_on fuel it it' key valid same on run =
      let here : slice_lt it.key target ≡ true = ap (λ k. slice_lt k target) same ∙ on in
      ground (arith, valid, here, run)

  scan-Shows :
      (fuel : ℕ) (it : Iterator) (es : List KeyValue)
      → length es < fuel
      → All Fits es
      → Shows bytes ps es it
      → Steps bytes ps (from target es) (scan fuel target it)
  unfolding scan upper
  scan-Shows zero it es few f h = absurd (omega arith)
  scan-Shows (suc fuel) it [] few f h = (it, rw h refl, h)
  scan-Shows (suc fuel) it (e ∷ es) few (fe, f) st = elim (Bool-cases (slice_lt e.key target)) [
    | inr stop ↦ rw stop (it, scan_stop fuel it e.key st.valid st.key stop, st)
    | inl on ↦
        let (it', run, shows) = next-Shows bytes ps small it e es f st in
        let (it'', run', shows') = scan-Shows fuel it' es (omega arith) f shows in
        rw on (it'', scan_on fuel it it' e.key st.valid st.key on run ∙ run', shows')
  ]

-- A restart point: the entries from there on, all the entries in front of it, and where it stands.
pub record Point (bytes : Bytes) (all : List KeyValue) (offset : ℕ) : Type 0 where
  pub front : Bytes
  pub last : Bytes
  pub before : List KeyValue
  pub e : KeyValue
  pub es : List KeyValue
  pub split : bytes ≡ front ++ encoded 0 last (e ∷ es)
  pub at : offset ≡ length front
  pub whole : all ≡ before ++ (e ∷ es)

pub points-Point :
    (bytes front last : Bytes) (counter : ℕ) (all before es : List KeyValue)
    → bytes ≡ front ++ encoded counter last es
    → all ≡ before ++ es
    → All (λ o. Point bytes all o) (offsets (points counter (length front) last es))
unfolding points offsets encoded
points-Point bytes front last counter all before [] split whole = tt
points-Point bytes front last counter all before (e ∷ es) split whole =
    let entry = entry_bytes (shared_with counter last e.key) e in
    let rest =
      points-Point bytes (front ++ entry) e.key (next_counter counter) all (before ++ (e ∷ [])) es
        (split ∙ sym (append_assoc front entry _))
        (whole ∙ sym (append_assoc before (e ∷ []) es)) in
    let others : All (λ o. Point bytes all o)
        (offsets (points (next_counter counter) (length front + length entry) e.key es)) =
      subst (λ n. All (λ o. Point bytes all o) (offsets (points (next_counter counter) n e.key es)))
        (length-append front entry) rest in
    elim (Bool-cases (counter == 0)) [
      | inr inside ↦ rw inside others
      | inl start ↦ rw start (
          (
            record {
              front = front;
              last = last;
              before = before;
              e = e;
              es = es;
              split =
                  split ∙ ap (λ c. front ++ encoded c last (e ∷ es)) ((==_iff counter 0).0 start);
              at = refl;
              whole = whole;
            },
            others,
          ))
    ]

All-behind : (before es : List KeyValue) → All Fits (before ++ es) → All Fits es
All-behind [] es f = f
All-behind (x ∷ before) es (h, f) = All-behind before es f

All-get_or {κ} :
    (P : ℕ → Type κ) (xs : List ℕ) (i : ℕ) → All P xs → i < length xs → P (get_or xs i 0)
All-get_or P [] i h lt = absurd (omega arith)
All-get_or P (x ∷ xs) zero (h, hs) lt = h
All-get_or P (x ∷ xs) (suc i) (h, hs) lt = All-get_or P xs i hs (omega arith)

module _ (bytes : Bytes) (ps : List ℕ) (all : List KeyValue) (target : Bytes)
    (small : length bytes < 2 ^ 32) (f : All Fits all) (s : Parted target all)
    (pts : All (λ o. Point bytes all o) ps) where
  -- `DecodeEntry` at a restart point.
  decode_entry-Point :
      (o : ℕ) (p : Point bytes all o) (it : Iterator)
      → it.entry_data ≡ bytes
      → it.restarts ≡ ps
      → it.current ≡ o
      → Steps bytes ps (p.e ∷ p.es) (decode_entry it)
  decode_entry-Point o p it same_data same_points at =
      decode_entry-encoded bytes ps small it p.front p.last 0 (p.e ∷ p.es)
        (All-behind p.before (p.e ∷ p.es) (subst (All Fits) p.whole f)) same_data same_points
        p.split (at ∙ p.at) (λ lt. absurd (omega arith))

  -- All entries in front of a restart point are below the target.
  abbrev Low : ℕ → Type 0
  Low i = (p : Point bytes all (get_or ps i 0)) × AllBelow target p.before

  abbrev Found : Option (ℕ × Iterator) → Type 0
  Found r =
      (i : ℕ) × (it : Iterator) × (r ≡ some (i, it))
      × (it.entry_data ≡ bytes)
      × (it.restarts ≡ ps)
      × Low i

  search_restarts-Found :
      (fuel left right : ℕ) (it : Iterator)
      → right - left < fuel
      → right < length ps
      → it.entry_data ≡ bytes
      → it.restarts ≡ ps
      → Low left
      → Found (search_restarts fuel target left right it)
  search_restarts-Found zero left right it few lt same_data same_points low = absurd (omega arith)
  search_restarts-Found (suc fuel) left right it few lt same_data same_points low =
      elim (Bool-cases (ltb left right)) [
        | inr stop ↦
            (left, it, unfold search_restarts in ground (arith, stop), same_data, same_points, low)
        | inl on ↦
            let mid = (left + right + 1) / 2 in
            let inside : left < right = ground (arith, on) in
            let p = All-get_or (λ o. Point bytes all o) ps mid pts (omega arith) in
            let (it', run, st) =
              decode_entry-Point (get_or ps mid 0) p
                (record it { current = get_or it.restarts mid 0 }) same_data same_points
                (ap (λ t. get_or t mid 0) same_points) in
            elim (Bool-cases (slice_lt p.e.key target)) [
              | inl below ↦
                  let (i, found, r, d, q, low') =
                    search_restarts-Found fuel mid right it' (omega arith) lt st.same_data
                      st.same_points
                      (
                        p,
                        before-AllBelow target p.before p.e p.es (subst (Parted target) p.whole s)
                            below,
                      ) in
                  (
                    i,
                    found,
                    search_up bytes ps small target fuel left right it it' p.e.key on run st.key
                          below
                        ∙ r,
                    d,
                    q,
                    low',
                  )
              | inr above ↦
                  let (i, found, r, d, q, low') =
                    search_restarts-Found fuel left (mid - 1) it' (omega arith) (omega arith)
                      st.same_data st.same_points low in
                  (
                    i,
                    found,
                    search_down bytes ps small target fuel left right it it' p.e.key on run st.key
                          above
                        ∙ r,
                    d,
                    q,
                    low',
                  )
            ]
      ]

  -- `Seek` from a low first restart point.
  pub seek-Shows :
      (it : Iterator)
      → it.entry_data ≡ bytes
      → it.restarts ≡ ps
      → 0 < length ps
      → length all ≤ length bytes
      → Low 0
      → Steps bytes ps (from target all) (seek target it)
  seek-Shows it same_data same_points some_point few low =
      let n : length it.restarts ≡ length ps = ap length same_points in
      let (i, it', run, same_data', same_points', (p, below)) =
        search_restarts-Found (length it.restarts) 0 (length it.restarts - 1) it (omega arith)
          (omega arith) same_data same_points low in
      let (first, run', st) =
        decode_entry-Point (get_or ps i 0) p
          (record it' { restart_index = i; current = get_or it'.restarts i 0 }) same_data'
          same_points' (ap (λ t. get_or t i 0) same_points') in
      let behind : length (p.e ∷ p.es) ≤ length all =
        omega (arith, ap length p.whole, length-append p.before (p.e ∷ p.es)) in
      let (last, run'', shows) =
        scan-Shows bytes ps small target (suc (length it.entry_data)) first (p.e ∷ p.es)
          (omega (arith, ap length same_data, behind, few))
          (All-behind p.before (p.e ∷ p.es) (subst (All Fits) p.whole f)) st in
      (
        last,
        seek-scan bytes ps small target it it' first i (omega (arith, n, some_point)) run run'
            ∙ run'',
        subst (λ es. Shows bytes ps es last)
            (sym (ap (from target) p.whole ∙ from-append target p.before (p.e ∷ p.es) below)) shows,
      )
