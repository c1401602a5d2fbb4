-- ===== src/Stdio.antt =====
-- The part of C's stdio that the program writes through: a buffered stream onto a device of limited
-- size. The stream takes bytes before the device does, so a call can report success for bytes for
-- which the device has no room; `fflush` is the call that tells.
use mini_leveldb.Prelude.{
  ℕ, zero, suc, ◌+◌, ◌-◌, ◌^◌, ◌≤◌, ◌<◌, ◌==◌, ==_iff, leb, ltb, Bool, Bool-cases, true, false,
  if◌then◌else◌, Option, none, some, min, ◌≡◌, refl, ap, ap₂, sym, ◌∙◌, inl, inr, List, [], ◌∷◌,
  ◌++◌, append-nil, append_assoc, Bytes, length, take, drop, take_all, take-append-drop,
  length-append, length-take, arith,
}

-- `contents` are the bytes that the stream has taken, `capacity` is the size of the device, and
-- `takes` says how many bytes more than the device has room for a call still takes into the buffer,
-- given what the stream has taken before.
pub record File : Type 0 where
  pub contents : Bytes
  pub capacity : ℕ
  pub takes : ℕ → ℕ

-- What the device has room for, and what is on it in the end.
abbrev pub room : File → ℕ
room f = f.capacity - length f.contents

abbrev pub on_device : File → Bytes
on_device f = take f.capacity f.contents

-- The number of bytes taken. A call of which all bytes fit takes them all.
abbrev pub taken_by : ℕ → File → ℕ
taken_by n f = if leb n (room f) then n else min n (room f + f.takes (length f.contents))

unfoldable pub fwrite : Bytes → File → ℕ × File
fwrite bytes f =
    let n = taken_by (length bytes) f in (n, record f { contents = f.contents ++ take n bytes })

-- Whether all bytes that the stream has taken are on the device.
unfoldable pub fflush : File → Bool × File
fflush f = (leb (length f.contents) f.capacity, f)

-- The position of a stream that is only written to: a `long`, so `none` past its range.
unfoldable pub ftell : File → Option ℕ
ftell f = if ltb (length f.contents) (2 ^ 63) then some (length f.contents) else none

pub take-more {ℓ} :
    {A : Type ℓ} (n : ℕ) (xs ys : List A) → n ≤ length xs → take n (xs ++ ys) ≡ take n xs
take-more zero [] [] h = refl
take-more zero [] (y ∷ ys) h = refl
take-more zero (x ∷ xs) ys h = refl
take-more (suc n) [] ys h = absurd (omega arith)
take-more (suc n) (x ∷ xs) ys h = ap (λ t. x ∷ t) (take-more n xs ys (omega arith))

-- What writing bytes comes to, in one call or in several that stop at the first failure: the device
-- has the bytes as far as it has room, the calls succeed if all of them fit, and the stream has taken
-- all of them if they succeed.
pub record Sent (bytes : Bytes) (f : File) (ok : Bool) (f' : File) : Type 0 where
  pub capacity : f'.capacity ≡ f.capacity
  pub device : on_device f' ≡ take f.capacity (f.contents ++ bytes)
  pub fits : length bytes ≤ room f → ok ≡ true
  pub taken : ok ≡ true → f'.contents ≡ f.contents ++ bytes

pub fwrite-Sent :
    (bytes : Bytes) (f : File)
    → Sent bytes f ((fwrite bytes f).0 == length bytes) (fwrite bytes f).1
unfolding fwrite
fwrite-Sent bytes f =
    let n = taken_by (length bytes) f in
    let whole : n ≡ length bytes → f.contents ++ take n bytes ≡ f.contents ++ bytes =
      λ e. ap (λ t. f.contents ++ t) (take_all n bytes (omega (arith, e))) in
    let split : (f.contents ++ take n bytes) ++ drop n bytes ≡ f.contents ++ bytes =
      append_assoc f.contents (take n bytes) (drop n bytes)
      ∙ ap (λ t. f.contents ++ t) (take-append-drop n bytes) in
    record {
      capacity = refl;
      device = elim (Bool-cases (leb (length bytes) (room f))) [
        | inl fit ↦ ap (take f.capacity) (whole (ground (arith, fit)))
        | inr over ↦
            let enough : min (length bytes) (room f) ≤ n = ground (arith, over) in
            let long : length (f.contents ++ take n bytes)
                ≡ length f.contents + min n (length bytes) =
              omega (arith, length-append f.contents (take n bytes), length-take n bytes) in
            let more : room f < length bytes = ground (arith, over) in
            sym (
              take-more f.capacity (f.contents ++ take n bytes) (drop n bytes)
                (omega (arith, enough, long, more)))
            ∙ ap (take f.capacity) split
      ];
      fits = λ h. ground (arith, h);
      taken = λ ok. whole ((==_iff _ _).0 ok);
    }

pub Sent-nil : (f : File) → Sent [] f true f
Sent-nil f = record {
  capacity = refl;
  device = ap (take f.capacity) (sym (append-nil f.contents));
  fits = λ h. refl;
  taken = λ ok. sym (append-nil f.contents);
}

-- A write behind one that went well, and behind one that did not.
pub Sent-append :
    (a b : Bytes) (f f1 f2 : File) (done ok : Bool)
    → Sent a f done f1
    → done ≡ true
    → Sent b f1 ok f2
    → Sent (a ++ b) f ok f2
Sent-append a b f f1 f2 done ok s well t =
    let first = s.taken well in
    let all : f1.contents ++ b ≡ f.contents ++ (a ++ b) =
      ap (λ c. c ++ b) first ∙ append_assoc f.contents a b in
    record {
      capacity = t.capacity ∙ s.capacity;
      device = t.device ∙ ap₂ take s.capacity all;
      fits = λ h. t.fits (
          omega
            (arith, h, length-append a b, s.capacity, ap length first, length-append f.contents a));
      taken = λ e. t.taken e ∙ all;
    }

pub Sent-stopped :
    (a b : Bytes) (f f1 : File) (done : Bool)
    → Sent a f done f1
    → done ≡ false
    → Sent (a ++ b) f false f1
Sent-stopped a b f f1 done s failed =
    let short : room f < length a = elim (Bool-cases (leb (length a) (room f))) [
      | inr over ↦ ground (arith, over)
      | inl fit ↦ let well = s.fits (ground (arith, fit)) in absurd cc
    ] in
    record {
      capacity = s.capacity;
      device =
          s.device
          ∙ sym (
              take-more f.capacity (f.contents ++ a) b
                (omega (arith, short, length-append f.contents a)))
          ∙ ap (take f.capacity) (append_assoc f.contents a b);
      fits = λ h. absurd (omega (arith, h, short, length-append a b));
      taken = λ e. absurd cc;
    }
