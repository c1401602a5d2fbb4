-- ===== src/Table/Blocks.antt =====
-- `WriteBlock` and `ReadBlock` of src/table/format.cc together.
use mini_leveldb.Prelude.{
  ℕ, ◌+◌, ◌^◌, ◌<◌, ◌≤◌, zero, suc, drop-drop, true, ◌≡◌, refl, ap, ap₂, sym, ◌∙◌, some, [], ◌∷◌,
  ◌++◌, append_assoc, append-nil, Bytes, length, take, drop, get_or, length-append, Bool-cases, inl,
  inr, ◌==◌, subst, codes, take-append, drop-append, take_all, take-append-drop, length-take,
  length-drop, u64, IsU32, arith,
}
use mini_leveldb.Coding.{encode_fixed32, decode_fixed32}
use mini_leveldb.Coding.Fixed.{decode-encode_fixed32, length-encode_fixed32}
use mini_leveldb.Crc32c.{extend, mask_crc32c, unmask_crc32c}
use mini_leveldb.Crc32c.Mask.{unmask-mask, mask_crc32c-IsU32}
use mini_leveldb.Status.{success, io_error_status, is_ok}
use mini_leveldb.Stdio.{
  File, room, on_device, ftell, fwrite, fwrite-Sent, Sent, Sent-append, Sent-stopped,
}
use mini_leveldb.Table.Format.{
  BlockHandle, write_block, read_block, check_block, trailer, block_crc, block_trailer_size,
  no_compression,
}

pub length-trailer : (contents : Bytes) → length (trailer contents) ≡ 5
unfolding trailer
length-trailer contents =
    omega (arith, length-encode_fixed32 (mask_crc32c (block_crc no_compression contents)))

-- `WriteBlock` sends the contents and the trailer, and its handle says where the contents are.
pub write_block-Sent :
    (file : File) (contents : Bytes) (h0 : BlockHandle)
    → length file.contents < 2 ^ 63
    → let r = write_block file contents h0 in
      Sent (contents ++ trailer contents) file (is_ok r.0) r.2
      × (r.1 ≡ record { offset = length file.contents; size = length contents })
unfolding write_block
write_block-Sent file contents h0 small =
    let tell : ftell file ≡ some (length file.contents) = unfold ftell in ground (arith, small) in
    let (wrote, file') = fwrite contents file in
    let (wrote', file'') = fwrite (trailer contents) file' in
    let s = fwrite-Sent contents file in
    let t : Sent (trailer contents) file' (wrote' == block_trailer_size) file'' =
      subst (λ n. Sent (trailer contents) file' (wrote' == n) file'') (length-trailer contents)
        (fwrite-Sent (trailer contents) file') in
    elim (Bool-cases (wrote == length contents)) [
      | inr short ↦
          let stop =
            Sent-stopped contents (trailer contents) file file' (wrote == length contents) s
              short in
          let result : write_block file contents h0 ≡ (
            io_error_status (codes "while writing block"),
            record { offset = length file.contents; size = length contents },
            file',
          ) =
            ground (arith, tell, short) in
          rw result (stop, refl)
      | inl whole ↦
          let both =
            Sent-append contents (trailer contents) file file' file'' (wrote == length contents)
              (wrote' == block_trailer_size) s whole t in
          elim (Bool-cases (wrote' == block_trailer_size)) [
            | inr short ↦
                let result : write_block file contents h0 ≡ (
                  io_error_status (codes "while writing block trailer"),
                  record { offset = length file.contents; size = length contents },
                  file'',
                ) =
                  ground (arith, tell, whole, short) in
                rw result
                  (subst (λ d. Sent (contents ++ trailer contents) file d file'') short both, refl)
            | inl all ↦
                let result : write_block file contents h0 ≡ (
                  success,
                  record { offset = length file.contents; size = length contents },
                  file'',
                ) =
                  ground (arith, tell, whole, all) in
                rw result
                  (subst (λ d. Sent (contents ++ trailer contents) file d file'') all both, refl)
          ]
    ]

-- Behind `WriteBlock`, at a position that fits a `long`, the device holds, as far as it has room, what
-- the stream had taken before, the contents and a trailer of five bytes, also if the call fails half
-- way. The call succeeds if the contents and the trailer fit; if it succeeds, which a stream that
-- buffers may do on a full device too, the stream has taken all of them. The handle says where the
-- contents are.
pub write_block_result :
    (file : File) (contents : Bytes) (h0 : BlockHandle)
    → length file.contents < 2 ^ 63
    → let r = write_block file contents h0 in
      let bytes = contents ++ trailer contents in
      (on_device r.2 ≡ take file.capacity (file.contents ++ bytes))
      × (length contents + block_trailer_size ≤ room file → is_ok r.0 ≡ true)
      × (is_ok r.0 ≡ true → r.2.contents ≡ file.contents ++ bytes)
      × (r.1 ≡ record { offset = length file.contents; size = length contents })
write_block_result file contents h0 small =
    let (sent, handle) = write_block-Sent file contents h0 small in
    (
      sent.device,
      λ h.
          sent.fits
            (omega (arith, h, length-append contents (trailer contents), length-trailer contents)),
      sent.taken,
      handle,
    )

get_or-length : (xs ys : Bytes) (y d : ℕ) → get_or (xs ++ (y ∷ ys)) (length xs) d ≡ y
get_or-length [] ys y d = refl
get_or-length (x ∷ xs) ys y d = get_or-length xs ys y d

drop-suc-length : (xs ys : Bytes) (y : ℕ) → drop (length xs + 1) (xs ++ (y ∷ ys)) ≡ ys
drop-suc-length xs ys y =
    sym (drop-drop 1 (length xs) (xs ++ (y ∷ ys)))
    ∙ ap (drop 1) (drop-append (length xs) xs (y ∷ ys) refl)

block_crc-IsU32 : (type : ℕ) (contents : Bytes) → IsU32 (block_crc type contents)
unfolding block_crc extend
block_crc-IsU32 type contents = omega arith

check_block-trailer :
    (contents : Bytes)
    → check_block (length contents) (contents ++ trailer contents) ≡ (success, contents)
unfolding check_block trailer
check_block-trailer contents =
    let crc = block_crc no_compression contents in
    let stored = encode_fixed32 (mask_crc32c crc) in
    let back : unmask_crc32c (decode_fixed32 stored) ≡ crc =
      ap unmask_crc32c (
        ap decode_fixed32 (sym (append-nil stored))
        ∙ decode-encode_fixed32 (mask_crc32c crc) [] (mask_crc32c-IsU32 crc))
      ∙ unmask-mask crc (block_crc-IsU32 no_compression contents) in
    rw
      (
        get_or-length contents stored 0 0,
        drop-suc-length contents stored 0,
        take-append (length contents) contents (0 ∷ stored) refl,
        back,
      )
      (ground arith)

pub read_block_at :
    (front contents more : Bytes)
    → length front < 2 ^ 63
    → length contents + block_trailer_size < 2 ^ 64
    → read_block
        (front ++ ((contents ++ trailer contents) ++ more))
        (record { offset = length front; size = length contents })
      ≡ some (success, contents)
unfolding read_block
read_block_at front contents more small size =
    let n = length contents in
    let whole = contents ++ trailer contents in
    let length_whole : length whole ≡ n + 5 =
      omega (arith, length-append contents (trailer contents), length-trailer contents) in
    let total : u64 (n + 5) ≡ n + 5 = omega arith in
    let taken : take (n + 5) (whole ++ more) ≡ whole =
      take-append (n + 5) whole more length_whole in
    rw
      (
        drop-append (length front) front (whole ++ more) refl,
        total,
        taken,
        check_block-trailer contents,
      )
      (ground (arith, small, length_whole))

-- A block for which the device has room is written whole, and is read back through its handle,
-- whatever is written behind it, at a position that fits a `long` and with a size that does not wrap
-- around with the trailer's.
pub read-write_block :
    (file : File) (contents more : Bytes) (h0 : BlockHandle)
    → length file.contents < 2 ^ 63
    → length contents + block_trailer_size < 2 ^ 64
    → length contents + block_trailer_size ≤ room file
    → let r = write_block file contents h0 in
      (is_ok r.0 ≡ true) × (read_block (on_device r.2 ++ more) r.1 ≡ some (success, contents))
read-write_block file contents more h0 small size fits =
    let (device, done, taken, handle) = write_block_result file contents h0 small in
    let whole = contents ++ trailer contents in
    let length_whole : length whole ≡ length contents + 5 =
      omega (arith, length-append contents (trailer contents), length-trailer contents) in
    let stored : take file.capacity (file.contents ++ whole) ≡ file.contents ++ whole =
      take_all file.capacity (file.contents ++ whole)
        (omega (arith, length-append file.contents whole, length_whole, fits)) in
    let bytes : on_device (write_block file contents h0).2 ++ more
        ≡ file.contents ++ (whole ++ more) =
      ap (λ t. t ++ more) (device ∙ stored) ∙ append_assoc file.contents whole more in
    (done fits, ap₂ read_block bytes handle ∙ read_block_at file.contents contents more small size)

drop_cons : (n : ℕ) (xs : Bytes) → n < length xs → drop n xs ≡ get_or xs n 0 ∷ drop (n + 1) xs
drop_cons zero (x ∷ xs) h = refl
drop_cons (suc n) (x ∷ xs) h =
    let e : suc (n + 1) ≡ suc n + 1 = omega arith in
    let more : drop (n + 1) xs ≡ drop (suc n + 1) (x ∷ xs) = ap (λ k. drop k (x ∷ xs)) e in
    drop_cons n xs (omega arith) ∙ ap (λ t. get_or xs n 0 ∷ t) more
drop_cons n [] h = absurd (omega arith)

check_block_accepts :
    (n : ℕ) (scratch b : Bytes)
    → check_block n scratch ≡ (success, b)
    → (get_or scratch n 0 ≡ no_compression)
      × (unmask_crc32c (decode_fixed32 (drop (n + 1) scratch))
          ≡ block_crc no_compression (take n scratch))
      × (take n scratch ≡ b)
unfolding check_block
check_block_accepts n scratch b h = ground arith

-- A block that `ReadBlock` accepts stands in the file where the handle says, with the handle's
-- size, the mark of no compression behind it and then the four bytes of its masked checksum.
pub read_block_accepts :
    (contents b : Bytes) (h : BlockHandle)
    → read_block contents h ≡ some (success, b)
    → (stored more : Bytes) × (drop h.offset contents ≡ (b ++ (no_compression ∷ stored)) ++ more)
      × (length b ≡ h.size)
      × (length stored ≡ 4)
      × (unmask_crc32c (decode_fixed32 stored) ≡ block_crc no_compression b)
unfolding read_block
read_block_accepts contents b h e =
    let n = h.size in
    let total = u64 (n + block_trailer_size) in
    let at : Bytes = drop h.offset contents in
    let scratch : Bytes = take total at in
    let full : length scratch ≡ total = ground (arith, e) in
    let room : n ≤ total = ground (arith, e) in
    let checked : check_block n scratch ≡ (success, b) = ground (arith, e) in
    let (mark, crc, front) = check_block_accepts n scratch b checked in
    let stored : Bytes = drop (n + 1) scratch in
    let cut : scratch ≡ b ++ (no_compression ∷ stored) =
      sym (take-append-drop n scratch)
      ∙ ap₂ (λ x y. x ++ y) front
          (drop_cons n scratch (omega (arith, full, room)) ∙ ap (λ t. t ∷ stored) mark) in
    (
      stored,
      drop total at,
      sym (take-append-drop total at) ∙ ap (λ t. t ++ drop total at) cut,
      ap length (sym front) ∙ length-take n scratch ∙ omega (arith, full, room),
      length-drop (n + 1) scratch ∙ omega (arith, full, room),
      crc ∙ ap (block_crc no_compression) front,
    )
