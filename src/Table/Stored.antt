-- ===== src/Table/Stored.antt =====
-- A block that `WriteBlock` of src/table/format.cc has written, somewhere in a table file.
use mini_leveldb.Prelude.{
  ◌+◌, ◌^◌, ◌<◌, true, ◌≡◌, sym, ap, ap₂, subst, ◌∙◌, some, List, [], ◌∷◌, ◌++◌, append_assoc,
  append-nil, length, length-append, Bytes, All, arith,
}
use mini_leveldb.Status.{success, is_ok}
use mini_leveldb.Stdio.{File, ftell}
use mini_leveldb.Table.Format.{BlockHandle, write_block, read_block, trailer}
use mini_leveldb.Table.Footers.{IsHandle}
use mini_leveldb.Table.Blocks.{write_block-Sent, read_block_at, length-trailer}
use mini_leveldb.Table.Chunks.{Chunk, entries}
use mini_leveldb.Block.Builder.{reset, finish}
use mini_leveldb.Block.Layout.{KeyValue, add_all}

-- The bytes of a block of entries.
abbrev pub image : List KeyValue → Bytes
image es = (finish (add_all es reset)).0

-- A block stands with its trailer where the handle says.
pub record Stored (contents block : Bytes) (h : BlockHandle) : Type 0 where
  pub front : Bytes
  pub back : Bytes
  pub parts : contents ≡ front ++ ((block ++ trailer block) ++ back)
  pub at : record { offset = length front; size = length block } ≡ h

pub Stored-append :
    (contents more block : Bytes) (h : BlockHandle)
    → Stored contents block h
    → Stored (contents ++ more) block h
Stored-append contents more block h s = record {
  front = s.front;
  back = s.back ++ more;
  parts =
      ap (λ t. t ++ more) s.parts
      ∙ append_assoc s.front ((block ++ trailer block) ++ s.back) more
      ∙ ap (λ t. s.front ++ t) (append_assoc (block ++ trailer block) s.back more);
  at = s.at;
}

pub Stored-all :
    (contents more : Bytes) (cs : List Chunk)
    → All (λ c. Stored contents (image (entries c)) c.handle) cs
    → All (λ c. Stored (contents ++ more) (image (entries c)) c.handle) cs
Stored-all contents more [] h = tt
Stored-all contents more (c ∷ cs) (h, hs) =
    (Stored-append contents more (image (entries c)) c.handle h, Stored-all contents more cs hs)

-- In a file of less than 4 GiB the block is small, its handle can be encoded, and `ReadBlock` finds it.
module _ (contents block : Bytes) (h : BlockHandle) (s : Stored contents block h)
    (short : length contents < 2 ^ 32) where
  pub Stored-small : length s.front + (length block + 5) < 2 ^ 32
  Stored-small =
      let whole = block ++ trailer block in
      omega (
        arith,
        short,
        ap length s.parts,
        length-append s.front (whole ++ s.back),
        length-append whole s.back,
        length-append block (trailer block),
        length-trailer block,
      )

  pub Stored-IsHandle : IsHandle h
  Stored-IsHandle = subst IsHandle s.at (record {
    offset_fits = omega (arith, Stored-small);
    size_fits = omega (arith, Stored-small);
  })

  pub read-Stored : read_block contents h ≡ some (success, block)
  read-Stored =
      ap₂ read_block s.parts (sym s.at)
      ∙ read_block_at s.front block s.back (omega (arith, Stored-small))
          (omega (arith, Stored-small))

told :
    (f : File) (block : Bytes) (h0 : BlockHandle)
    → is_ok (write_block f block h0).0 ≡ true
    → length f.contents < 2 ^ 63
unfolding write_block ftell
told f block h0 ok = ground (arith, ok)

-- What `WriteBlock` does when it reports success.
pub record Wrote (f f' : File) (block : Bytes) (h : BlockHandle) : Type 0 where
  pub more : Bytes
  pub grown : f'.contents ≡ f.contents ++ more
  pub stored : Stored f'.contents block h

pub write_block-Wrote :
    (f : File) (block : Bytes) (h0 : BlockHandle)
    → is_ok (write_block f block h0).0 ≡ true
    → Wrote f (write_block f block h0).2 block (write_block f block h0).1
write_block-Wrote f block h0 ok =
    let whole = block ++ trailer block in
    let (sent, handle) = write_block-Sent f block h0 (told f block h0 ok) in
    record {
      more = whole;
      grown = sent.taken ok;
      stored = record {
        front = f.contents;
        back = [];
        parts = sent.taken ok ∙ ap (λ t. f.contents ++ t) (sym (append-nil whole));
        at = sym handle;
      };
    }
