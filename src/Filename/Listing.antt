-- ===== src/Filename/Listing.antt =====
-- `ListFiles` of src/db/filename.cc.
use mini_leveldb.Prelude.{
  ℕ, ltb, Bool, Bool-cases, ◌≡◌, sym, ap, ◌↔◌, ◌⊎◌, inl, inr, Option, none, some, List, [], ◌∷◌,
  ◌++◌, Bytes, codes, arith,
}
use mini_leveldb.Status.{Status, success, io_error_status}
use mini_leveldb.Skiplist.Sequence.{WeakOrder, Sorted, lower, upper, insert_key, insert_key-Sorted}
use mini_leveldb.Filename.{FileType, parse_file_name}

pub record FileInfo : Type 0 where
  pub number : ℕ
  pub type : FileType

-- A name that is recognised is put down.
unfoldable pub push_back : Option (ℕ × FileType) → List FileInfo → List FileInfo
push_back none files = files
push_back (some (number, type)) files = record { number = number; type = type } ∷ files

-- The loop over the directory's entries.
unfoldable pub recognised : List Bytes → List FileInfo
unfolding push_back
recognised [] = []
recognised (name ∷ names) = push_back (parse_file_name name) (recognised names)

abbrev pub number_less : FileInfo → FileInfo → Bool
number_less a b = ltb a.number b.number

-- `std::sort`, here by insertion; it leaves open how files with the same number follow each other.
unfoldable pub sort_files : List FileInfo → List FileInfo
sort_files [] = []
sort_files (f ∷ files) = insert_key number_less f (sort_files files)

-- `ListFiles`, given the names of the directory's entries if it can be opened.
unfoldable pub list_files : Bytes → Option (List Bytes) → Status × List FileInfo
unfolding recognised sort_files
list_files dbname none = (io_error_status (codes "opendir failed: " ++ dbname), [])
list_files dbname (some names) = (success, sort_files (recognised names))

-- A file stands in the list; a name of the directory is its name.
abbrev pub Listed : FileInfo → List FileInfo → Type 0
Listed f [] = ⊥
Listed f (g ∷ files) = (f ≡ g) ⊎ Listed f files

abbrev pub Named : FileInfo → List Bytes → Type 0
Named f [] = ⊥
Named f (name ∷ names) = (parse_file_name name ≡ some (f.number, f.type)) ⊎ Named f names

number_order : WeakOrder number_less
number_order = record { asym = λ a b h. ground arith; neg_trans = λ a b c h k. ground arith }

sort_files-Sorted : (files : List FileInfo) → Sorted number_less (sort_files files)
unfolding sort_files
sort_files-Sorted [] = tt
sort_files-Sorted (f ∷ files) =
    insert_key-Sorted number_less number_order f (sort_files files) (sort_files-Sorted files)

Listed-insert :
    (f g : FileInfo) (files : List FileInfo)
    → Listed f (insert_key number_less g files) ↔ Listed f (g ∷ files)
unfolding lower upper
Listed-insert f g [] = (λ h. h, λ h. h)
Listed-insert f g (x ∷ xs) = elim (Bool-cases (number_less x g)) [
  | inr stop ↦ rw stop (λ h. h, λ h. h)
  | inl below ↦
      let (there, back) = Listed-insert f g xs in
      rw below (
        λ h. elim h [
          | inl e ↦ inr (inl e)
          | inr rest ↦ elim (there rest) [ inl e ↦ inl e | inr later ↦ inr (inr later) ]
        ],
        λ h. elim h [
          | inl e ↦ inr (back (inl e))
          | inr (inl e) ↦ inl e
          | inr (inr later) ↦ inr (back (inr later))
        ],
      )
]

Listed-sort_files :
    (f : FileInfo) (files : List FileInfo) → Listed f (sort_files files) ↔ Listed f files
unfolding sort_files
Listed-sort_files f [] = (λ h. h, λ h. h)
Listed-sort_files f (g ∷ files) =
    let (there, back) = Listed-sort_files f files in
    let (in_, out) = Listed-insert f g (sort_files files) in
    (
      λ h. elim (in_ h) [ inl e ↦ inl e | inr rest ↦ inr (there rest) ],
      λ h. out (elim h [ inl e ↦ inl e | inr rest ↦ inr (back rest) ]),
    )

info_of : FileInfo → Option (ℕ × FileType) → FileInfo
info_of f none = f
info_of f (some (number, type)) = record { number = number; type = type }

Listed-push_back :
    (f : FileInfo) (o : Option (ℕ × FileType)) (files : List FileInfo)
    → Listed f (push_back o files) ↔ ((o ≡ some (f.number, f.type)) ⊎ Listed f files)
unfolding push_back info_of
Listed-push_back f none files = (λ h. inr h, λ h. elim h [ inl k ↦ absurd cc | inr rest ↦ rest ])
Listed-push_back f (some (number, type)) files = (
  λ h. elim h [
    | inl k ↦ inl (ap (λ (g : FileInfo). some (g.number, g.type)) (sym k))
    | inr rest ↦ inr rest
  ],
  λ h. elim h [ inl k ↦ inl (sym (ap (info_of f) k)) | inr rest ↦ inr rest ],
)

Listed-recognised :
    (f : FileInfo) (names : List Bytes) → Listed f (recognised names) ↔ Named f names
unfolding recognised
Listed-recognised f [] = (λ h. h, λ h. h)
Listed-recognised f (name ∷ names) =
    let (there, back) = Listed-recognised f names in
    let (in_, out) = Listed-push_back f (parse_file_name name) (recognised names) in
    (
      λ h. elim (in_ h) [ inl k ↦ inl k | inr rest ↦ inr (there rest) ],
      λ h. out (elim h [ inl k ↦ inl k | inr rest ↦ inr (back rest) ]),
    )

-- The files of a directory that can be read are in the order of their numbers, and they are exactly
-- those that the names of its entries stand for.
pub list_files-Sorted :
    (dbname : Bytes) (names : List Bytes)
    → let files = (list_files dbname (some names)).1 in
      Sorted number_less files × ((f : FileInfo) → Listed f files ↔ Named f names)
unfolding list_files
list_files-Sorted dbname names = (
  sort_files-Sorted (recognised names),
  λ f.
      let (there, back) = Listed-sort_files f (recognised names) in
      let (there', back') = Listed-recognised f names in
      (λ h. there' (there h), λ h. back (back' h)),
)
