-- ===== src/DiskImages/Adf/Walks.antt =====
-- The walk through an Amiga floppy image ends, whatever its hash chains are.
use avbox.Prelude.{
  ℕ, zero, suc, ◌+◌, ◌≤◌, ◌<◌, ◌≡◌, refl, inl, inr, true, false, Bool, not, ==→eq, ◌||◌, Option,
  none, some, [], ◌∷◌, arith, ltb, leb, ◌==◌, leb→lt, Bool-cases, or_false, length, All, any,
  All-append, is_member, ok, err,
}
use avbox.Prelude.Bytes.{Bytes, be32}
use avbox.Prelude.Distinct.{Distinct, length-Distinct}
use avbox.Prelude.Fueled.{
  Fueled, Ends, Ends-mono, Ends-if, Ends-bind, Ends-of_result, Ends-guard, returns, raises,
}
use avbox.Containers.Names.{is_up, is_separator}
use avbox.Containers.Names.Joined.{StaysDown, join-StaysDown, plain-StaysDown, empty-StaysDown}
use avbox.DiskImages.Types.{
  DiskImageError, block_outside, Text, DiskEntry, DiskImage, Filesystem, cyclic_hash_chain,
  invalid_entry_header, unsafe_entry_name,
}
use avbox.DiskImages.Fat.Tree.{is_skipped, logical_path}
use avbox.DiskImages.Fat.Tree.Walks.{Numbered, Numbered-snoc}
use avbox.DiskImages.Adf.{
  blocks, root_key, block, valid_checksum, bstr, file_data, Walk, has_separator, walk_buckets,
  add_file, add_entry, follow, fs_of, parse_root, parse_adf, is_other, is_no_root,
}
use avbox.DiskImages.Adf.Files.{file_data-sized}

-- A header of a file: its types, primary and secondary, and its checksum.
abbrev pub IsFileHeader : Bytes → Type 0
IsFileHeader header =
    (be32 header 0 ≡ 2) × (be32 header 508 ≡ 0xFFFFFFFD) × (valid_checksum header ≡ true)

-- A file of the image: its content is that of the file header in block `key`, with the size that it
-- declares, and its path has no part "..".
pub IsFile : Bytes → Filesystem → DiskEntry → Type 0
IsFile file fs e =
    StaysDown e.path
    × ((key : ℕ) × (header : Bytes) × (block file key ≡ ok header)
        × IsFileHeader header
        × (file_data file fs header key ≡ ok e.data_bytes)
        × (length e.data_bytes ≡ be32 header 324))

-- The blocks that were visited are different ones of the image, and the entries are its files,
-- numbered.
pub record IsGood (file : Bytes) (fs : Filesystem) (w : Walk) : Type 0 where
  pub distinct : Distinct w.visited
  pub bounded : All (λ v. v < blocks) w.visited
  pub numbered : Numbered 0 w.entries
  pub files : All (IsFile file fs) w.entries

Grows : Bytes → Filesystem → Walk → Walk → Type 0
Grows file fs w w' = IsGood file fs w' × (length w.visited ≤ length w'.visited)

-- There is a round of fuel for each block that is still to be visited, and one for the end.
HasFuel : ℕ → Walk → Type 0
HasFuel fuel w = blocks + 1 ≤ fuel + length w.visited

pub block-ok : (file : Bytes) (key : ℕ) (header : Bytes) → block file key ≡ ok header → key < blocks
unfolding block
block-ok file key header h = elim (Bool-cases (ltb key 2 || leb blocks key)) [
  | inl e ↦ let no : err block_outside ≡ ok header = rw e at h in absurd cc
  | inr e ↦ let (_, high) = or_false (ltb key 2) _ e in leb→lt blocks key high
]

no_separator : (name : Text) → has_separator name ≡ false → any is_separator name ≡ false
unfolding is_member any
no_separator [] h = refl
no_separator (c ∷ cs) h = ground (arith, no_separator cs)

not_up : (name : Text) → is_skipped name ≡ false → is_up name ≡ false
unfolding is_skipped is_up
not_up [] h = refl
not_up (a ∷ []) h = refl
not_up (a ∷ b ∷ []) h = h
not_up (a ∷ b ∷ c ∷ cs) h = refl

same_number : (a b : ℕ) → not (a == b) ≡ false → a ≡ b
same_number a b h = ground arith

not-false : (b : Bool) → not b ≡ false → b ≡ true
not-false true h = refl
not-false false h = absurd cc

path-StaysDown :
    (prefix name : Text)
    → StaysDown prefix
    → is_skipped name ≡ false
    → has_separator name ≡ false
    → StaysDown (logical_path prefix name)
path-StaysDown [] name h k s = plain-StaysDown name (no_separator name s) (not_up name k)
path-StaysDown (c ∷ cs) name h k s =
    join-StaysDown (c ∷ cs) name h (plain-StaysDown name (no_separator name s) (not_up name k))

module _ (file : Bytes) (fs : Filesystem) where
  add_file-Grows :
      (header : Bytes) (key : ℕ) (path : Text) (w : Walk)
      → block file key ≡ ok header
      → IsFileHeader header
      → StaysDown path
      → IsGood file fs w
      → Ends (Grows file fs w) (add_file file fs header key path w)
  unfolding add_file Grows IsFile
  add_file-Grows header key path w found is_file down h =
      Ends-bind _ (Ends-of_result _ (λ out e. e)) (λ out e.
        let d : DiskEntry = record { path = path; data_bytes = out; index = length w.entries } in
        returns (
          record {
            distinct = h.distinct;
            bounded = h.bounded;
            numbered = Numbered-snoc 0 w.entries d (omega arith) h.numbered;
            files = All-append (IsFile file fs) w.entries (d ∷ []) h.files (
              (down, (key, header, found, is_file, e, file_data-sized file fs header key out e)),
              tt,
            );
          },
          omega arith,
        ))

  module _ (fuel : ℕ) (next : Text → ℕ → Walk → Fueled DiskImageError Walk)
      (deeper : (prefix : Text) (key : ℕ) (w : Walk)
        → StaysDown prefix
        → IsGood file fs w
        → HasFuel fuel w
        → Ends (Grows file fs w) (next prefix key w)) where
    walk_buckets-Grows :
        (directory : Bytes) (prefix : Text) (n bucket : ℕ) (w : Walk)
        → StaysDown prefix
        → IsGood file fs w
        → HasFuel fuel w
        → Ends (Grows file fs w) (walk_buckets next directory prefix n bucket w)
    unfolding walk_buckets Grows HasFuel
    walk_buckets-Grows directory prefix zero bucket w down h enough = returns (h, omega arith)
    walk_buckets-Grows directory prefix (suc n) bucket w down h enough =
        Ends-bind _ (deeper prefix _ w down h enough) (λ w1 (good, more).
          Ends-mono
            (walk_buckets-Grows directory prefix n (bucket + 1) w1 down good
              (omega (arith, enough, more)))
            (λ w2 (good2, more2). (good2, omega (arith, more, more2))))

    add_entry-Grows :
        (header : Bytes) (key : ℕ) (path : Text) (w : Walk)
        → block file key ≡ ok header
        → be32 header 0 ≡ 2
        → valid_checksum header ≡ true
        → StaysDown path
        → IsGood file fs w
        → HasFuel fuel w
        → Ends (Grows file fs w) (add_entry next file fs header key path w)
    unfolding add_entry
    add_entry-Grows header key path w found primary sum down h enough =
        Ends-if (be32 header 508 == 2) (λ _. walk_buckets-Grows header path 72 0 w down h enough)
          (λ _.
            Ends-if (be32 header 508 == 0xFFFFFFFD)
              (λ plain.
                add_file-Grows header key path w found (primary, ==→eq _ _ plain, sum) down h)
              (λ _. raises))

  follow-Grows :
      (fuel : ℕ) (prefix : Text) (key : ℕ) (w : Walk)
      → StaysDown prefix
      → IsGood file fs w
      → HasFuel fuel w
      → Ends (Grows file fs w) (follow file fs fuel prefix key w)
  unfolding follow HasFuel Grows
  follow-Grows zero prefix key w down h enough =
      absurd (omega (arith, enough, length-Distinct blocks w.visited h.distinct h.bounded))
  follow-Grows (suc fuel) prefix key w down h enough =
      Ends-if (key == 0) (λ _. returns (h, omega arith))
        (λ _. Ends-guard _ cyclic_hash_chain (λ new.
          Ends-bind (λ header. block file key ≡ ok header) (Ends-of_result _ (λ header e. e))
            (λ header found. Ends-guard _ invalid_entry_header (λ fits.
              Ends-bind (λ _. Unit {0}) (Ends-of_result (bstr header 432) (λ _ _. tt))
                (λ name _. Ends-guard _ unsafe_entry_name (λ safe.
                  let (kept, plain) = or_false (is_skipped name) _ safe in
                  let (kind, sum) = or_false (not (be32 header 0 == 2)) _ fits in
                  let w1 : Walk = record w { visited = key ∷ w.visited } in
                  let good1 : IsGood file fs w1 = record {
                    distinct = (new, h.distinct);
                    bounded = (block-ok file key header found, h.bounded);
                    numbered = h.numbered;
                    files = h.files;
                  } in
                  Ends-bind (Grows file fs w1)
                    (add_entry-Grows fuel (follow file fs fuel) (follow-Grows fuel) header key
                      (logical_path prefix name) w1 found (same_number _ _ kind) (not-false _ sum)
                      (path-StaysDown prefix name down kept plain) good1 (omega (arith, enough)))
                    (λ w2 (good2, more2).
                      Ends-mono
                        (follow-Grows fuel prefix (be32 header 496) w2 down good2
                          (omega (arith, enough, more2)))
                        (λ w3 (good3, more3). (good3, omega (arith, more2, more3))))))))))

-- What a parse returns, if it returns an image.
unfoldable pub IsListing : Bytes → Option DiskImage → Type 0
IsListing file none = Unit
IsListing file (some image) =
    Numbered 0 image.entries × All (IsFile file image.filesystem) image.entries

parse_root-Ends : (file root : Bytes) → Ends (IsListing file) (parse_root file root)
unfolding parse_root IsListing Grows HasFuel is_member
parse_root-Ends file root = Ends-guard _ _ (λ _.
    Ends-bind _
      (walk_buckets-Grows file (fs_of file) (blocks + 2) (follow file (fs_of file) (blocks + 2))
        (follow-Grows file (fs_of file) (blocks + 2)) root [] 72 0
        (record { visited = root_key ∷ []; entries = [] }) empty-StaysDown
        (record { distinct = (refl, tt); bounded = (omega arith, tt); numbered = tt; files = tt })
        (omega arith))
      (λ w (good, _).
        Ends-bind (λ _. Unit {0}) (Ends-of_result (bstr root 432) (λ _ _. tt))
          (λ volume _. returns (good.numbered, good.files))))

-- `_parse_adf` ends on every file, whatever its hash chains and directories are, cyclic ones
-- included. In an image that it returns the entries are numbered from 0, no path has a part "..",
-- and each content is that of a file header of the image, with the types and the checksum of one and
-- with exactly the size that the header declares.
pub parse_adf-Ends : (file : Bytes) → Ends (IsListing file) (parse_adf file)
unfolding parse_adf IsListing
parse_adf-Ends file =
    Ends-if (is_other file) (λ _. returns {a = none} tt)
      (λ _.
        Ends-bind (λ _. Unit {0}) (Ends-of_result (block file root_key) (λ _ _. tt))
          (λ root _.
            Ends-if (is_no_root root) (λ _. returns {a = none} tt)
              (λ _. parse_root-Ends file root)))
