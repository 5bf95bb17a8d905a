-- ===== src/DiskImages/Fat/Tree/Walks.antt =====
-- The walk through a FAT image ends, whatever its directories and links are.
use avbox.Prelude.{
  ℕ, zero, suc, ◌+◌, ◌-◌, ◌*◌, ◌/◌, ◌≤◌, ◌<◌, ◌≡◌, sym, ap, ◌⊎◌, inl, inr, false, not, ◌&&◌, ◌||◌,
  Option, none, some, List, [], ◌∷◌, ◌++◌, arith, ltb, leb, ◌==◌, Bool-cases, or_false, length, All,
  All-append, is_member,
}
use avbox.Prelude.Bytes.{Bytes, byte, le16, le32}
use avbox.Prelude.Distinct.{Distinct, length-Distinct}
use native.Mathlib.Nat.{div-le_self}
use avbox.Prelude.Fueled.{Fueled, Ends, Ends-mono, Ends-if, Ends-bind, Ends-Option, returns}
use avbox.DiskImages.Types.{DiskImageError, Text, DiskEntry, DiskImage, Codecs}
use avbox.DiskImages.Fat.{
  Geometry, is_fat32, cluster_size, read_geometry, is_bad_boot, geometry_of, fat_bytes, or_else,
  variant_of,
}
use avbox.DiskImages.Fat.Chains.{IsInside-lt, IsRead-bounded, chain-Ends}
use avbox.DiskImages.Fat.Linked.{IsInside, IsRead, IsSized, Linked, last, link}
use avbox.DiskImages.Fat.Tree.{
  Walk, rows, long_part, row_name, is_skipped, logical_path, start_of, has_bit, add_file,
  add_directory, add_named, walk_rows, walk, root_of, parse_tree, parse_fat,
}

-- The entries are numbered from `n` on.
abbrev pub Numbered : ℕ → List DiskEntry → Type 0
Numbered n [] = Unit
Numbered n (e ∷ es) = (e.index ≡ n) × Numbered (suc n) es

pub Numbered-snoc :
    (n : ℕ) (es : List DiskEntry) (e : DiskEntry)
    → e.index ≡ n + length es
    → Numbered n es
    → Numbered n (es ++ (e ∷ []))
Numbered-snoc n [] e h k = (omega (arith, h), tt)
Numbered-snoc n (d ∷ es) e h k = (k.0, Numbered-snoc (suc n) es e (omega (arith, h)) k.1)

-- The directories that were visited are different ones of the image, and the files are numbered and
-- not longer than the image.
pub record IsGood (size : ℕ) (w : Walk) : Type 0 where
  pub distinct : Distinct w.visited
  pub bounded : All (λ v. v < size + 2) w.visited
  pub numbered : Numbered 0 w.entries
  pub small : All (λ (e : DiskEntry). length e.data_bytes ≤ size) w.entries

-- The walk from `w` ends well, and forgets no directory.
Grows : ℕ → Walk → Walk → Type 0
Grows size w w' = IsGood size w' × (length w.visited ≤ length w'.visited)

-- There is a level of fuel for each directory that is still to be visited.
HasFuel : ℕ → ℕ → Walk → Type 0
HasFuel size fuel w = size + 3 ≤ fuel + length w.visited

start-IsInside :
    (g : Geometry) (fat : Bytes) (size start : ℕ) (cs : List ℕ)
    → Linked g fat start cs
    → All (IsInside g size) cs
    → IsInside g size start
start-IsInside g fat size start cs last h = h.0
start-IsInside g fat size start cs (link e l) h = h.0

module _ (codecs : Codecs) (g : Geometry) (file : Bytes) (sized : 0 < cluster_size g) where
  -- What a chain of a directory or a file gives.
  read_result :
      (start : ℕ) (wanted : Option ℕ) (out : Bytes)
      → ((start < 2) × (out ≡ []) × IsSized wanted out) ⊎ IsRead g file start wanted out
      → (start < length file + 2) × (length out ≤ length file)
  read_result start wanted out (inl (low, empty, _)) = (omega (arith, low), rw empty (omega arith))
  read_result start wanted out (inr r) =
      let inside =
        start-IsInside g (fat_bytes g file) (length file) start r.clusters r.linked r.inside in
      let below = IsInside-lt g (length file) start sized inside in
      let fewer = div-le_self (length file) (cluster_size g) in
      (omega (arith, below, fewer), IsRead-bounded g file start wanted out sized r)

  add_file-Grows :
      (path : Text) (row : Bytes) (w : Walk)
      → IsGood (length file) w
      → Ends (Grows (length file) w) (add_file g file path row w)
  unfolding add_file Grows
  add_file-Grows path row w h =
      Ends-bind _ (chain-Ends g file (some (le32 row 28)) (start_of row)) (λ out r.
        let (_, short) = read_result (start_of row) (some (le32 row 28)) out r in
        let e : DiskEntry = record { path = path; data_bytes = out; index = length w.entries } in
        returns (
          record {
            distinct = h.distinct;
            bounded = h.bounded;
            numbered = Numbered-snoc 0 w.entries e (omega arith) h.numbered;
            small =
                All-append (λ (x : DiskEntry). length x.data_bytes ≤ length file) w.entries (e ∷ [])
                  h.small (short, tt);
          },
          omega arith,
        ))

  module _ (fuel : ℕ) (descend : Bytes → Text → Walk → Fueled DiskImageError Walk)
      (deeper : (content : Bytes) (path : Text) (w : Walk)
        → IsGood (length file) w
        → HasFuel (length file) fuel w
        → Ends (Grows (length file) w) (descend content path w)) where
    add_directory-Grows :
        (path : Text) (row : Bytes) (w : Walk)
        → IsGood (length file) w
        → HasFuel (length file) (suc fuel) w
        → Ends (Grows (length file) w) (add_directory descend g file path row w)
    unfolding add_directory Grows HasFuel
    add_directory-Grows path row w h enough =
        Ends-if (is_member (start_of row) w.visited) (λ _. returns (h, omega arith))
          (λ new. Ends-bind _ (chain-Ends g file none (start_of row)) (λ out r.
            let (low, _) = read_result (start_of row) none out r in
            let w1 : Walk = record w { visited = start_of row ∷ w.visited } in
            Ends-mono
              (deeper out path w1
                (record {
                  distinct = (new, h.distinct);
                  bounded = (low, h.bounded);
                  numbered = h.numbered;
                  small = h.small;
                })
                (omega (arith, enough)))
              (λ w' (good, more). (good, omega (arith, more)))))

    add_named-Grows :
        (prefix name : Text) (row : Bytes) (w : Walk)
        → IsGood (length file) w
        → HasFuel (length file) (suc fuel) w
        → Ends (Grows (length file) w) (add_named descend g file prefix name row w)
    unfolding add_named Grows
    add_named-Grows prefix name row w h enough =
        Ends-if (is_skipped name) (λ _. returns (h, omega arith))
          (λ _.
            Ends-if (has_bit (byte row 11) 16)
              (λ _. add_directory-Grows (logical_path prefix name) row w h enough)
              (λ _. add_file-Grows (logical_path prefix name) row w h))

    walk_rows-Grows :
        (prefix : Text) (rs : List Bytes) (long_parts : List Text) (w : Walk)
        → IsGood (length file) w
        → HasFuel (length file) (suc fuel) w
        → Ends (Grows (length file) w) (walk_rows codecs descend g file prefix rs long_parts w)
    unfolding walk_rows Grows HasFuel
    walk_rows-Grows prefix [] long_parts w h enough = returns (h, omega arith)
    walk_rows-Grows prefix (row ∷ rest) long_parts w h enough =
        Ends-if (byte row 0 == 0) (λ _. returns (h, omega arith))
          (λ _.
            Ends-if (byte row 0 == 0xE5) (λ _. walk_rows-Grows prefix rest [] w h enough)
              (λ _.
                Ends-if (byte row 11 == 0x0F)
                  (λ _. walk_rows-Grows prefix rest (long_part codecs row ∷ long_parts) w h enough)
                  (λ _.
                    Ends-if (has_bit (byte row 11) 8)
                      (λ _. walk_rows-Grows prefix rest [] w h enough)
                      (λ _.
                        Ends-bind _
                          (add_named-Grows prefix (row_name codecs long_parts row) row w h enough)
                          (λ next (good, more).
                            Ends-mono
                              (walk_rows-Grows prefix rest [] next good
                                (omega (arith, enough, more)))
                              (λ w' (g1, more1). (g1, omega (arith, more, more1))))))))

  walk-Grows :
      (fuel : ℕ) (directory : Bytes) (prefix : Text) (w : Walk)
      → IsGood (length file) w
      → HasFuel (length file) fuel w
      → Ends (Grows (length file) w) (walk codecs g file fuel directory prefix w)
  unfolding walk HasFuel
  walk-Grows zero directory prefix w h enough =
      absurd
        (omega (arith, enough, length-Distinct (length file + 2) w.visited h.distinct h.bounded))
  walk-Grows (suc fuel) directory prefix w h enough =
      walk_rows-Grows fuel (walk codecs g file fuel) (walk-Grows fuel) prefix
        (rows (length directory) directory) [] w h enough

  root-Ends : Ends (λ _. Unit {0}) (root_of g file)
  unfolding root_of
  root-Ends =
      Ends-if (is_fat32 g.variant)
        (λ _. Ends-mono (chain-Ends g file none (le32 file 44)) (λ _ _. tt)) (λ _. returns tt)

  parse_tree-Ends :
      Ends
        (λ (i : DiskImage).
          Numbered 0 i.entries
          × All (λ (e : DiskEntry). length e.data_bytes ≤ length file) i.entries)
        (parse_tree codecs g file)
  unfolding parse_tree Grows HasFuel
  parse_tree-Ends = Ends-bind _ root-Ends (λ root _.
      Ends-bind _
        (walk-Grows (length file + 3) root [] (record { visited = []; entries = [] })
          (record { distinct = tt; bounded = tt; numbered = tt; small = tt }) (omega arith))
        (λ w (good, _). returns (good.numbered, good.small)))

same_some : (a b : Geometry) → some a ≡ some b → a ≡ b
same_some a b h = cc

geometry_of-some :
    (file : Bytes) (bps spc reserved fats root_entries total fat_size : ℕ) (g : Geometry)
    → geometry_of file bps spc reserved fats root_entries total fat_size ≡ some g
    → (g.bps ≡ bps) × (g.spc ≡ spc)
unfolding geometry_of
geometry_of-some file bps spc reserved fats root_entries total fat_size g h =
    let root_sectors = (root_entries * 32 + bps - 1) / bps in
    let first_data = reserved + fats * fat_size + root_sectors in
    let variant = variant_of ((total - first_data) / spc) in
    elim (Bool-cases (leb total first_data)) [
      | inl e ↦ let no : none ≡ some g = rw e at h in absurd cc
      | inr e ↦
          elim (Bool-cases
            (is_fat32 variant && (not (root_entries == 0) || ltb (le32 file 44) 2))) [
              | inl f ↦ let no : none ≡ some g = rw (e, f) at h in absurd cc
              | inr f ↦
                  let yes : some (record {
                    bps = bps;
                    spc = spc;
                    reserved = reserved;
                    fats = fats;
                    root_entries = root_entries;
                    total = total;
                    fat_size = fat_size;
                    root_sectors = root_sectors;
                    first_data = first_data;
                    clusters = (total - first_data) / spc;
                    variant = variant;
                  })
                      ≡ some g =
                    rw (e, f) at h in
                  let same : g ≡ _ = sym (same_some _ g yes) in
                  (ap (λ x. x.bps) same, ap (λ x. x.spc) same)
            ]
    ]

good_boot :
    (bps spc reserved fats total fat_size size : ℕ)
    → is_bad_boot bps spc reserved fats total fat_size size ≡ false
    → 0 < spc * bps
unfolding is_bad_boot
good_boot bps spc reserved fats total fat_size size h =
    let (known, rest) =
      or_false (not (bps == 512 || bps == 1024 || bps == 2048 || bps == 4096)) _ h in
    let (some_spc, _) = or_false (spc == 0) _ rest in
    let a : 0 < bps = ground (arith, known) in
    let b : 0 < spc = ground (arith, some_spc) in grind (arith, a, b)

read_geometry-sized :
    (file : Bytes) (g : Geometry) → read_geometry file ≡ some g → 0 < cluster_size g
unfolding read_geometry
read_geometry-sized file g h =
    let bps = le16 file 11 in
    let spc = byte file 13 in
    let total = or_else (le16 file 19) (le32 file 32) in
    let fat_size = or_else (le16 file 22) (le32 file 36) in
    elim (Bool-cases
      (ltb (length file) 512 || not (byte file 510 == 0x55 && byte file 511 == 0xAA))) [
        | inl e ↦ let no : none ≡ some g = rw e at h in absurd cc
        | inr e ↦
            elim (Bool-cases
              (is_bad_boot bps spc (le16 file 14) (byte file 16) total fat_size (length file))) [
                | inl f ↦ let no : none ≡ some g = rw (e, f) at h in absurd cc
                | inr f ↦
                    let (b, s) =
                      geometry_of-some file bps spc (le16 file 14) (byte file 16) (le16 file 17)
                        total fat_size g (rw (e, f) at h) in
                    rw (b, s)
                      (good_boot bps spc (le16 file 14) (byte file 16) total fat_size (length file)
                        f)
              ]
      ]

-- `_parse_fat` ends on every file, whatever its directories and cluster links are, cyclic ones
-- included. In an image that it returns the files are numbered from 0 and none is longer than the
-- image.
pub parse_fat-Ends :
    (codecs : Codecs) (file : Bytes)
    → Ends
        (λ (o : Option DiskImage).
          (i : DiskImage)
          → o ≡ some i
          → Numbered 0 i.entries
            × All (λ (e : DiskEntry). length e.data_bytes ≤ length file) i.entries)
        (parse_fat codecs file)
unfolding parse_fat
parse_fat-Ends codecs file =
    Ends-Option (read_geometry file) _ _ (λ _. returns (λ i e. absurd cc))
      (λ g e.
        Ends-bind _ (parse_tree-Ends codecs g file (read_geometry-sized file g e))
          (λ image good. returns (λ i e. let same : i ≡ image = cc in rw same good)))
