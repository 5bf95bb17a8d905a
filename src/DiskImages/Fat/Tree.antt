-- ===== src/DiskImages/Fat/Tree.antt =====
-- The walk through the directories of a FAT image in `_parse_fat` of src/avbox/analyzers/disk_images.py.
pub mod Walks
use avbox.Prelude.{
  str_eq, eq_iff, str_append, ℕ, zero, suc, ◌+◌, ◌-◌, ◌*◌, ◌/◌, ◌%◌, ◌^◌, ◌≤◌, ◌<◌, min, max,
  String, ◌≡◌, refl, sym, ap, ◌∙◌, fun_ext, ◌≢◌, ◌↔◌, ◌⊎◌, inl, inr, Bool, true, false, not, ◌&&◌,
  ◌||◌, Option, none, some, List, [], ◌∷◌, ◌++◌, map, arith, ltb, leb, ◌==◌, if◌then◌else◌, ltb→lt,
  ltb→le, leb→le, leb→lt, lt→ltb, le→leb, ==→eq, eq→==, ne→==, tests, Bool-cases, Option-cases,
  and_true, or_false, if_both, length, get_or, take, drop, replicate, All, any, all, select,
  length-append, append-nil, append_assoc, take-append-drop, length-take, length-drop,
  length-replicate, take-all, drop-nil, take-nil, drop-drop, take-append-take, All-append, All-take,
  length-map, is_member, Result, ok, err, raise_if, Result-cases,
}
use avbox.Prelude.Bytes.{Bytes, byte, slice, le16, le32}
use avbox.Prelude.Fueled.{Fueled, done, raised, out_of_fuel, ◌>>=◌, ◌>>◌, of_result, raise_when}
use avbox.DiskImages.Types.{DiskImageError, Text, DiskEntry, DiskImage, Codecs, Filesystem, fat32}
use avbox.DiskImages.Fat.{Geometry, is_fat32, cluster_size, chain, read_geometry}

-- What the walk has collected: `visited_dirs` and `entries`.
pub record Walk : Type 0 where
  pub visited : List ℕ
  pub entries : List DiskEntry

-- The rows of a directory, at most `fuel`: `range(0, len(directory) - 31, 32)`.
unfoldable pub rows : ℕ → Bytes → List Bytes
rows zero directory = []
rows (suc fuel) directory =
    let rest = rows fuel (drop 32 directory) in
    if ltb (length directory) 32 then [] else take 32 directory ∷ rest

-- `.rstrip("\uffff\x00")`
unfoldable pub strip_fill : Text → Text
strip_fill [] = []
strip_fill (c ∷ cs) =
    let rest = strip_fill cs in if length rest == 0 && (c == 0xFFFF || c == 0) then [] else c ∷ rest

-- One part of a long name.
unfoldable pub long_part : Codecs → Bytes → Text
unfolding strip_fill
long_part codecs row =
    strip_fill (codecs.utf_16le (slice row 1 11 ++ slice row 14 26 ++ slice row 28 32))

-- The short name with its extension.
unfoldable pub short_name : Codecs → Bytes → Text
short_name codecs row =
    let stem = codecs.rstrip (codecs.cp437 (slice row 0 8)) in
    let ext = codecs.rstrip (codecs.cp437 (slice row 8 11)) in
    if length ext == 0 then stem else stem ++ (46 ∷ ext)

abbrev pub join_text : List Text → Text
join_text [] = []
join_text (t ∷ ts) = t ++ join_text ts

unfoldable pub row_name : Codecs → List Text → Bytes → Text
row_name codecs [] row = short_name codecs row
row_name codecs (p ∷ ps) row = join_text (p ∷ ps)

-- `name in {".", ".."} or not name`
unfoldable pub is_skipped : Text → Bool
is_skipped [] = true
is_skipped (a ∷ []) = a == 46
is_skipped (a ∷ b ∷ []) = a == 46 && b == 46
is_skipped _ = false

-- `f"{prefix}/{name}" if prefix else name`
abbrev pub logical_path : Text → Text → Text
logical_path [] name = name
logical_path (c ∷ cs) name = (c ∷ cs) ++ (47 ∷ name)

-- `_u16(row, 26) | (_u16(row, 20) << 16)`
abbrev pub start_of : Bytes → ℕ
start_of row = le16 row 26 + 65536 * le16 row 20

-- `attr & mask` for a mask of one bit.
abbrev pub has_bit : ℕ → ℕ → Bool
has_bit attr mask = (attr / mask) % 2 == 1

-- A file is read and listed.
unfoldable pub add_file : Geometry → Bytes → Text → Bytes → Walk → Fueled DiskImageError Walk
add_file g file path row w = do
  content ← chain g file (start_of row) (some (le32 row 28))
  done (record w {
    entries =
        w.entries ++ (record { path = path; data_bytes = content; index = length w.entries } ∷ []);
  })

-- A directory that was not visited is read and walked through by `descend`.
unfoldable pub add_directory :
    (Bytes → Text → Walk → Fueled DiskImageError Walk)
    → Geometry
    → Bytes
    → Text
    → Bytes
    → Walk
    → Fueled DiskImageError Walk
add_directory descend g file path row w = if is_member (start_of row) w.visited then done w else (do
  content ← chain g file (start_of row) none
  descend content path (record w { visited = start_of row ∷ w.visited }))

-- A row that has a name.
unfoldable pub add_named :
    (Bytes → Text → Walk → Fueled DiskImageError Walk)
    → Geometry
    → Bytes
    → Text
    → Text
    → Bytes
    → Walk
    → Fueled DiskImageError Walk
add_named descend g file prefix name row w =
    if is_skipped name
    then done w
    else if has_bit (byte row 11) 16
    then add_directory descend g file (logical_path prefix name) row w
    else add_file g file (logical_path prefix name) row w

-- The loop over the rows; `long_parts` are the parts of the name of the next row.
unfoldable pub walk_rows :
    Codecs
    → (Bytes → Text → Walk → Fueled DiskImageError Walk)
    → Geometry
    → Bytes
    → Text
    → List Bytes
    → List Text
    → Walk
    → Fueled DiskImageError Walk
walk_rows codecs descend g file prefix [] long_parts w = done w
walk_rows codecs descend g file prefix (row ∷ rest) long_parts w =
    if byte row 0 == 0
    then done w
    else if byte row 0 == 0xE5
    then walk_rows codecs descend g file prefix rest [] w
    else if byte row 11 == 0x0F
    then walk_rows codecs descend g file prefix rest (long_part codecs row ∷ long_parts) w
    else if has_bit (byte row 11) 8
    then walk_rows codecs descend g file prefix rest [] w
    else (do
      next ← add_named descend g file prefix (row_name codecs long_parts row) row w
      walk_rows codecs descend g file prefix rest [] next)

-- `walk`. The fuel is for the depth: each level below the root has a start of its own.
unfoldable pub walk :
    Codecs → Geometry → Bytes → ℕ → Bytes → Text → Walk → Fueled DiskImageError Walk
walk codecs g file zero directory prefix w = out_of_fuel
walk codecs g file (suc fuel) directory prefix w =
    walk_rows codecs (walk codecs g file fuel) g file prefix (rows (length directory) directory) []
      w

-- The bytes of the root directory.
unfoldable pub root_of : Geometry → Bytes → Fueled DiskImageError Bytes
root_of g file =
    if is_fat32 g.variant
    then chain g file (le32 file 44) none
    else (let start = (g.reserved + g.fats * g.fat_size) * g.bps in
        done (slice file start (start + g.root_sectors * g.bps)))

-- `... .strip() or None`
label_of : Codecs → Geometry → Bytes → Option Text
label_of codecs g file =
    let raw = if is_fat32 g.variant then slice file 71 82 else slice file 43 54 in
    let text = codecs.strip (codecs.ascii raw) in if length text == 0 then none else some text

-- `_parse_fat` once the geometry is known.
unfoldable pub parse_tree : Codecs → Geometry → Bytes → Fueled DiskImageError DiskImage
unfolding label_of
parse_tree codecs g file = do
  root ← root_of g file
  w ← walk codecs g file (length file + 3) root [] (record { visited = []; entries = [] })
  done (record {
    filesystem = g.variant;
    entries = w.entries;
    label = label_of codecs g file;
    filesystem_size = g.total * g.bps;
    allocation_size = cluster_size g;
  })

-- `_parse_fat`
unfoldable pub parse_fat : Codecs → Bytes → Fueled DiskImageError (Option DiskImage)
parse_fat codecs file = elim (read_geometry file) [
  | none ↦ done none
  | some g ↦ (do image ← parse_tree codecs g file; done (some image))
]
