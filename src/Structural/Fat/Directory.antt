-- ===== src/Structural/Fat/Directory.antt =====
-- `_fat_directory` of src/avbox/analyzers/structural.py: the entries of a directory.
use avbox.Prelude.{
  ℕ, zero, suc, not, ◌&&◌, ◌||◌, none, some, List, [], ◌∷◌, ◌++◌, ◌==◌, if◌then◌else◌, length,
  is_member,
}
use avbox.Prelude.Bytes.{Bytes, byte, slice, le32}
use avbox.Prelude.Fueled.{Fueled, done, out_of_fuel, ◌>>=◌}
use avbox.DiskImages.Types.{Text, Codecs}
use avbox.DiskImages.Fat.{Geometry}
use avbox.DiskImages.Fat.Tree.{rows, is_skipped, start_of, has_bit}
use avbox.Structural.Types.{fat_directory_loop}
use avbox.Structural.Iso.Directories.{IsoError}
use avbox.Structural.Fat.Chain.{Track, note_track, fat_chain}

-- What a row of a directory is; an entry has a name.
pub data RowKind : Type 0 where
  last skipped : RowKind
  entry : Text → RowKind

unfoldable pub row_kind : Codecs → Bytes → RowKind
row_kind codecs row =
    let name = codecs.strip (codecs.ascii (slice row 0 11)) in
    if byte row 0 == 0
    then last
    else if byte row 0 == 0xE5 || (byte row 11 == 0x0F || has_bit (byte row 11) 8)
    then skipped
    else if is_skipped name && not (length name == 0)
    then skipped
    else entry name

-- An entry: a directory that `descend` goes through, or a file.
unfoldable pub fat_entry :
    (Bytes → Text → Track → Fueled IsoError Track)
    → ℕ
    → Geometry
    → Bytes
    → Bytes
    → Text
    → Bytes
    → Track
    → Fueled IsoError Track
fat_entry descend max_nodes g file fat owner row t =
    let start = start_of row in
    if has_bit (byte row 11) 16
    then (if is_member start t.dirs then done (note_track fat_directory_loop t) else (do
      r ← fat_chain max_nodes g file fat owner start none (record t { dirs = start ∷ t.dirs })
      descend r.0 owner r.1))
    else (do r ← fat_chain max_nodes g file fat owner start (some (le32 row 28)) t; done r.1)

unfoldable pub fat_rows :
    Codecs
    → (Bytes → Text → Track → Fueled IsoError Track)
    → ℕ
    → Geometry
    → Bytes
    → Bytes
    → Text
    → List Bytes
    → Track
    → Fueled IsoError Track
fat_rows codecs descend max_nodes g file fat prefix [] t = done t
fat_rows codecs descend max_nodes g file fat prefix (row ∷ rest) t = elim (row_kind codecs row) [
  | last ↦ done t
  | skipped ↦ fat_rows codecs descend max_nodes g file fat prefix rest t
  | entry name ↦
      fat_entry descend max_nodes g file fat (prefix ++ (47 ∷ name)) row t
      >>= fat_rows codecs descend max_nodes g file fat prefix rest
]

-- `_fat_directory`. The fuel is for the depth: each level that has rows begins at another cluster.
unfoldable pub fat_directory :
    Codecs → ℕ → Geometry → Bytes → Bytes → ℕ → Bytes → Text → Track → Fueled IsoError Track
fat_directory codecs max_nodes g file fat zero directory prefix t = out_of_fuel
fat_directory codecs max_nodes g file fat (suc fuel) directory prefix t =
    fat_rows codecs (fat_directory codecs max_nodes g file fat fuel) max_nodes g file fat prefix
      (rows max_nodes directory) t
