-- ===== src/Structural/Sound.antt =====
-- src/avbox/analyzers/structural.py as a whole: what its result says of a file.
use avbox.Prelude.{ℕ, ◌≡◌, true, Option, none, some, [], length, ok}
use avbox.Prelude.Bytes.{Bytes}
use avbox.Prelude.Fueled.{Fueled}
use avbox.Prelude.Stops.{Stops}
use avbox.Partitions.{parse_partition_table}
use avbox.Partitions.Types.{PartitionTable}
use avbox.Partitions.Rdb.Bounds.{IsSound}
use avbox.Structural.Types.{valid, StructuralValidation}
use avbox.Structural.Lha.Archive.{IsArchive}
use avbox.Structural.Iso.{volume_of}
use avbox.Structural.Iso.Readable.{IsVolume, IsZero}
use avbox.Structural.Adf.Sound.{IsFloppy}
use avbox.Structural.Fat.{read_bpb, is_bpb_valid}
use avbox.Structural.Fat.Consistent.{IsConsistent}
use avbox.Structural.{Kind, adf, fat, rdb, iso, lha, other}

-- A table of partitions without errors: they lie inside the file, and no two share a byte.
abbrev pub IsTable : Bytes → Type 0
IsTable file =
    (t : PartitionTable) × (parse_partition_table file 256 ≡ some (ok (some t)))
    × (t.errors ≡ [])
    × IsSound (length file) 256 t

-- What a file is that is called VALID.
pub IsWhole : ℕ → Bytes → Kind → Type 0
IsWhole max_nodes file adf = IsFloppy file
IsWhole max_nodes file fat =
    (is_bpb_valid (read_bpb file) file ≡ true) × IsConsistent (read_bpb file) file
IsWhole max_nodes file rdb = IsTable file
IsWhole max_nodes file iso = (pvd : Bytes) × IsVolume file pvd
IsWhole max_nodes file lha = IsArchive max_nodes file
IsWhole max_nodes file other = ⊥

-- What a validation says.
unfoldable pub Says : ℕ → Bytes → Kind → Option StructuralValidation → Type 0
Says max_nodes file kind none = kind ≡ other
Says max_nodes file kind (some v) = v.state ≡ valid → IsWhole max_nodes file kind

-- The division by 0 that an image can bring about.
unfoldable pub Divides : Bytes → Kind → Type 0
Divides file kind = (kind ≡ iso) × IsZero (volume_of file).pvd
