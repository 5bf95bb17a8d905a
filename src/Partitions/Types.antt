-- ===== src/Partitions/Types.antt =====
-- The errors and the records of src/avbox/analyzers/partitions.py.
use avbox.Prelude.{ℕ, ◌+◌, ◌≤◌, String, Bool, Option, List}
use avbox.Prelude.Bytes.{Bytes}
use avbox.Prelude.Int.{ℤ}

-- What `PartitionTableError` is raised with.
pub data PartitionTableError : Type 0 where
  range_outside_root seek_outside_range negative_read_size truncated_read : PartitionTableError
  mbr_signature_absent invalid_rdb_checksum invalid_rdb_block_size : PartitionTableError

pub data Scheme : Type 0 where
  mbr rdb : Scheme

-- The text of a partition's type: f"0x{code:02X}", f"DOS\\{n}", or four bytes in hexadecimal.
pub data TypeText : Type 0 where
  code dos : ℕ → TypeText
  raw : Bytes → TypeText

-- A value of a metadata dictionary.
pub data Value : Type 0 where
  num : ℕ → Value
  int : ℤ → Value
  flag : Bool → Value
  scheme : Scheme → Value
  kind : TypeText → Value
  text : Option Bytes → Value
  label : String → Value

-- The messages that are collected in `errors`.
pub data TableError : Type 0 where
  invalid_boot_flag : ℕ → ℕ → TableError
  extended_deferred : ℕ → TableError
  outside_image : Scheme → ℕ → TableError
  count_exceeded pointer_cycle pointer_outside : TableError
  invalid_part_block : ℕ → TableError
  invalid_geometry : ℕ → TableError
  overlapping : ℕ → ℕ → TableError

pub record Partition : Type 0 where
  pub index : ℕ
  pub start : ℕ
  pub length : ℕ
  pub type : TypeText
  pub scheme : Scheme
  pub name : Option Bytes
  pub metadata : List (String × Value)

pub record PartitionTable : Type 0 where
  pub scheme : Scheme
  pub partitions : List Partition
  pub metadata : List (String × Value)
  pub errors : List TableError

-- A partition lies inside an image of `size` bytes.
abbrev pub IsInside : ℕ → Partition → Type 0
IsInside size p = p.start + p.length ≤ size

-- What reading one entry of a table does: nothing, an error, or a partition.
pub data RowOutcome : Type 0 where
  skip : RowOutcome
  fault : TableError → RowOutcome
  found : Partition → RowOutcome
