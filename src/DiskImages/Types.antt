-- ===== src/DiskImages/Types.antt =====
-- The errors and records of src/avbox/analyzers/disk_images.py, and the codecs that it uses.
use avbox.Prelude.{ℕ, Option, List}
use avbox.Prelude.Bytes.{Bytes}

-- What `DiskImageError` is raised with, the node limit by structural.py alone.
pub data DiskImageError : Type 0 where
  fat_entry_outside invalid_cluster_chain cluster_outside missing_cluster : DiskImageError
  cyclic_cluster_chain truncated_fat_file : DiskImageError
  block_outside invalid_root_checksum invalid_counted_string cyclic_block_list : DiskImageError
  invalid_ofs_block invalid_ofs_size truncated_adf_file cyclic_hash_chain : DiskImageError
  invalid_entry_header unsafe_entry_name unsupported_entry_type node_limit : DiskImageError

-- A path or a name: its code points.
abbrev pub Text : Type 0
Text = List ℕ

-- A file; `entry_type` is always "file".
pub record DiskEntry : Type 0 where
  pub path : Text
  pub data_bytes : Bytes
  pub index : ℕ

pub data Filesystem : Type 0 where
  fat12 fat16 fat32 ofs ffs : Filesystem

-- `format` is "amiga-adf" for OFS and FFS and "raw-fat-image" for the others; `label`,
-- `filesystem_size` and `allocation_size` are those of the metadata.
pub record DiskImage : Type 0 where
  pub filesystem : Filesystem
  pub entries : List DiskEntry
  pub label : Option Text
  pub filesystem_size : ℕ
  pub allocation_size : ℕ

-- Python's decoders with errors="replace", and `rstrip` and `strip` of white space.
pub record Codecs : Type 0 where
  pub cp437 : Bytes → Text
  pub utf_16le : Bytes → Text
  pub ascii : Bytes → Text
  pub rstrip : Text → Text
  pub strip : Text → Text
