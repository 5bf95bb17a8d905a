-- ===== src/Tests/Partitions.antt =====
-- src/avbox/analyzers/partitions.py on small images.
use avbox.Prelude.{
  ℕ, ◌+◌, ◌≤◌, ◌≡◌, refl, ◌↔◌, true, Option, none, some, List, [], ◌∷◌, ◌++◌, map, arith, length,
  replicate, All, any, is_member, Result, ok,
}
use avbox.Prelude.Bytes.{Bytes, slice, le32, be32, starts_with}
use avbox.Prelude.Int.{pos}
use avbox.Partitions.{parse_partition_table}
use avbox.Partitions.Types.{
  PartitionTableError, Scheme, TypeText, Value, Partition, PartitionTable, overlapping,
}
use avbox.Partitions.Reader.{BoundedRangeReader, read, chunks}
use avbox.Partitions.Reader.Reads.{IsValid, Covers, read-IsValid, chunks-Covers}
use avbox.Partitions.Overlap.{mark_overlaps, key_le}
use avbox.Partitions.Overlap.Disjoint.{Disjoint, mark_overlaps-Disjoint}
use avbox.Partitions.Mbr.{is_populated, is_plausible, mbr_row, parse_mbr}
use avbox.Partitions.Mbr.Bounds.{IsSound, Ascending, parse_mbr-IsSound}
use avbox.Partitions.Rdb
use avbox.Partitions.Rdb.{
  parse_rdb, read_rdb, valid_rdb_checksum, is_bad_block_size, finish_rdb, rdb_loop, rdb_round,
  part_outcome,
}
use avbox.Partitions.Rdb.Bounds.{EndsSound, parse_rdb-EndsSound}
use avbox.Partitions.Sound.{IsReadable, parse_partition_table-EndsSound, partitions-IsReadable}

abbrev file : Bytes
file = 10 ∷ 11 ∷ 12 ∷ 13 ∷ 14 ∷ 15 ∷ 16 ∷ 17 ∷ []

-- Bytes 2 to 6 of the file, with three of them read.
abbrev window : BoundedRangeReader
window = record { start = 2; length = 5; root_size = 8; position = 3 }

window-IsValid : IsValid window
window-IsValid = record { fits = omega arith; within = omega arith }

-- A read past the end of the range stops there, inside the file.
read-window : read file (pos 4) window ≡ ok (15 ∷ 16 ∷ [], record window { position = 5 })
unfolding read slice
read-window = refl

abbrev two_bytes : Bytes
two_bytes = 15 ∷ 16 ∷ []

read-IsValid_example :
    IsValid (record window { position = 5 })
    × (2 ≡ window.start)
    × (5 ≡ window.length)
    × (5 ≡ window.position + length two_bytes)
    × (two_bytes ≡ slice file (window.start + window.position) (window.start + 5))
read-IsValid_example = read-IsValid file (pos 4) window window-IsValid read-window

chunks-Covers_example :
    (cs : List Bytes) × (chunks file 2 window ≡ some (ok cs))
    × Covers 2 (slice file 2 (window.start + window.length)) cs
chunks-Covers_example = chunks-Covers file 2 window window-IsValid refl (omega arith)

abbrev entry : ℕ → ℕ → ℕ → Partition
entry index start size = record {
  index = index;
  start = start;
  length = size;
  type = TypeText.code 1;
  scheme = Scheme.mbr;
  name = none;
  metadata = [];
}

-- The second of the table lies inside the third.
abbrev crossed : List Partition
crossed = entry 0 4096 512 ∷ entry 1 1024 512 ∷ entry 2 512 2048 ∷ []

crossed_marked : mark_overlaps crossed ≡ overlapping 2 1 ∷ []
unfolding mark_overlaps key_le
crossed_marked = refl

mark_overlaps-Disjoint_example : (mark_overlaps crossed ≡ []) ↔ Disjoint crossed
mark_overlaps-Disjoint_example = mark_overlaps-Disjoint crossed

-- An image of three sectors with one partition of type 6 in the last two.
abbrev disk : Bytes
disk =
    replicate 446 0
    ++ (0x80 ∷ 0 ∷ 0 ∷ 0 ∷ 6 ∷ 0 ∷ 0 ∷ 0 ∷ 1 ∷ 0 ∷ 0 ∷ 0 ∷ 2 ∷ 0 ∷ 0 ∷ 0 ∷ [])
    ++ replicate 48 0
    ++ (0x55 ∷ 0xAA ∷ [])
    ++ replicate 1024 7

abbrev disk_partition : Partition
disk_partition = record {
  index = 0;
  start = 512;
  length = 1024;
  type = TypeText.code 6;
  scheme = Scheme.mbr;
  name = none;
  metadata =
      ("partition.scheme", Value.scheme Scheme.mbr)
      ∷ ("partition.index", Value.num 0)
      ∷ ("partition.start_bytes", Value.num 512)
      ∷ ("partition.length_bytes", Value.num 1024)
      ∷ ("partition.type", Value.kind (TypeText.code 6))
      ∷ ("mbr.type_code", Value.num 6)
      ∷ ("mbr.bootable", Value.flag true)
      ∷ ("mbr.lba_start", Value.num 1)
      ∷ ("mbr.sector_count", Value.num 2)
      ∷ [];
}

abbrev disk_table : PartitionTable
disk_table = record {
  scheme = Scheme.mbr;
  partitions = disk_partition ∷ [];
  metadata = ("mbr.signature", Value.label "55AA") ∷ ("sector_size", Value.num 512) ∷ [];
  errors = [];
}

parse_mbr-disk : parse_mbr disk 1536 32 ≡ ok (some disk_table)
unfolding parse_mbr is_populated is_plausible mbr_row mark_overlaps key_le slice le32 any
parse_mbr-disk = refl

parse_mbr-IsSound_example :
    All (IsSound 1536) (disk_partition ∷ [])
    × (1 ≤ 32)
    × Ascending 0 4 (disk_partition ∷ [])
    × (disk_table.errors ≡ [] → Disjoint (disk_partition ∷ []))
parse_mbr-IsSound_example = parse_mbr-IsSound disk 1536 32 parse_mbr-disk

parse_disk : parse_partition_table disk 32 ≡ some (ok (some disk_table))
unfolding parse_partition_table parse_rdb parse_mbr is_populated is_plausible mbr_row mark_overlaps
    key_le slice le32 any starts_with
parse_disk = refl

partitions-IsReadable_example : All (IsReadable disk 512) disk_table.partitions
partitions-IsReadable_example =
    partitions-IsReadable disk 32 512 disk_table (omega arith) parse_disk

-- An image of four blocks: an RDB, and a PART block for cylinders 2 and 3 of one block each.
abbrev rdb_block : Bytes
rdb_block =
    (0x52 ∷ 0x44 ∷ 0x53 ∷ 0x4B ∷ 0 ∷ 0 ∷ 0 ∷ 8 ∷ 0xAD ∷ 0xBB ∷ 0xAA ∷ 0xAC ∷ 0 ∷ 0 ∷ 0 ∷ 0 ∷ [])
    ++ (0 ∷ 0 ∷ 2 ∷ 0 ∷ 0 ∷ 0 ∷ 0 ∷ 0 ∷ 0 ∷ 0 ∷ 0 ∷ 0 ∷ 0 ∷ 0 ∷ 0 ∷ 1 ∷ [])
    ++ replicate 480 0

abbrev part_block : Bytes
part_block =
    (0x50 ∷ 0x41 ∷ 0x52 ∷ 0x54 ∷ 0 ∷ 0 ∷ 0 ∷ 6 ∷ 0xAF ∷ 0xBE ∷ 0xAD ∷ 0xA7 ∷ 0 ∷ 0 ∷ 0 ∷ 0 ∷ [])
    ++ (0xFF ∷ 0xFF ∷ 0xFF ∷ 0xFF ∷ [])
    ++ replicate 120 0
    ++ (0 ∷ 0 ∷ 0 ∷ 1 ∷ 0 ∷ 0 ∷ 0 ∷ 0 ∷ 0 ∷ 0 ∷ 0 ∷ 1 ∷ [])
    ++ replicate 12 0
    ++ (0 ∷ 0 ∷ 0 ∷ 2 ∷ 0 ∷ 0 ∷ 0 ∷ 3 ∷ [])
    ++ replicate 20 0
    ++ (0x44 ∷ 0x4F ∷ 0x53 ∷ 1 ∷ [])
    ++ replicate 316 0

abbrev amiga_disk : Bytes
amiga_disk = rdb_block ++ part_block ++ replicate 1024 9

abbrev places : Option (Result PartitionTableError (Option PartitionTable)) → List (ℕ × ℕ)
places (some (ok (some t))) = map (λ p. (p.start, p.length)) t.partitions
places _ = []

amiga_places : places (parse_rdb amiga_disk 2048 32) ≡ (1024, 1024) ∷ []
unfolding parse_rdb slice be32 starts_with is_member read_rdb valid_rdb_checksum is_bad_block_size
    finish_rdb rdb_loop rdb_round Rdb.add_outcome part_outcome
amiga_places = refl

parse_rdb-EndsSound_example : EndsSound 2048 32 (parse_rdb amiga_disk 2048 32)
parse_rdb-EndsSound_example = parse_rdb-EndsSound amiga_disk 2048 32

parse_partition_table-EndsSound_example :
    EndsSound (length amiga_disk) 32 (parse_partition_table amiga_disk 32)
parse_partition_table-EndsSound_example = parse_partition_table-EndsSound amiga_disk 32
