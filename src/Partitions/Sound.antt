-- ===== src/Partitions/Sound.antt =====
-- Every partition that `parse_partition_table` returns can be read through a `BoundedRangeReader`.
use avbox.Prelude.{
  ℕ, ◌+◌, ◌≤◌, ◌<◌, ◌≡◌, refl, Option, none, some, List, [], ◌∷◌, arith, length, All, Result, ok,
  err,
}
use avbox.Prelude.Bytes.{Bytes, slice}
use avbox.Prelude.Int.{pos}
use avbox.Partitions.{or_mbr, parse_partition_table}
use avbox.Partitions.Types.{PartitionTableError, PartitionTable, Partition, IsInside}
use avbox.Partitions.Reader.{BoundedRangeReader, open_range, chunks}
use avbox.Partitions.Reader.Reads.{Covers, chunks-Covers}
use avbox.Partitions.Mbr.Bounds.{parse_mbr-IsSound}
use avbox.Partitions.Mbr.Bounds as MbrBounds
use avbox.Partitions.Rdb.Bounds.{IsSound, EndsSound, parse_rdb-EndsSound}

IsInside-of_sound :
    (size : ℕ) (ps : List Partition) → All (MbrBounds.IsSound size) ps → All (IsInside size) ps
IsInside-of_sound size [] h = tt
IsInside-of_sound size (p ∷ ps) h = (h.0.inside, IsInside-of_sound size ps h.1)

or_mbr-IsSound :
    (file : Bytes) (m : ℕ) (r : Result PartitionTableError (Option PartitionTable))
    → ((t : PartitionTable) → r ≡ ok (some t) → IsSound (length file) m t)
    → (t : PartitionTable) → or_mbr file m r ≡ ok (some t)
    → IsSound (length file) m t
unfolding or_mbr
or_mbr-IsSound file m (ok none) known t e =
    let (inside, few, _, apart) = parse_mbr-IsSound file (length file) m e in
    record {
      inside = IsInside-of_sound (length file) t.partitions inside;
      few = few;
      apart = apart;
    }
or_mbr-IsSound file m (ok (some u)) known t e = known t e
or_mbr-IsSound file m (err x) known t e = known t e

-- On every file the parse of its partition table ends, and if it returns a table, then each
-- partition lies inside the file, there are at most `max_partitions`, and without errors in the
-- table no two of them share a byte.
pub parse_partition_table-EndsSound :
    (file : Bytes) (max_partitions : ℕ)
    → EndsSound (length file) max_partitions (parse_partition_table file max_partitions)
unfolding parse_partition_table
parse_partition_table-EndsSound file m =
    let (r, runs, sound) = parse_rdb-EndsSound file (length file) m in
    rw (runs, parse_partition_table) (or_mbr file m r, refl, or_mbr-IsSound file m r sound)

-- The bytes of a partition can be read: a range reader over it opens, and its chunks are the bytes
-- of the file at the partition's place.
abbrev pub IsReadable : Bytes → ℕ → Partition → Type 0
IsReadable file chunk_size p =
    (r : BoundedRangeReader) × (open_range (pos p.start) (pos p.length) (length file) ≡ ok r)
    × (cs : List Bytes) × (chunks file chunk_size r ≡ some (ok cs))
    × Covers chunk_size (slice file p.start (p.start + p.length)) cs

open_inside :
    (file : Bytes) (start size : ℕ)
    → start + size ≤ length file
    → open_range (pos start) (pos size) (length file)
      ≡ ok (record { start = start; length = size; root_size = length file; position = 0 })
unfolding open_range
open_inside file start size h = ground arith

inside-IsReadable :
    (file : Bytes) (chunk_size : ℕ) (p : Partition)
    → 0 < chunk_size
    → IsInside (length file) p
    → IsReadable file chunk_size p
inside-IsReadable file c p h inside =
    let r : BoundedRangeReader = record {
      start = p.start;
      length = p.length;
      root_size = length file;
      position = 0;
    } in
    let (cs, runs, cover) =
      chunks-Covers file c r (record { fits = inside; within = omega arith }) refl h in
    (r, open_inside file p.start p.length inside, cs, runs, cover)

All-IsReadable :
    (file : Bytes) (chunk_size : ℕ) (ps : List Partition)
    → 0 < chunk_size
    → All (IsInside (length file)) ps
    → All (IsReadable file chunk_size) ps
All-IsReadable file c [] h k = tt
All-IsReadable file c (p ∷ ps) h k =
    (inside-IsReadable file c p h k.0, All-IsReadable file c ps h k.1)

-- Each partition of a table that `parse_partition_table` returns can be read through a range reader
-- over the same file, which opens without an error and whose chunks, for a positive chunk size, are
-- the bytes of the file from the partition's start, as many as its length.
pub partitions-IsReadable :
    (file : Bytes) (max_partitions chunk_size : ℕ) (t : PartitionTable)
    → 0 < chunk_size
    → parse_partition_table file max_partitions ≡ some (ok (some t))
    → All (IsReadable file chunk_size) t.partitions
partitions-IsReadable file m c t h e =
    let (r, runs, sound) = parse_partition_table-EndsSound file m in
    let same : r ≡ ok (some t) = cc in All-IsReadable file c t.partitions h (sound t same).inside
