-- ===== src/Partitions.antt =====
-- src/avbox/analyzers/partitions.py: the range reader, the two table formats and the overlap check
-- are in child modules; here the entry point puts them together.
pub mod Types
pub mod Reader
pub mod Overlap
pub mod Mbr
pub mod Rdb
pub mod Sound
use avbox.Prelude.{
  ℕ, zero, suc, ◌+◌, ◌-◌, ◌*◌, ◌/◌, ◌%◌, ◌^◌, ◌≤◌, ◌<◌, min, max, String, ◌≡◌, refl, sym, ap, ◌∙◌,
  fun_ext, ◌≢◌, ◌↔◌, ◌⊎◌, inl, inr, Bool, true, false, not, ◌&&◌, ◌||◌, Option, none, some, List,
  [], ◌∷◌, ◌++◌, map, arith, ltb, leb, ◌==◌, if◌then◌else◌, ltb→lt, ltb→le, leb→le, leb→lt, lt→ltb,
  le→leb, ==→eq, eq→==, ne→==, tests, Bool-cases, Option-cases, and_true, or_false, if_both, length,
  get_or, take, drop, replicate, All, any, all, select, length-append, append-nil, append_assoc,
  take-append-drop, length-take, length-drop, length-replicate, take-all, drop-nil, take-nil,
  drop-drop, take-append-take, All-append, All-take, length-map, is_member, Result, ok, err, ◌>>=◌,
  ◌>>◌, raise_if, Result-cases,
}
use avbox.Prelude.Bytes.{Bytes}
use avbox.Partitions.Types.{PartitionTableError, PartitionTable}
use Mbr.{parse_mbr}
use Rdb.{parse_rdb}

-- The MBR is tried where no RDB was found.
or_mbr :
    Bytes
    → ℕ
    → Result PartitionTableError (Option PartitionTable)
    → Result PartitionTableError (Option PartitionTable)
or_mbr file max_partitions (ok none) = parse_mbr file (length file) max_partitions
or_mbr file max_partitions (ok (some table)) = ok (some table)
or_mbr file max_partitions (err e) = err e

-- `parse_partition_table`, on the bytes of the file; `none` means that the fuel ran out.
unfoldable pub parse_partition_table :
    Bytes → ℕ → Option (Result PartitionTableError (Option PartitionTable))
unfolding or_mbr
parse_partition_table file max_partitions = elim (parse_rdb file (length file) max_partitions) [
  | none ↦ none
  | some result ↦ some (or_mbr file max_partitions result)
]
