-- ===== src/Partitions/Rdb.antt =====
-- `_parse_rdb` of src/avbox/analyzers/partitions.py.
pub mod Bounds
use Prim.Native.Nat.{bit_and}
use avbox.Prelude.{
  ℕ, zero, suc, ◌+◌, ◌-◌, ◌*◌, ◌/◌, ◌%◌, ◌^◌, ◌≤◌, ◌<◌, min, max, String, ◌≡◌, refl, sym, ap, ◌∙◌,
  fun_ext, ◌≢◌, ◌↔◌, ◌⊎◌, inl, inr, Bool, true, false, not, ◌&&◌, ◌||◌, Option, none, some, List,
  [], ◌∷◌, ◌++◌, map, arith, ltb, leb, ◌==◌, if◌then◌else◌, ltb→lt, ltb→le, leb→le, leb→lt, lt→ltb,
  le→leb, ==→eq, eq→==, ne→==, tests, Bool-cases, Option-cases, and_true, or_false, length, get_or,
  take, drop, replicate, All, any, all, select, length-append, append-nil, append_assoc,
  take-append-drop, length-take, length-drop, length-replicate, take-all, drop-nil, take-nil,
  drop-drop, take-append-take, All-append, All-take, length-map, is_member, Result, ok, err, ◌>>=◌,
  ◌>>◌, raise_if, Result-cases,
}
use avbox.Prelude.Bytes.{Bytes, byte, slice, be32, starts_with}
use avbox.Prelude.Int.{signed32}
use avbox.Partitions.Types.{
  PartitionTableError, invalid_rdb_checksum, invalid_rdb_block_size, Scheme, TypeText, Value,
  TableError, outside_image, count_exceeded, pointer_cycle, pointer_outside, invalid_part_block,
  invalid_geometry, Partition, PartitionTable, RowOutcome, skip, fault, found,
}
use avbox.Partitions.Overlap.{mark_overlaps}

-- The magic numbers "RDSK", "PART" and "DOS", and the pointer that ends a list.
abbrev pub rdsk : Bytes
rdsk = 0x52 ∷ 0x44 ∷ 0x53 ∷ 0x4B ∷ []

abbrev pub part : Bytes
part = 0x50 ∷ 0x41 ∷ 0x52 ∷ 0x54 ∷ []

abbrev dos_magic : Bytes
dos_magic = 0x44 ∷ 0x4F ∷ 0x53 ∷ []

abbrev pub end_of_list : ℕ
end_of_list = 0xFFFFFFFF

-- The sum of `count` big-endian words from the start of a block.
word_sum : ℕ → Bytes → ℕ
word_sum zero block = 0
word_sum (suc count) block = word_sum count block + be32 block (4 * count)

unfoldable pub valid_rdb_checksum : Bytes → Bool
unfolding word_sum
valid_rdb_checksum block =
    let count = be32 block 4 in
    if ltb (length block) 24
    then false
    else if ltb count 6 || ltb (length block / 4) count
    then false
    else word_sum count block % 2 ^ 32 == 0

-- The search among the first blocks: how many are left, and the one to look at.
find_rdb : ℕ → ℕ → Bytes → Option (Bytes × ℕ)
find_rdb zero index stream = none
find_rdb (suc left) index stream =
    let candidate = slice stream (index * 512) (index * 512 + 512) in
    let rest = find_rdb left (index + 1) stream in
    if starts_with rdsk candidate then some (candidate, index) else rest

-- The text of a type: "DOS\\" and the fourth byte, or all four in hexadecimal.
type_text : Bytes → TypeText
type_text dostype =
    if starts_with dos_magic dostype then TypeText.dos (byte dostype 3) else TypeText.raw dostype

-- `name or None`
or_none : Bytes → Option Bytes
or_none [] = none
or_none (b ∷ bs) = some (b ∷ bs)

-- What the loop carries from one block to the next.
pub record Progress : Type 0 where
  pub pointer : ℕ
  pub seen : List ℕ
  pub partitions : List Partition
  pub errors : List TableError

abbrev pub add_error : Progress → TableError → Progress
add_error s e = record s { errors = s.errors ++ e ∷ [] }

part_metadata : ℕ → ℕ → ℕ → Bytes → TypeText → Option Bytes → ℕ → List (String × Value)
part_metadata block_size start length block text_type name index =
    ("partition.scheme", Value.scheme Scheme.rdb)
    ∷ ("partition.index", Value.num index)
    ∷ ("partition.start_bytes", Value.num start)
    ∷ ("partition.length_bytes", Value.num length)
    ∷ ("partition.type", Value.kind text_type)
    ∷ ("partition.name", Value.text name)
    ∷ ("rdb.dostype", Value.kind text_type)
    ∷ ("rdb.low_cylinder", Value.num (be32 block 164))
    ∷ ("rdb.high_cylinder", Value.num (be32 block 168))
    ∷ ("rdb.block_size", Value.num block_size)
    ∷ ("rdb.surfaces", Value.num (be32 block 140))
    ∷ ("rdb.blocks_per_track", Value.num (be32 block 148))
    ∷ ("rdb.boot_priority", Value.int (signed32 (be32 block 188)))
    ∷ []

-- What a valid PART block describes; `index` partitions were found before it.
unfoldable pub part_outcome : ℕ → ℕ → Bytes → ℕ → RowOutcome
unfolding type_text or_none part_metadata
part_outcome size block_size block index =
    let name = or_none (slice block 37 (37 + min (byte block 36) 31)) in
    let surfaces = be32 block 140 in
    let blocks_per_track = be32 block 148 in
    let low = be32 block 164 in
    let high = be32 block 168 in
    let text_type = type_text (slice block 192 196) in
    let cylinder_bytes = surfaces * blocks_per_track * block_size in
    let start = low * cylinder_bytes in
    let length_bytes = (high - low + 1) * cylinder_bytes in
    if surfaces == 0 || blocks_per_track == 0 || ltb high low
    then fault (invalid_geometry index)
    else if ltb size start || ltb (size - start) length_bytes
    then fault (outside_image Scheme.rdb index)
    else found (record {
      index = index;
      start = start;
      length = length_bytes;
      type = text_type;
      scheme = Scheme.rdb;
      name = name;
      metadata = part_metadata block_size start length_bytes block text_type name index;
    })

unfoldable pub add_outcome : RowOutcome → Progress → Progress
add_outcome skip s = s
add_outcome (fault e) s = add_error s e
add_outcome (found p) s = record s { partitions = s.partitions ++ p ∷ [] }

-- One round of the loop: the state at the next test of the loop, or the state after a `break`.
pub data Round : Type 0 where
  go_on : Progress → Round
  stop : Progress → Round

unfoldable pub rdb_round : Bytes → ℕ → ℕ → ℕ → Progress → Round
rdb_round stream size block_size max_partitions s =
    let offset = s.pointer * block_size in
    let block = slice stream offset (offset + block_size) in
    let marked = record s { seen = s.pointer ∷ s.seen } in
    let added = add_outcome (part_outcome size block_size block (length s.partitions)) marked in
    if is_member s.pointer s.seen
    then stop (add_error s pointer_cycle)
    else if leb max_partitions (length s.seen)
    then stop (add_error s count_exceeded)
    else if ltb size offset || ltb (size - offset) block_size
    then stop (add_error marked pointer_outside)
    else if not (starts_with part block && valid_rdb_checksum block)
    then stop (add_error marked (invalid_part_block s.pointer))
    else go_on (record added { pointer = be32 block 16 })

-- The loop `while pointer != 0xFFFFFFFF`; `none` means that the fuel ran out.
unfoldable pub rdb_loop : ℕ → Bytes → ℕ → ℕ → ℕ → Progress → Option Progress
rdb_loop zero stream size block_size max_partitions s = none
rdb_loop (suc fuel) stream size block_size max_partitions s = elim (s.pointer == end_of_list) [
  | true ↦ some s
  | false ↦ elim (rdb_round stream size block_size max_partitions s) [
    | stop s' ↦ some s'
    | go_on s' ↦ rdb_loop fuel stream size block_size max_partitions s'
  ]
]

unfoldable pub rdb_table : ℕ → ℕ → Progress → PartitionTable
rdb_table rdb_index block_size s = record {
  scheme = Scheme.rdb;
  partitions = s.partitions;
  metadata =
      ("rdb.block_location", Value.num rdb_index)
      ∷ ("rdb.block_size", Value.num block_size)
      ∷ ("rdb.filesystem_handler_execution", Value.flag false)
      ∷ [];
  errors = s.errors ++ mark_overlaps s.partitions;
}

abbrev pub rdb_start : Bytes → Progress
rdb_start rdb = record { pointer = be32 rdb 28; seen = []; partitions = []; errors = [] }

-- The test `block_size < 512 or block_size > 65536 or block_size & (block_size - 1)`.
unfoldable pub is_bad_block_size : ℕ → Bool
is_bad_block_size block_size =
    ltb block_size 512 || ltb 65536 block_size || not (bit_and block_size (block_size - 1) == 0)

unfoldable pub finish_rdb :
    ℕ → ℕ → Option Progress → Option (Result PartitionTableError (Option PartitionTable))
unfolding rdb_table
finish_rdb rdb_index block_size none = none
finish_rdb rdb_index block_size (some s) = some (ok (some (rdb_table rdb_index block_size s)))

-- The table of an RDB that was found at a block. One round of the loop is allowed for each pointer
-- that may be followed, and two for the tests that end the loop.
unfoldable pub read_rdb :
    Bytes → ℕ → ℕ → Bytes × ℕ → Option (Result PartitionTableError (Option PartitionTable))
read_rdb stream size max_partitions (rdb, rdb_index) =
    let block_size = be32 rdb 16 in
    let looped =
      rdb_loop (max_partitions + 2) stream size block_size max_partitions (rdb_start rdb) in
    if not (valid_rdb_checksum rdb)
    then some (err invalid_rdb_checksum)
    else if is_bad_block_size block_size
    then some (err invalid_rdb_block_size)
    else finish_rdb rdb_index block_size looped

unfoldable pub parse_rdb :
    Bytes → ℕ → ℕ → Option (Result PartitionTableError (Option PartitionTable))
unfolding find_rdb
parse_rdb stream size max_partitions = elim (find_rdb (min 16 (size / 512)) 0 stream) [
  | none ↦ some (ok none)
  | some block ↦ read_rdb stream size max_partitions block
]
