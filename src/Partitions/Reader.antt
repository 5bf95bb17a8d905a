-- ===== src/Partitions/Reader.antt =====
-- `BoundedRangeReader` of src/avbox/analyzers/partitions.py: a window on the root file. The root
-- file is its bytes; the object's stream position is set before each read and is not kept.
pub mod Reads
use avbox.Prelude.{
  ℕ, zero, suc, ◌+◌, ◌-◌, ◌*◌, ◌/◌, ◌%◌, ◌^◌, ◌≤◌, ◌<◌, min, max, String, ◌≡◌, refl, sym, ap, ◌∙◌,
  fun_ext, ◌≢◌, ◌↔◌, ◌⊎◌, inl, inr, Bool, true, false, not, ◌&&◌, ◌||◌, Option, none, some, List,
  [], ◌∷◌, ◌++◌, map, arith, ltb, leb, ◌==◌, if◌then◌else◌, ltb→lt, ltb→le, leb→le, leb→lt, lt→ltb,
  le→leb, ==→eq, eq→==, ne→==, tests, Bool-cases, Option-cases, and_true, or_false, length, get_or,
  take, drop, replicate, All, any, all, select, length-append, append-nil, append_assoc,
  take-append-drop, length-take, length-drop, length-replicate, take-all, drop-nil, take-nil,
  drop-drop, take-append-take, All-append, All-take, length-map, is_member, Result, ok, err, ◌>>=◌,
  ◌>>◌, raise_if, Result-cases,
}
use avbox.Prelude.Bytes.{Bytes, slice}
use avbox.Prelude.Int.{ℤ, pos, negsuc, add_ℕ}
use avbox.Partitions.Types.{
  PartitionTableError, range_outside_root, seek_outside_range, negative_read_size, truncated_read,
}

pub record BoundedRangeReader : Type 0 where
  pub start : ℕ
  pub length : ℕ
  pub root_size : ℕ
  pub position : ℕ

-- `__init__`
unfoldable pub open_range : ℤ → ℤ → ℕ → Result PartitionTableError BoundedRangeReader
open_range (pos start) (pos length) root_size =
    if ltb root_size start || ltb (root_size - start) length
    then err range_outside_root
    else ok (record { start = start; length = length; root_size = root_size; position = 0 })
open_range start length root_size = err range_outside_root

-- The argument `whence` of `seek`; any other value of it counts from the end.
pub data Whence : Type 0 where
  set current end : Whence

abbrev pub origin : Whence → BoundedRangeReader → ℕ
origin set r = 0
origin current r = r.position
origin end r = r.length

move_to : BoundedRangeReader → ℤ → Result PartitionTableError (ℕ × BoundedRangeReader)
move_to r (pos target) =
    if ltb r.length target
    then err seek_outside_range
    else ok (target, record r { position = target })
move_to r (negsuc target) = err seek_outside_range

unfoldable pub seek :
    ℤ → Whence → BoundedRangeReader → Result PartitionTableError (ℕ × BoundedRangeReader)
unfolding move_to
seek offset whence r = move_to r (add_ℕ (origin whence r) offset)

-- The size that a read asks for: a negative one means all that is left.
wanted : ℤ → BoundedRangeReader → Result PartitionTableError ℕ
wanted (pos size) r = ok size
wanted (negsuc _) r =
    if ltb r.length r.position then err negative_read_size else ok (r.length - r.position)

unfoldable pub read :
    Bytes → ℤ → BoundedRangeReader → Result PartitionTableError (Bytes × BoundedRangeReader)
unfolding wanted
read root size r = do
  asked ← wanted size r
  let size = min asked (r.length - r.position)
  let at = r.start + r.position
  let value = slice root at (at + size)
  raise_if (not (length value == size)) truncated_read
  ok (value, record r { position = r.position + size })

-- One chunk, and then those of the rest of the loop.
prepend : Bytes → Result PartitionTableError (List Bytes) → Result PartitionTableError (List Bytes)
prepend chunk (ok rest) = ok (chunk ∷ rest)
prepend chunk (err e) = err e

-- The loop of `chunks`; `none` means that the fuel ran out.
read_chunks : ℕ → Bytes → ℕ → BoundedRangeReader → Option (Result PartitionTableError (List Bytes))
unfolding prepend
read_chunks zero root chunk_size r = none
read_chunks (suc fuel) root chunk_size r = elim (ltb r.position r.length) [
  | false ↦ some (ok [])
  | true ↦ elim (read root (pos (min chunk_size (r.length - r.position))) r) [
    | err e ↦ some (err e)
    | ok (chunk, r') ↦ elim (read_chunks fuel root chunk_size r') [
      | none ↦ none
      | some rest ↦ some (prepend chunk rest)
    ]
  ]
]

-- `chunks`, run to its end: it seeks to 0 first. Each round moves on by a byte at least.
unfoldable pub chunks :
    Bytes → ℕ → BoundedRangeReader → Option (Result PartitionTableError (List Bytes))
unfolding read_chunks
chunks root chunk_size r = elim (seek (pos 0) set r) [
  | err e ↦ some (err e)
  | ok (_, r') ↦ read_chunks (suc r.length) root chunk_size r'
]
