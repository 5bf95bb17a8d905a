-- ===== src/Partitions/Mbr.antt =====
-- `_parse_mbr` of src/avbox/analyzers/partitions.py.
pub mod Bounds
use avbox.Prelude.{
  ℕ, zero, suc, ◌+◌, ◌-◌, ◌*◌, ◌/◌, ◌%◌, ◌^◌, ◌≤◌, ◌<◌, min, max, String, ◌≡◌, refl, sym, ap, ◌∙◌,
  fun_ext, ◌≢◌, ◌↔◌, ◌⊎◌, inl, inr, Bool, true, false, not, ◌&&◌, ◌||◌, Option, none, some, List,
  [], ◌∷◌, ◌++◌, map, arith, ltb, leb, ◌==◌, if◌then◌else◌, ltb→lt, ltb→le, leb→le, leb→lt, lt→ltb,
  le→leb, ==→eq, eq→==, ne→==, tests, Bool-cases, Option-cases, and_true, or_false, length, get_or,
  take, drop, replicate, All, any, all, select, length-append, append-nil, append_assoc,
  take-append-drop, length-take, length-drop, length-replicate, take-all, drop-nil, take-nil,
  drop-drop, take-append-take, All-append, All-take, length-map, is_member, Result, ok, err, ◌>>=◌,
  ◌>>◌, raise_if, Result-cases,
}
use avbox.Prelude.Bytes.{Bytes, byte, slice, le32}
use avbox.Partitions.Types.{
  PartitionTableError, mbr_signature_absent, Scheme, TypeText, Value, TableError, invalid_boot_flag,
  extended_deferred, outside_image, count_exceeded, Partition, PartitionTable, RowOutcome, skip,
  fault, found,
}
use avbox.Partitions.Overlap.{mark_overlaps}

-- The four rows of the table in the first sector.
unfoldable pub mbr_rows : Bytes → List Bytes
mbr_rows sector =
    slice sector 446 462 ∷ slice sector 462 478 ∷ slice sector 478 494 ∷ slice sector 494 510 ∷ []

unfoldable pub is_populated : Bytes → Bool
is_populated row = not (byte row 4 == 0) || any (λ b. not (b == 0)) (slice row 8 16)

unfoldable pub is_plausible : Bytes → Bool
is_plausible row =
    (byte row 0 == 0 || byte row 0 == 0x80) && not (byte row 4 == 0) && not (le32 row 12 == 0)

abbrev mbr_metadata : ℕ → Bytes → List (String × Value)
mbr_metadata index row =
    ("partition.scheme", Value.scheme Scheme.mbr)
    ∷ ("partition.index", Value.num index)
    ∷ ("partition.start_bytes", Value.num (le32 row 8 * 512))
    ∷ ("partition.length_bytes", Value.num (le32 row 12 * 512))
    ∷ ("partition.type", Value.kind (TypeText.code (byte row 4)))
    ∷ ("mbr.type_code", Value.num (byte row 4))
    ∷ ("mbr.bootable", Value.flag (byte row 0 == 0x80))
    ∷ ("mbr.lba_start", Value.num (le32 row 8))
    ∷ ("mbr.sector_count", Value.num (le32 row 12))
    ∷ []

-- What one round of the loop over the rows does.
unfoldable pub mbr_row : ℕ → ℕ → Bytes → RowOutcome
mbr_row size index row =
    let boot = byte row 0 in
    let type_code = byte row 4 in
    let lba_start = le32 row 8 in
    let sectors = le32 row 12 in
    let start = lba_start * 512 in
    let length = sectors * 512 in
    if type_code == 0 && lba_start == 0 && sectors == 0
    then skip
    else if not (boot == 0 || boot == 0x80)
    then fault (invalid_boot_flag index boot)
    else if type_code == 0x05 || type_code == 0x0F || type_code == 0x85
    then fault (extended_deferred index)
    else if sectors == 0 || ltb start 512 || ltb size start || ltb (size - start) length
    then fault (outside_image Scheme.mbr index)
    else found (record {
      index = index;
      start = start;
      length = length;
      type = TypeText.code type_code;
      scheme = Scheme.mbr;
      name = none;
      metadata = mbr_metadata index row;
    })

unfoldable pub add_outcome :
    RowOutcome → List Partition × List TableError → List Partition × List TableError
add_outcome skip (ps, es) = (ps, es)
add_outcome (fault e) (ps, es) = (ps, e ∷ es)
add_outcome (found p) (ps, es) = (p ∷ ps, es)

-- The loop, from row `index` on: the partitions and the errors, each in the order of the rows.
unfoldable pub scan_rows : ℕ → ℕ → List Bytes → List Partition × List TableError
unfolding add_outcome
scan_rows size index [] = ([], [])
scan_rows size index (row ∷ rows) =
    add_outcome (mbr_row size index row) (scan_rows size (index + 1) rows)

-- More partitions than the server's maximum are cut off, with an error.
unfoldable pub limit_count : ℕ → List Partition × List TableError → List Partition × List TableError
limit_count max_partitions (ps, es) =
    if ltb max_partitions (length ps)
    then (take max_partitions ps, es ++ count_exceeded ∷ [])
    else (ps, es)

unfoldable pub mbr_table : List Partition × List TableError → PartitionTable
mbr_table (ps, es) = record {
  scheme = Scheme.mbr;
  partitions = ps;
  metadata = ("mbr.signature", Value.label "55AA") ∷ ("sector_size", Value.num 512) ∷ [];
  errors = es ++ mark_overlaps ps;
}

-- `none`: no plausible table stands there.
unfoldable pub parse_mbr : Bytes → ℕ → ℕ → Result PartitionTableError (Option PartitionTable)
unfolding mbr_rows scan_rows limit_count mbr_table
parse_mbr stream size max_partitions =
    let sector = slice stream 0 512 in
    let rows = mbr_rows sector in
    let populated = select is_populated rows in
    let plausible = select is_plausible populated in
    if ltb size 512 then ok none else elim populated [
      | [] ↦ ok none
      | _ ∷ _ ↦ elim plausible [
        | [] ↦ ok none
        | _ ∷ _ ↦
            if not (byte sector 510 == 0x55 && byte sector 511 == 0xAA)
            then err mbr_signature_absent
            else ok (some (mbr_table (limit_count max_partitions (scan_rows size 0 rows))))
      ]
    ]
