-- ===== src/Structural.antt =====
-- src/avbox/analyzers/structural.py: the validator of disk images and archives. A module for each
-- format; here the table of partitions, and what a file is taken for.
pub mod Types
pub mod Results
pub mod Facts
pub mod Reports
pub mod Lha
pub mod Iso
pub mod Adf
pub mod Fat
pub mod Sound
use avbox.Prelude.{
  str_eq, eq_iff, str_append, ℕ, zero, suc, ◌+◌, ◌-◌, ◌*◌, ◌/◌, ◌%◌, ◌^◌, ◌≤◌, ◌<◌, min, max,
  String, ◌≡◌, refl, sym, ap, ◌∙◌, fun_ext, ◌≢◌, ◌↔◌, ◌⊎◌, inl, inr, Bool, true, false, not, ◌&&◌,
  ◌||◌, Option, none, some, List, [], ◌∷◌, ◌++◌, map, arith, ltb, leb, ◌==◌, if◌then◌else◌, ltb→lt,
  ltb→le, leb→le, leb→lt, lt→ltb, le→leb, ==→eq, eq→==, ne→==, tests, Bool-cases, Option-cases,
  and_true, or_false, if_both, length, get_or, take, drop, replicate, All, any, all, select,
  length-append, append-nil, append_assoc, take-append-drop, length-take, length-drop,
  length-replicate, take-all, drop-nil, take-nil, drop-drop, take-append-take, All-append, All-take,
  length-map, is_member, Result, ok, err, raise_if, Result-cases,
}
use avbox.Prelude.Bytes.{Bytes, byte, slice, le16, starts_with}
use avbox.Prelude.Fueled.{Fueled, done, out_of_fuel, ◌>>=◌}
use avbox.Models.Records.{QualificationState, probed, qualified}
use avbox.DiskImages.Types.{Codecs}
use avbox.Partitions.{parse_partition_table}
use avbox.Partitions.Types.{
  PartitionTableError, invalid_rdb_checksum, TableError, outside_image, pointer_cycle,
  pointer_outside, invalid_part_block, invalid_geometry, overlapping, PartitionTable,
}
use Types.{
  Finding, rdb_identifier_invalid, rdb_checksum_mismatch, rdb_structure_invalid, rdb_pointer_cycle,
  rdb_partition_overlap, rdb_pointer_or_partition_out_of_range,
  rdb_part_checksum_or_structure_invalid, rdb_partition_geometry_invalid, rdb_structure_warning,
  named, flag, text, Observation, StructuralValidation, AnalyzerResult,
}
use Results.{lower, result, over_limit, state_of}
use Lha.{lh0, validate_lha}
use Iso.{cd001, validate_iso}
use Iso.Directories.{IsoError}
use Adf.{validate_adf}
use Fat.{validate_fat}

-- `_rdb_finding`, by the words in the message.
unfoldable pub rdb_finding : TableError → Finding
rdb_finding pointer_cycle = rdb_pointer_cycle
rdb_finding (overlapping a b) = rdb_partition_overlap
rdb_finding (outside_image s i) = rdb_pointer_or_partition_out_of_range
rdb_finding pointer_outside = rdb_pointer_or_partition_out_of_range
rdb_finding (invalid_part_block p) = rdb_part_checksum_or_structure_invalid
rdb_finding (invalid_geometry i) = rdb_partition_geometry_invalid
rdb_finding _ = rdb_structure_warning

unfoldable pub rdb_error : PartitionTableError → Finding
rdb_error invalid_rdb_checksum = rdb_checksum_mismatch
rdb_error _ = rdb_structure_invalid

abbrev pub rdb_start : List Observation
rdb_start =
    (named "RDB_FILESYSTEM_CODE_EXECUTION", flag false)
    ∷ (named "RDB_EMBEDDED_FILESYSTEM_CODE", text "DATA_ONLY")
    ∷ []

unfoldable pub rdb_findings : Result PartitionTableError (Option PartitionTable) → List Finding
unfolding rdb_finding rdb_error
rdb_findings (ok none) = rdb_identifier_invalid ∷ []
rdb_findings (ok (some table)) = map rdb_finding table.errors
rdb_findings (err e) = rdb_error e ∷ []

unfoldable pub rdb_checks : Result PartitionTableError (Option PartitionTable) → List Observation
rdb_checks (ok none) = []
rdb_checks (ok (some table)) = (named "RDB_CHECKSUM_VALID", flag true) ∷ []
rdb_checks (err e) = (named "RDB_CHECKSUM_VALID", flag false) ∷ []

unfoldable pub rdb_result :
    String → Result PartitionTableError (Option PartitionTable) → StructuralValidation
unfolding rdb_findings rdb_checks
rdb_result sha256 r =
    result sha256 "RDB/HDF" (some "RDB") (state_of (rdb_findings r)) (rdb_start ++ rdb_checks r)
      (rdb_findings r) "COMPLETE"

-- `_rdb`; `none` means that the fuel ran out.
unfoldable pub validate_rdb : String → Bytes → Option StructuralValidation
unfolding rdb_result
validate_rdb sha256 file = elim (parse_partition_table file 256) [
  | none ↦ none
  | some r ↦ some (rdb_result sha256 r)
]

-- What the first bytes make of a file.
pub data Kind : Type 0 where
  adf fat rdb iso lha other : Kind

-- "DOS" and "RDSK"
abbrev pub dos_mark : Bytes
dos_mark = 68 ∷ 79 ∷ 83 ∷ []

abbrev pub rdsk : Bytes
rdsk = 82 ∷ 68 ∷ 83 ∷ 75 ∷ []

-- `_fat_bpb_plausible`
unfoldable pub is_bpb_plausible : Bytes → Bool
is_bpb_plausible head =
    leb 512 (length head)
    && ((le16 head 11 == 512
          || le16 head 11 == 1024
          || le16 head 11 == 2048
          || le16 head 11 == 4096)
        && not (byte head 13 == 0))

-- `any(... for i in range(...))`, with `n` blocks left.
unfoldable pub has_rdsk : ℕ → Bytes → Bool
has_rdsk zero head = false
has_rdsk (suc n) head = starts_with rdsk head || has_rdsk n (drop 512 head)

-- The conditions of `_validate`, on the first 64 KiB.
unfoldable pub kind_of : Bytes → Kind
unfolding is_bpb_plausible has_rdsk
kind_of head =
    if starts_with dos_mark head
    then adf
    else if leb 512 (length head)
        && (byte head 510 == 0x55 && (byte head 511 == 0xAA && is_bpb_plausible head))
    then fat
    else if has_rdsk (min 16 (length head / 512)) head
    then rdb
    else if leb 0x8006 (length head) && starts_with cd001 (slice head 0x8001 0x8006)
    then iso
    else if leb 22 (length head) && starts_with lh0 (slice head 2 7)
    then lha
    else other

-- What an instance of the validator is made with, and Python's codecs.
pub record Validator : Type 0 where
  pub max_bytes : ℕ
  pub max_nodes : ℕ
  pub codecs : Codecs

unfoldable pub of_option :
    Option StructuralValidation → Fueled IsoError (Option StructuralValidation)
of_option none = out_of_fuel
of_option (some v) = done (some v)

-- A format that is read as a whole, unless the file is too large.
unfoldable pub limited :
    Validator
    → Bytes
    → StructuralValidation
    → Fueled IsoError (Option StructuralValidation)
    → Fueled IsoError (Option StructuralValidation)
limited self file too_large run =
    if ltb self.max_bytes (length file) then done (some too_large) else run

unfoldable pub validate_kind :
    Validator → String → Bytes → Kind → Fueled IsoError (Option StructuralValidation)
unfolding of_option limited
validate_kind self sha256 file adf =
    limited self file (over_limit sha256 "ADF" none)
      (of_option (validate_adf self.max_nodes sha256 file))
validate_kind self sha256 file fat =
    limited self file (over_limit sha256 "FAT" none)
      (do v ← validate_fat self.codecs self.max_nodes sha256 file; done (some v))
validate_kind self sha256 file rdb = of_option (validate_rdb sha256 file)
validate_kind self sha256 file iso = do v ← validate_iso self.max_nodes sha256 file; done (some v)
validate_kind self sha256 file lha =
    limited self file (over_limit sha256 "LHA" (some "-lh0-"))
      (of_option (validate_lha self.max_nodes sha256 file))
validate_kind self sha256 file other = done none

-- `_validate`
unfoldable pub validate : Validator → String → Bytes → Fueled IsoError (Option StructuralValidation)
unfolding kind_of validate_kind
validate self sha256 file = validate_kind self sha256 file (kind_of (take 65536 file))

abbrev pub is_among : String → List String → Bool
is_among s xs = any (str_eq s) xs

-- The variants that are told apart, but not qualified.
unfoldable pub is_unqualified : Option String → Bool
unfolding any
is_unqualified none = false
is_unqualified (some v) =
    is_among v ("OFS_INTL" ∷ "FFS_INTL" ∷ "OFS_DIRCACHE" ∷ "FFS_DIRCACHE" ∷ [])

unfoldable pub qualification_of : StructuralValidation → QualificationState
unfolding any is_unqualified
qualification_of v =
    if is_among v.format ("ADF" ∷ "FAT" ∷ "RDB/HDF" ∷ "ISO9660" ∷ "LHA" ∷ [])
      && not (is_unqualified v.variant)
    then qualified
    else probed

-- The result of `analyze`.
unfoldable pub analyzer_result : Option StructuralValidation → AnalyzerResult
unfolding qualification_of
analyzer_result none = record {
  qualification_state = probed;
  native_status = "unsupported";
  observations = [];
  findings = [];
  assessments = [];
  structural_validation = none;
}
analyzer_result (some v) = record {
  qualification_state = qualification_of v;
  native_status = lower v.state;
  observations = v.observations;
  findings = v.findings;
  assessments = v.assessments;
  structural_validation = some v;
}

-- `analyze`
unfoldable pub analyze : Validator → String → Bytes → Fueled IsoError AnalyzerResult
unfolding analyzer_result
analyze self sha256 file = do v ← validate self sha256 file; done (analyzer_result v)
