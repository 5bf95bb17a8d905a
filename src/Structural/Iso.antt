-- ===== src/Structural/Iso.antt =====
-- `_iso` of src/avbox/analyzers/structural.py: the volume descriptors of an ISO 9660 image.
pub mod Directories
pub mod Rows
pub mod Reached
pub mod Readable
use avbox.Prelude.{
  str_eq, eq_iff, str_append, ℕ, zero, suc, ◌+◌, ◌-◌, ◌*◌, ◌/◌, ◌%◌, ◌^◌, ◌≤◌, ◌<◌, min, max,
  String, ◌≡◌, refl, sym, ap, ◌∙◌, fun_ext, ◌≢◌, ◌↔◌, ◌⊎◌, inl, inr, Bool, true, false, not, ◌&&◌,
  ◌||◌, Option, none, some, List, [], ◌∷◌, ◌++◌, map, arith, ltb, leb, ◌==◌, if◌then◌else◌, ltb→lt,
  ltb→le, leb→le, leb→lt, lt→ltb, le→leb, ==→eq, eq→==, ne→==, tests, Bool-cases, Option-cases,
  and_true, or_false, if_both, length, get_or, take, drop, replicate, All, any, all, select,
  length-append, append-nil, append_assoc, take-append-drop, length-take, length-drop,
  length-replicate, take-all, drop-nil, take-nil, drop-drop, take-append-take, All-append, All-take,
  length-map, is_member, Result, ok, err, raise_if, Result-cases,
}
use avbox.Prelude.Bytes.{Bytes, byte, slice, le16, le32, starts_with}
use avbox.Prelude.Fueled.{Fueled, done, raised, out_of_fuel, ◌>>=◌}
use avbox.DiskImages.Fat.Tree.{has_bit}
use avbox.Structural.Types.{
  StructuralState, truncated, Finding, adf_image_truncated, adf_data_chain_truncated,
  fat_file_chain_truncated, iso_truncated_descriptor, iso_volume_descriptor_invalid,
  iso_primary_volume_descriptor_missing, iso_descriptor_terminator_missing,
  iso_logical_block_size_invalid, iso_volume_space_out_of_range, iso_directory_extent_out_of_range,
  iso_directory_record_malformed, iso_file_extent_out_of_range, iso_directory_node_limit,
  lha_archive_truncated, named, flag, number, Observation, StructuralValidation,
}
use avbox.Structural.Results.{result, state_of}
use avbox.Structural.Iso.Directories.{IsoError, iso_directories}

-- b"CD001"
abbrev pub cd001 : Bytes
cd001 = 67 ∷ 68 ∷ 48 ∷ 48 ∷ 49 ∷ []

-- The local variables of `_iso` that its loop changes.
pub record Volume : Type 0 where
  pub descriptors : ℕ
  pub pvd : Option Bytes
  pub terminator : Bool
  pub findings : List Finding

abbrev pub note_volume : Finding → Volume → Volume
note_volume f v = record v { findings = v.findings ++ (f ∷ []) }

-- A descriptor that is one.
unfoldable pub count_descriptor : Bytes → Volume → Volume
count_descriptor block v = record v {
  descriptors = v.descriptors + 1;
  pvd = if byte block 0 == 1 then some block else v.pvd;
  terminator = byte block 0 == 255;
}

-- The loop over the sectors from `sector` on, of which `n` are left.
unfoldable pub read_descriptors : Bytes → ℕ → ℕ → Volume → Volume
unfolding count_descriptor
read_descriptors file zero sector v = v
read_descriptors file (suc n) sector v =
    let block = slice file (sector * 2048) (sector * 2048 + 2048) in
    let rest = read_descriptors file n (sector + 1) (count_descriptor block v) in
    if not (length block == 2048)
    then note_volume iso_truncated_descriptor v
    else if not (starts_with cd001 (slice block 1 6)) || not (byte block 6 == 1)
    then note_volume iso_volume_descriptor_invalid v
    else if byte block 0 == 255
    then count_descriptor block v
    else rest

-- `"TRUNCATED" in f`
unfoldable pub mentions_truncated : Finding → Bool
mentions_truncated adf_image_truncated = true
mentions_truncated adf_data_chain_truncated = true
mentions_truncated fat_file_chain_truncated = true
mentions_truncated iso_truncated_descriptor = true
mentions_truncated lha_archive_truncated = true
mentions_truncated _ = false

abbrev pub finding_if : Bool → Finding → List Finding
finding_if c f = if c then f ∷ [] else []

abbrev pub is_some {ℓ} : {A : Type ℓ} → Option A → Bool
is_some none = false
is_some (some a) = true

-- The checks on the primary descriptor, and the walk from the root directory in it.
unfoldable pub check_volume :
    ℕ → Bytes → Option Bytes → List Finding → Fueled IsoError (List Finding)
check_volume max_nodes file none findings = done findings
check_volume max_nodes file (some pvd) findings =
    let block_size = le16 pvd 128 in
    iso_directories max_nodes block_size file (slice pvd 156 190) (
      findings
      ++ finding_if (not (block_size == 2048)) iso_logical_block_size_invalid
      ++ finding_if (ltb (length file) (le32 pvd 80 * max block_size 1))
          iso_volume_space_out_of_range)

unfoldable pub block_size_of : Option Bytes → List Observation
block_size_of none = []
block_size_of (some pvd) = (named "ISO_LOGICAL_BLOCK_SIZE", number (le16 pvd 128)) ∷ []

-- The descriptors of an image.
unfoldable pub volume_of : Bytes → Volume
volume_of file =
    read_descriptors file (min (length file / 2048) 144 - 16) 16
      (record { descriptors = 0; pvd = none; terminator = false; findings = [] })

-- What is found before the directories.
unfoldable pub volume_findings : Volume → List Finding
volume_findings v =
    v.findings
    ++ finding_if (not (is_some v.pvd)) iso_primary_volume_descriptor_missing
    ++ finding_if (not v.terminator) iso_descriptor_terminator_missing

-- `_iso`
unfoldable pub validate_iso : ℕ → String → Bytes → Fueled IsoError StructuralValidation
unfolding volume_of volume_findings check_volume block_size_of
validate_iso max_nodes sha256 file = do
  let v = volume_of file
  findings ← check_volume max_nodes file v.pvd (volume_findings v)
  done (
      result sha256 "ISO9660" (some "base")
        (if any mentions_truncated findings then truncated else state_of findings)
        ((named "ISO_PVD_VALID", flag (is_some v.pvd))
          ∷ (named "ISO_DESCRIPTOR_TERMINATOR_PRESENT", flag v.terminator)
          ∷ (named "ISO_DESCRIPTOR_COUNT", number v.descriptors)
          ∷ block_size_of v.pvd)
        findings "COMPLETE")
