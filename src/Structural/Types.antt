-- ===== src/Structural/Types.antt =====
-- What src/avbox/analyzers/structural.py reports: the states, the codes of its findings, and the
-- records of src/avbox/models/analysis.py that it fills.
use avbox.Prelude.{ℕ, String, Bool, false, ◌||◌, Option, List, [], ◌∷◌, str_eq, if◌then◌else◌}
use avbox.Prelude.Bytes.{Bytes}
use avbox.Models.Records.{QualificationState}

-- `StructuralState`
pub data StructuralState : Type 0 where
  valid valid_with_warnings damaged corrupt truncated : StructuralState
  non_standard partial unsupported unknown : StructuralState

-- The codes that the validators append to `findings`.
pub data Finding : Type 0 where
  validation_byte_limit : Finding
  adf_image_truncated adf_non_standard_size bootblock_checksum_mismatch : Finding
  rootblock_checksum_mismatch adf_block_reference_out_of_range : Finding
  adf_bitmap_checksum_mismatch adf_chain_loop adf_data_chain_truncated : Finding
  adf_block_structure_invalid : Finding
  fat_bpb_inconsistent fat_copies_mismatch fat_cluster_chain_loop : Finding
  fat_cluster_out_of_range fat_crosslink_detected fat_cluster_reference_invalid : Finding
  fat_chain_limit fat_file_chain_truncated fat_directory_loop : Finding
  fat_orphan_clusters_present : Finding
  rdb_identifier_invalid rdb_checksum_mismatch rdb_structure_invalid : Finding
  rdb_pointer_cycle rdb_partition_overlap rdb_pointer_or_partition_out_of_range : Finding
  rdb_part_checksum_or_structure_invalid rdb_partition_geometry_invalid : Finding
  rdb_structure_warning : Finding
  iso_truncated_descriptor iso_volume_descriptor_invalid : Finding
  iso_primary_volume_descriptor_missing iso_descriptor_terminator_missing : Finding
  iso_logical_block_size_invalid iso_volume_space_out_of_range : Finding
  iso_directory_extent_out_of_range iso_directory_record_malformed : Finding
  iso_file_extent_out_of_range iso_directory_node_limit : Finding
  lha_archive_truncated lha_header_malformed lha_method_unsupported : Finding
  lha_header_checksum_mismatch lha_member_crc_mismatch : Finding

-- The text of a code.
unfoldable pub text_of : Finding → String
text_of validation_byte_limit = "VALIDATION_BYTE_LIMIT"
text_of adf_image_truncated = "ADF_IMAGE_TRUNCATED"
text_of adf_non_standard_size = "ADF_NON_STANDARD_SIZE"
text_of bootblock_checksum_mismatch = "BOOTBLOCK_CHECKSUM_MISMATCH"
text_of rootblock_checksum_mismatch = "ROOTBLOCK_CHECKSUM_MISMATCH"
text_of adf_block_reference_out_of_range = "ADF_BLOCK_REFERENCE_OUT_OF_RANGE"
text_of adf_bitmap_checksum_mismatch = "ADF_BITMAP_CHECKSUM_MISMATCH"
text_of adf_chain_loop = "ADF_CHAIN_LOOP"
text_of adf_data_chain_truncated = "ADF_DATA_CHAIN_TRUNCATED"
text_of adf_block_structure_invalid = "ADF_BLOCK_STRUCTURE_INVALID"
text_of fat_bpb_inconsistent = "FAT_BPB_INCONSISTENT"
text_of fat_copies_mismatch = "FAT_COPIES_MISMATCH"
text_of fat_cluster_chain_loop = "FAT_CLUSTER_CHAIN_LOOP"
text_of fat_cluster_out_of_range = "FAT_CLUSTER_OUT_OF_RANGE"
text_of fat_crosslink_detected = "FAT_CROSSLINK_DETECTED"
text_of fat_cluster_reference_invalid = "FAT_CLUSTER_REFERENCE_INVALID"
text_of fat_chain_limit = "FAT_CHAIN_LIMIT"
text_of fat_file_chain_truncated = "FAT_FILE_CHAIN_TRUNCATED"
text_of fat_directory_loop = "FAT_DIRECTORY_LOOP"
text_of fat_orphan_clusters_present = "FAT_ORPHAN_CLUSTERS_PRESENT"
text_of rdb_identifier_invalid = "RDB_IDENTIFIER_INVALID"
text_of rdb_checksum_mismatch = "RDB_CHECKSUM_MISMATCH"
text_of rdb_structure_invalid = "RDB_STRUCTURE_INVALID"
text_of rdb_pointer_cycle = "RDB_POINTER_CYCLE"
text_of rdb_partition_overlap = "RDB_PARTITION_OVERLAP"
text_of rdb_pointer_or_partition_out_of_range = "RDB_POINTER_OR_PARTITION_OUT_OF_RANGE"
text_of rdb_part_checksum_or_structure_invalid = "RDB_PART_CHECKSUM_OR_STRUCTURE_INVALID"
text_of rdb_partition_geometry_invalid = "RDB_PARTITION_GEOMETRY_INVALID"
text_of rdb_structure_warning = "RDB_STRUCTURE_WARNING"
text_of iso_truncated_descriptor = "ISO_TRUNCATED_DESCRIPTOR"
text_of iso_volume_descriptor_invalid = "ISO_VOLUME_DESCRIPTOR_INVALID"
text_of iso_primary_volume_descriptor_missing = "ISO_PRIMARY_VOLUME_DESCRIPTOR_MISSING"
text_of iso_descriptor_terminator_missing = "ISO_DESCRIPTOR_TERMINATOR_MISSING"
text_of iso_logical_block_size_invalid = "ISO_LOGICAL_BLOCK_SIZE_INVALID"
text_of iso_volume_space_out_of_range = "ISO_VOLUME_SPACE_OUT_OF_RANGE"
text_of iso_directory_extent_out_of_range = "ISO_DIRECTORY_EXTENT_OUT_OF_RANGE"
text_of iso_directory_record_malformed = "ISO_DIRECTORY_RECORD_MALFORMED"
text_of iso_file_extent_out_of_range = "ISO_FILE_EXTENT_OUT_OF_RANGE"
text_of iso_directory_node_limit = "ISO_DIRECTORY_NODE_LIMIT"
text_of lha_archive_truncated = "LHA_ARCHIVE_TRUNCATED"
text_of lha_header_malformed = "LHA_HEADER_MALFORMED"
text_of lha_method_unsupported = "LHA_METHOD_UNSUPPORTED"
text_of lha_header_checksum_mismatch = "LHA_HEADER_CHECKSUM_MISMATCH"
text_of lha_member_crc_mismatch = "LHA_MEMBER_CRC_MISMATCH"

-- `code in findings`
unfoldable pub contains : Finding → List Finding → Bool
unfolding text_of
contains f [] = false
contains f (g ∷ gs) = str_eq (text_of g) (text_of f) || contains f gs

-- `list(dict.fromkeys(findings))`: the first of each code, where `seen` has come before.
unfoldable pub unique_from : List Finding → List Finding → List Finding
unique_from seen [] = []
unique_from seen (f ∷ fs) =
    let known = unique_from seen fs in
    let new = unique_from (f ∷ seen) fs in if contains f seen then known else f ∷ new

-- The type of an observation; `member_method n` is f"LHA_MEMBER_{n}_METHOD".
pub data ObservationType : Type 0 where
  named : String → ObservationType
  member_method : ℕ → ObservationType

-- The value of an observation; `dos n` is f"DOS\\{n}", and `bytes b` a text in ASCII.
pub data Value : Type 0 where
  flag : Bool → Value
  number dos : ℕ → Value
  text : String → Value
  bytes : Bytes → Value
  absent : Value

abbrev pub Observation : Type 0
Observation = ObservationType × Value

-- "MEDIA_STRUCTURALLY_DAMAGED"; the statement names the format and the state.
pub record Assessment : Type 0 where
  pub format : String
  pub state : StructuralState
  pub evidence_refs : List Finding

-- `StructuralValidation`, without the times.
pub record StructuralValidation : Type 0 where
  pub format : String
  pub variant : Option String
  pub state : StructuralState
  pub observations : List Observation
  pub findings : List Finding
  pub assessments : List Assessment
  pub completeness : String
  pub source_sha256 : String
  pub limit_state : Option String

-- `AnalyzerResult` of the validator, without the times and the fixed texts.
pub record AnalyzerResult : Type 0 where
  pub qualification_state : QualificationState
  pub native_status : String
  pub observations : List Observation
  pub findings : List Finding
  pub assessments : List Assessment
  pub structural_validation : Option StructuralValidation
