-- ===== src/Models/Records.antt =====
-- The records of src/avbox/models/artifacts.py, analysis.py, protocol.py, runtime.py and jobs.py.
-- Left out are time stamps, rights, platform hints and the evidence inside an analyzer's result
-- (observations, findings, assessments), which the modelled code does not read.
use avbox.Prelude.{ℕ, String, Option, List}
use avbox.Models.Verdict.{Verdict}
use avbox.Models.Job.{JobStatus}

pub data QualificationState : Type 0 where
  not_installed installed probed qualified degraded failed disabled : QualificationState

pub record Hashes : Type 0 where
  pub sha256 : String
  pub blake3 : String
  pub sha1 : String
  pub md5 : String

pub record InputArtifact : Type 0 where
  pub hashes : Hashes
  pub byte_size : ℕ
  pub filename : String
  pub submitted_filename : Option String
  pub media_type : String
  pub source : String

-- `ObjectIdentity`: only the SHA-256 and the size are sure to be known.
pub record ObjectIdentity : Type 0 where
  pub sha256 : String
  pub blake3 : Option String
  pub sha1 : Option String
  pub md5 : Option String
  pub size : ℕ
  pub filename : Option String
  pub media_type : Option String

pub record ScannerResult : Type 0 where
  pub scanner_id : String
  pub native_verdict : String
  pub normalized_verdict : Verdict
  pub detection_name : Option String
  pub raw_output_ref : String
  pub engine_version : Option String
  pub selected_reason : Option String
  pub qualification_state : Option QualificationState

pub record AnalyzerResult : Type 0 where
  pub analyzer_id : String
  pub native_status : String
  pub product_version : Option String
  pub engine_version : Option String
  pub qualification_state : Option QualificationState
  pub raw_output : Option String
  pub errors : List String
  pub ssdeep : Option String

pub record ScannerRuntimeStatus : Type 0 where
  pub scanner_id : String
  pub qualification_state : QualificationState
  pub installed_version : Option String
  pub detail : String

-- The values of `relationship` that the extraction writes.
pub data Relation : Type 0 where
  contains decompressed_from filesystem_entry_of partition_of embedded_file_of : Relation

pub record DerivedObject : Type 0 where
  pub object : ObjectIdentity
  pub parent_sha256 : String
  pub depth : ℕ
  pub member_name : String
  pub member_index : ℕ
  pub analyzer_results : List AnalyzerResult
  pub scanner_results : List ScannerResult
  pub normalized_verdict : Verdict
  pub errors : List String

pub record ObjectRelationship : Type 0 where
  pub relationship : Relation
  pub source_sha256 : String
  pub target_sha256 : String
  pub member_name : String
  pub depth : ℕ
  pub member_index : ℕ

-- The reasons for which an extraction stops or leaves a member out.
pub data LimitEvent : Type 0 where
  extraction_time child_count total_child_count child_size byte_budget expansion_ratio recursion :
      LimitEvent
  partition_materialization total_partition_materialization : LimitEvent
  corrupt_container encrypted_container unsafe_member_path symlink_entry symlink_or_hardlink_entry
        special_file_entry :
      LimitEvent
  corrupt_filesystem corrupt_partition_table extraction_unavailable enumeration_failure : LimitEvent
  member_extraction_failure : LimitEvent

-- `completeness`: a fixed text, or an analyzer's native status in upper case.
pub record ScanJob : Type 0 where
  pub job_id : ℕ
  pub source : String
  pub input_artifact : InputArtifact
  pub requested_scanners : List String
  pub applicable_scanners : List String
  pub status : JobStatus
  pub scanner_results : List ScannerResult
  pub analyzer_results : List AnalyzerResult
  pub derived_objects : List DerivedObject
  pub relationships : List ObjectRelationship
  pub completeness : String
  pub root_verdict : Option Verdict
  pub normalized_verdict : Verdict
  pub raw_output_refs : List String
  pub preservation_decision : Option String
  pub errors : List String
