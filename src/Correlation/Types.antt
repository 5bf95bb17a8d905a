-- ===== src/Correlation/Types.antt =====
-- The records of src/avbox/models/correlation.py, without time stamps, rights and the history of
-- structural validation. Texts that are clipped are lists of code points.
use avbox.Prelude.{ℕ, String, Option, List, Bool}

abbrev pub Text : Type 0
Text = List ℕ

pub data CorrelationState : Type 0 where
  not_requested unavailable complete partial error : CorrelationState

pub data ExactLookupState : Type 0 where
  exact_match no_exact_match rab_not_there lookup_error : ExactLookupState

pub data CorrelationErrorCode : Type 0 where
  rab_unavailable rab_timeout rab_auth_failed rab_protocol_error rab_response_too_large
        rab_identity_conflict :
      CorrelationErrorCode

pub record ProvenanceRecord : Type 0 where
  pub source_id : Option Text
  pub source_label : Option Text
  pub collection : Option Text
  pub summary : Option Text
  pub authority : String

pub record KnownOccurrence : Type 0 where
  pub parent_rab_object_id : String
  pub relationship : String
  pub logical_path : Option Text
  pub parent_label : Option Text
  pub authority : String

pub record RabObjectContext : Type 0 where
  pub rab_object_id : String
  pub sha256 : String
  pub size : ℕ
  pub known_filenames : List Text
  pub format_classification : Option String
  pub source_collections : List Text
  pub provenance : List ProvenanceRecord
  pub physical_original_owned : Option Bool
  pub preservation_status : Option String
  pub metadata_urls : List Text
  pub authority : String

pub record ExactMatch : Type 0 where
  pub rab_object_id : String
  pub sha256 : String
  pub size : ℕ
  pub matched_hashes : List String
  pub context : Option RabObjectContext
  pub authority : String

pub record ExactCorrelation : Type 0 where
  pub state : ExactLookupState
  pub matches : List ExactMatch
  pub completeness : CorrelationState

pub record SimilarityCandidate : Type 0 where
  pub algorithm : String
  pub query_fingerprint : Text
  pub candidate_fingerprint : Text
  pub score : ℕ
  pub rab_object_id : String
  pub candidate_sha256 : String
  pub assessment : String
  pub authority : String

pub record SimilarityCorrelation : Type 0 where
  pub algorithm : String
  pub state : CorrelationState
  pub candidates : List SimilarityCandidate

pub record CorrelationResult : Type 0 where
  pub protocol_version : String
  pub provider_id : String
  pub provider_version : String
  pub state : CorrelationState
  pub exact : ExactCorrelation
  pub similarity : SimilarityCorrelation
  pub known_occurrences : List KnownOccurrence
  pub warnings : List String
  pub errors : List CorrelationErrorCode
  pub skipped_reason : Option String
  pub from_cache : Bool
