-- ===== src/Tests/Correlation.antt =====
-- Correlations with a small service.
use avbox.Prelude.{◌+◌, ◌≡◌, refl, false, none, some, List, [], ◌∷◌, length, all, ok}
use avbox.Prelude.Bytes.{Bytes}
use avbox.Models.Records.{InputArtifact, ScanJob}
use avbox.Models.Job.{running}
use avbox.Correlation.Types.{
  ExactMatch, CorrelationResult, complete, exact_match, rab_identity_conflict,
  rab_response_too_large, rab_unavailable,
}
use avbox.Correlation.Provider.{
  RabCorrelationSettings, reply, Outside, correlate, error_result, is_same_object,
  validate_and_bound, code_of, token_of, read_body, accept_body, accept_reply,
}
use avbox.Correlation.Provider.Bounded.{IsBounded, correlate-IsBounded}
use avbox.Correlation.Service.{
  CorrelationService, derived_of, objects_of, query, process_object, process_from, process,
}
use avbox.Correlation.Service.Budget.{IsFrugal, process-IsFrugal}
use avbox.Correlation.Service.Answers.{Answers}
use avbox.Tests.Jobs.{job_of}

abbrev settings : RabCorrelationSettings
settings = record {
  provider_id = "rab";
  provider_version = "1";
  maximum_response_bytes = 4;
  max_exact_records = 1;
  max_occurrences = 1;
  max_similarity_candidates = 1;
  max_provenance_records = 1;
  max_metadata_string_length = 2;
}

abbrev job : ScanJob
job = job_of 1 "local-cli" running

abbrev asked_for : InputArtifact
asked_for = job.input_artifact

abbrev same_object : ExactMatch
same_object = record {
  rab_object_id = "42";
  sha256 = asked_for.hashes.sha256;
  size = asked_for.byte_size;
  matched_hashes = "sha256" ∷ [];
  context = none;
  authority = "RAB";
}

-- The server sends the matches twice, under another name.
abbrev answer_with : ExactMatch → CorrelationResult
answer_with m = record {
  protocol_version = "1";
  provider_id = "someone else";
  provider_version = "9";
  state = complete;
  exact = record { state = exact_match; matches = m ∷ (m ∷ []); completeness = complete };
  similarity = record { algorithm = "ssdeep"; state = complete; candidates = [] };
  known_occurrences =
      record {
        parent_rab_object_id = "7";
        relationship = "contains";
        logical_path = some (97 ∷ 98 ∷ 99 ∷ []);
        parent_label = none;
        authority = "RAB";
      }
      ∷ [];
  warnings = [];
  errors = [];
  skipped_reason = none;
  from_cache = false;
}

abbrev outside_with : ExactMatch → List Bytes → Outside
outside_with m chunks = record {
  credential_mode = ok 384;
  credential_text = ok "token";
  post = λ _ _. reply 200 chunks none;
  parse = λ _. ok (answer_with m);
}

correlate-IsBounded_example :
    IsBounded settings asked_for
      (correlate settings (outside_with same_object ((1 ∷ []) ∷ [])) asked_for none)
correlate-IsBounded_example =
    correlate-IsBounded settings (outside_with same_object ((1 ∷ []) ∷ [])) asked_for none

another_object :
    correlate settings
      (outside_with (record same_object { size = asked_for.byte_size + 1 }) [])
      asked_for
      none
    ≡ error_result settings rab_identity_conflict
unfolding correlate token_of accept_reply read_body accept_body validate_and_bound is_same_object
    all
another_object = refl

too_large :
    correlate settings
      (outside_with same_object ((1 ∷ 2 ∷ 3 ∷ []) ∷ ((4 ∷ 5 ∷ []) ∷ [])))
      asked_for
      none
    ≡ error_result settings rab_response_too_large
unfolding correlate token_of accept_reply read_body
too_large = refl

readable_by_others :
    correlate settings
      (record (outside_with same_object []) { credential_mode = ok 420 })
      asked_for
      none
    ≡ error_result settings rab_unavailable
unfolding correlate token_of code_of
readable_by_others = refl

one_match :
    length (correlate settings (outside_with same_object []) asked_for none).exact.matches ≡ 1
unfolding correlate token_of accept_reply read_body accept_body validate_and_bound is_same_object
    all
one_match = refl

abbrev service : CorrelationService
service = record {
  provider_id = "rab";
  provider_version = "1";
  correlate = correlate settings (outside_with same_object []);
  max_objects = 1;
  max_similarity_queries = 0;
  is_over = λ _. false;
}

process-IsFrugal_example :
    IsFrugal service (length (objects_of job)) (process service job)
    × Answers service 0 0 0
        (objects_of job)
        (process service job).contexts
        (process service job).calls
process-IsFrugal_example = process-IsFrugal service job

one_call : length (process service job).calls ≡ 1
unfolding process process_from process_object query objects_of derived_of
one_call = refl
