-- ===== src/Correlation/Provider.antt =====
-- src/avbox/correlation/providers.py: the client of the correlation protocol. The answer of the
-- server, chunk by chunk, and the reading of its JSON are parameters.
pub mod Bounded
pub mod Others
use avbox.Prelude.{
  str_eq, eq_iff, str_append, ℕ, zero, suc, ◌+◌, ◌-◌, ◌*◌, ◌/◌, ◌%◌, ◌^◌, ◌≤◌, ◌<◌, min, max,
  String, ◌≡◌, refl, sym, ap, ◌∙◌, fun_ext, ◌≢◌, ◌↔◌, ◌⊎◌, inl, inr, Bool, true, false, not, ◌&&◌,
  ◌||◌, Option, none, some, List, [], ◌∷◌, ◌++◌, map, arith, ltb, leb, ◌==◌, if◌then◌else◌, ltb→lt,
  ltb→le, leb→le, leb→lt, lt→ltb, le→leb, ==→eq, eq→==, ne→==, tests, Bool-cases, Option-cases,
  and_true, or_false, if_both, length, get_or, take, drop, replicate, All, any, all, select,
  length-append, append-nil, append_assoc, take-append-drop, length-take, length-drop,
  length-replicate, take-all, drop-nil, take-nil, drop-drop, take-append-take, All-append, All-take,
  length-map, is_member, Result, ok, err, raise_if, Result-cases,
}
use avbox.Prelude.Bytes.{Bytes}
use avbox.Models.Records.{InputArtifact}
use avbox.Correlation.Types.{
  Text, CorrelationState, CorrelationErrorCode, rab_unavailable, rab_timeout, rab_auth_failed,
  rab_protocol_error, rab_response_too_large, rab_identity_conflict, ExactLookupState,
  rab_not_there, lookup_error, ProvenanceRecord, KnownOccurrence, RabObjectContext, ExactMatch,
  SimilarityCandidate, CorrelationResult, unavailable, error, not_requested, exact_match,
  no_exact_match, complete, ExactCorrelation, SimilarityCorrelation,
}

-- The limits of `RABCorrelationSettings`.
pub record RabCorrelationSettings : Type 0 where
  pub provider_id : String
  pub provider_version : String
  pub maximum_response_bytes : ℕ
  pub max_exact_records : ℕ
  pub max_occurrences : ℕ
  pub max_similarity_candidates : ℕ
  pub max_provenance_records : ℕ
  pub max_metadata_string_length : ℕ

-- The exceptions that `correlate` tells apart: a timeout, another failure of HTTP or the operating
-- system, and a ValueError, TypeError or ValidationError.
pub data Fault : Type 0 where
  timeout transport invalid : Fault

-- The answer to a request: a failure, or a status and the chunks of the body with what may follow
-- them instead of their end.
pub data Reply : Type 0 where
  no_reply : Fault → Reply
  reply : ℕ → List Bytes → Option Fault → Reply

-- What `correlate` sends; the fingerprint is left out where it is empty.
pub record Request : Type 0 where
  pub sha256 : String
  pub blake3 : String
  pub sha1 : String
  pub md5 : String
  pub size : ℕ
  pub fingerprint : Option String

-- What is outside: the credential file, its mode and its stripped text, the server, and the JSON.
pub record Outside : Type 0 where
  pub credential_mode : Result Fault ℕ
  pub credential_text : Result Fault String
  pub post : String → Request → Reply
  pub parse : Bytes → Result Fault CorrelationResult

-- `_error`
unfoldable pub is_unavailable : CorrelationErrorCode → Bool
is_unavailable rab_unavailable = true
is_unavailable _ = false

unfoldable pub error_result : RabCorrelationSettings → CorrelationErrorCode → CorrelationResult
error_result settings code =
    let state = if is_unavailable code then unavailable else error in
    record {
      protocol_version = "1";
      provider_id = settings.provider_id;
      provider_version = settings.provider_version;
      state = state;
      exact = record {
        state = if is_unavailable code then rab_not_there else lookup_error;
        matches = [];
        completeness = state;
      };
      similarity = record { algorithm = "ssdeep"; state = state; candidates = [] };
      known_occurrences = [];
      warnings = [];
      errors = code ∷ [];
      skipped_reason = none;
      from_cache = false;
    }

-- `_clip`
unfoldable pub clip : RabCorrelationSettings → Text → Text
clip settings value = take settings.max_metadata_string_length value

-- `_clip_optional`
unfoldable pub clip_optional : RabCorrelationSettings → Option Text → Option Text
clip_optional settings none = none
clip_optional settings (some value) = some (clip settings value)

unfoldable pub clip_record : RabCorrelationSettings → ProvenanceRecord → ProvenanceRecord
clip_record settings r = record r {
  source_id = clip_optional settings r.source_id;
  source_label = clip_optional settings r.source_label;
  collection = clip_optional settings r.collection;
  summary = clip_optional settings r.summary;
}

unfoldable pub clip_context : RabCorrelationSettings → RabObjectContext → RabObjectContext
clip_context settings c = record c {
  provenance = map (clip_record settings) (take settings.max_provenance_records c.provenance);
  known_filenames = map (clip settings) c.known_filenames;
  source_collections = map (clip settings) c.source_collections;
  metadata_urls = map (clip settings) c.metadata_urls;
}

-- `if match.context`
unfoldable pub clip_some :
    RabCorrelationSettings → Option RabObjectContext → Option RabObjectContext
clip_some settings none = none
clip_some settings (some c) = some (clip_context settings c)

unfoldable pub clip_match : RabCorrelationSettings → ExactMatch → ExactMatch
clip_match settings m = record m { context = clip_some settings m.context }

unfoldable pub clip_occurrence : RabCorrelationSettings → KnownOccurrence → KnownOccurrence
clip_occurrence settings o = record o {
  logical_path = clip_optional settings o.logical_path;
  parent_label = clip_optional settings o.parent_label;
}

unfoldable pub clip_candidate : RabCorrelationSettings → SimilarityCandidate → SimilarityCandidate
clip_candidate settings c = record c {
  query_fingerprint = clip settings c.query_fingerprint;
  candidate_fingerprint = clip settings c.candidate_fingerprint;
}

-- `match.sha256 != ... or match.size != ...`, negated.
unfoldable pub is_same_object : InputArtifact → ExactMatch → Bool
is_same_object artifact m = str_eq m.sha256 artifact.hashes.sha256 && m.size == artifact.byte_size

-- `_validate_and_bound`
unfoldable pub validate_and_bound :
    RabCorrelationSettings → InputArtifact → CorrelationResult → CorrelationResult
validate_and_bound settings artifact result =
    let matches = take settings.max_exact_records result.exact.matches in
    if all (is_same_object artifact) matches
    then (record result {
      provider_id = settings.provider_id;
      provider_version = settings.provider_version;
      exact = record result.exact { matches = map (clip_match settings) matches };
      known_occurrences =
          map (clip_occurrence settings) (take settings.max_occurrences result.known_occurrences);
      similarity = record result.similarity {
        candidates =
            map (clip_candidate settings)
              (take settings.max_similarity_candidates result.similarity.candidates);
      };
    })
    else error_result settings rab_identity_conflict

-- `except` in `correlate`
unfoldable pub code_of : Fault → CorrelationErrorCode
code_of timeout = rab_timeout
code_of transport = rab_unavailable
code_of invalid = rab_protocol_error

-- `_token`: the mode has no bits for others, and the text is not empty.
unfoldable pub token_of : Outside → Result Fault String
token_of outside = elim outside.credential_mode [
  | err e ↦ err e
  | ok mode ↦ if not (mode % 64 == 0) then err transport else elim outside.credential_text [
    | err e ↦ err e
    | ok token ↦ if str_eq token "" then err transport else ok token
  ]
]

-- The loop over the chunks of a body, after `body`; `none` where it grows too large.
unfoldable pub read_body :
    RabCorrelationSettings → List Bytes → Option Fault → Bytes → Result Fault (Option Bytes)
read_body settings [] none body = ok (some body)
read_body settings [] (some e) body = err e
read_body settings (chunk ∷ chunks) end body =
    let rest = read_body settings chunks end (body ++ chunk) in
    if ltb settings.maximum_response_bytes (length (body ++ chunk)) then ok none else rest

-- The body once it is complete: `json.loads`, `model_validate`, `_validate_and_bound`.
unfoldable pub accept_body :
    RabCorrelationSettings → Outside → InputArtifact → Bytes → CorrelationResult
accept_body settings outside artifact body = elim (outside.parse body) [
  | err e ↦ error_result settings (code_of e)
  | ok result ↦ validate_and_bound settings artifact result
]

unfoldable pub accept_reply :
    RabCorrelationSettings → Outside → InputArtifact → Reply → CorrelationResult
accept_reply settings outside artifact (no_reply e) = error_result settings (code_of e)
accept_reply settings outside artifact (reply status chunks end) =
    if status == 401 || status == 403
    then error_result settings rab_auth_failed
    else if leb 400 status
    then error_result settings rab_protocol_error
    else elim (read_body settings chunks end []) [
      | err e ↦ error_result settings (code_of e)
      | ok none ↦ error_result settings rab_response_too_large
      | ok (some body) ↦ accept_body settings outside artifact body
    ]

unfoldable pub request_of : InputArtifact → Option String → Request
request_of artifact ssdeep = record {
  sha256 = artifact.hashes.sha256;
  blake3 = artifact.hashes.blake3;
  sha1 = artifact.hashes.sha1;
  md5 = artifact.hashes.md5;
  size = artifact.byte_size;
  fingerprint = elim ssdeep [ none ↦ none | some f ↦ if str_eq f "" then none else some f ];
}

-- `HTTPRabCorrelationProvider.correlate`
unfoldable pub correlate :
    RabCorrelationSettings → Outside → InputArtifact → Option String → CorrelationResult
correlate settings outside artifact ssdeep = elim (token_of outside) [
  | err e ↦ error_result settings (code_of e)
  | ok token ↦
      accept_reply settings outside artifact (outside.post token (request_of artifact ssdeep))
]
