-- ===== src/Correlation/Service.antt =====
-- src/avbox/correlation/service.py: CorrelationService. The clock says at each reading whether the
-- deadline has passed.
pub mod Answers
pub mod Budget
use avbox.Prelude.{
  str_eq, eq_iff, str_append, ℕ, zero, suc, ◌+◌, ◌-◌, ◌*◌, ◌/◌, ◌%◌, ◌^◌, ◌≤◌, ◌<◌, min, max,
  String, ◌≡◌, refl, sym, ap, ◌∙◌, fun_ext, ◌≢◌, ◌↔◌, ◌⊎◌, inl, inr, Bool, true, false, not, ◌&&◌,
  ◌||◌, Option, none, some, List, [], ◌∷◌, ◌++◌, map, arith, ltb, leb, ◌==◌, if◌then◌else◌, ltb→lt,
  ltb→le, leb→le, leb→lt, lt→ltb, le→leb, ==→eq, eq→==, ne→==, tests, Bool-cases, Option-cases,
  and_true, or_false, if_both, length, get_or, take, drop, replicate, All, any, all, select,
  length-append, append-nil, append_assoc, take-append-drop, length-take, length-drop,
  length-replicate, take-all, drop-nil, take-nil, drop-drop, take-append-take, All-append, All-take,
  length-map, is_member, Result, ok, err, raise_if, Result-cases,
}
use avbox.Models.Records.{
  Hashes, InputArtifact, ObjectIdentity, AnalyzerResult, DerivedObject, ScanJob,
}
use avbox.Correlation.Types.{
  CorrelationState, CorrelationResult, unavailable, partial, not_requested, lookup_error,
  ExactCorrelation, SimilarityCorrelation,
}

-- The service: its provider, its limits, and the readings of the clock after the first.
pub record CorrelationService : Type 0 where
  pub provider_id : String
  pub provider_version : String
  pub correlate : InputArtifact → Option String → CorrelationResult
  pub max_objects : ℕ
  pub max_similarity_queries : ℕ
  pub is_over : ℕ → Bool

-- The fields of PreservationContext that `process` sets.
pub record Context : Type 0 where
  pub is_available : Bool
  pub correlation : CorrelationResult

-- A call of the provider.
pub record Call : Type 0 where
  pub artifact : InputArtifact
  pub fingerprint : Option String

-- What the loop has done: the readings of the clock, the queries for similar objects, the calls and
-- the contexts, in order.
pub record Progress : Type 0 where
  pub readings : ℕ
  pub similarity_used : ℕ
  pub calls : List Call
  pub contexts : List Context

-- `if fingerprint`
unfoldable pub is_truthy : Option String → Bool
is_truthy none = false
is_truthy (some f) = not (str_eq f "")

-- `_skipped`
unfoldable pub skipped : CorrelationService → String → CorrelationResult
skipped service reason = record {
  protocol_version = "1";
  provider_id = service.provider_id;
  provider_version = service.provider_version;
  state = partial;
  exact = record { state = lookup_error; matches = []; completeness = partial };
  similarity = record { algorithm = "ssdeep"; state = not_requested; candidates = [] };
  known_occurrences = [];
  warnings = [];
  errors = [];
  skipped_reason = some reason;
  from_cache = false;
}

-- `_ssdeep`: the first fingerprint among the observations of the analyzers.
unfoldable pub ssdeep_of : List AnalyzerResult → Option String
ssdeep_of [] = none
ssdeep_of (a ∷ rest) = elim a.ssdeep [ some f ↦ some f | none ↦ ssdeep_of rest ]

unfoldable pub value_or : Option String → String → String
value_or none default = default
value_or (some v) default = if str_eq v "" then default else v

-- `_artifact` of a derived object: none where a hash is missing or empty.
unfoldable pub artifact_of : ObjectIdentity → Option InputArtifact
artifact_of o =
    if not (is_truthy o.blake3) || (not (is_truthy o.sha1) || not (is_truthy o.md5))
    then none
    else some (record {
      hashes = record {
        sha256 = o.sha256;
        blake3 = value_or o.blake3 "";
        sha1 = value_or o.sha1 "";
        md5 = value_or o.md5 "";
      };
      byte_size = o.size;
      filename = value_or o.filename "derived-object";
      submitted_filename = none;
      media_type = value_or o.media_type "application/octet-stream";
      source = "avbox-derived-object";
    })

-- The objects of a job, with their fingerprints.
unfoldable pub derived_of : List DerivedObject → List (InputArtifact × Option String)
derived_of [] = []
derived_of (child ∷ children) = elim (artifact_of child.object) [
  | none ↦ derived_of children
  | some a ↦ (a, ssdeep_of child.analyzer_results) ∷ derived_of children
]

unfoldable pub objects_of : ScanJob → List (InputArtifact × Option String)
objects_of job =
    (job.input_artifact, ssdeep_of job.analyzer_results) ∷ derived_of job.derived_objects

unfoldable pub is_reached : CorrelationResult → Bool
is_reached result = elim result.state [ unavailable ↦ false | _ ↦ true ]

abbrev pub skip_object : CorrelationService → String → Progress → Progress
skip_object service reason p = record p {
  contexts =
      p.contexts ++ (record { is_available = true; correlation = skipped service reason } ∷ []);
}

-- The fingerprint that is left where the queries are used up.
unfoldable pub granted : CorrelationService → Option String → Progress → Option String
granted service fingerprint p =
    if is_truthy fingerprint && leb service.max_similarity_queries p.similarity_used
    then none
    else fingerprint

unfoldable pub query : CorrelationService → InputArtifact → Option String → Progress → Progress
query service artifact fingerprint p =
    let result = service.correlate artifact fingerprint in
    record p {
      similarity_used = if is_truthy fingerprint then p.similarity_used + 1 else p.similarity_used;
      calls = p.calls ++ (record { artifact = artifact; fingerprint = fingerprint } ∷ []);
      contexts =
          p.contexts ++ (record { is_available = is_reached result; correlation = result } ∷ []);
    }

-- The body of the loop, for the object with number `index`.
unfoldable pub process_object :
    CorrelationService → ℕ → InputArtifact → Option String → Progress → Progress
process_object service index artifact fingerprint p =
    if leb service.max_objects index
    then skip_object service "max_correlated_objects_per_job exhausted" p
    else let timed = record p { readings = p.readings + 1 } in
      if service.is_over p.readings
      then skip_object service "total_correlation_deadline exhausted" timed
      else query service artifact (granted service fingerprint timed) timed

unfoldable pub process_from :
    CorrelationService → ℕ → List (InputArtifact × Option String) → Progress → Progress
process_from service index [] p = p
process_from service index ((artifact, fingerprint) ∷ objects) p =
    process_from service (index + 1) objects (process_object service index artifact fingerprint p)

-- `process`: the calls, and a context for each object.
unfoldable pub process : CorrelationService → ScanJob → Progress
process service job =
    process_from service 0 (objects_of job)
      (record { readings = 0; similarity_used = 0; calls = []; contexts = [] })
