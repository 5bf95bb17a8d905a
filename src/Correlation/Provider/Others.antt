-- ===== src/Correlation/Provider/Others.antt =====
-- The rest of src/avbox/correlation/providers.py: what the base class derives from `correlate`, the
-- provider without a service, the provider with fixed answers, and the conditions for the HTTP provider.
use avbox.Prelude.{
  str_eq, eq_iff, ℕ, String, ◌≡◌, ap, inl, inr, Bool, true, false, not, ◌||◌, Option, none, some,
  List, [], ◌∷◌, ◌++◌, if◌then◌else◌, Bool-cases, Result, ok, err,
}
use text.Mathlib.Text.{starts_with as has_prefix}
use avbox.Models.Records.{Hashes, InputArtifact}
use avbox.Effects.{Raised}
use avbox.Correlation.Types.{
  rab_unavailable, rab_not_there, KnownOccurrence, ExactMatch, SimilarityCandidate,
  CorrelationResult, unavailable, not_requested, exact_match, no_exact_match, complete,
  ExactLookupState,
}

-- `correlate` of a provider.
abbrev pub Correlate : Type 0
Correlate = InputArtifact → Option String → CorrelationResult

unfoldable pub exact_lookup : Correlate → InputArtifact → CorrelationResult
exact_lookup correlate artifact = correlate artifact none

unfoldable pub similarity_candidates : Correlate → InputArtifact → String → List SimilarityCandidate
similarity_candidates correlate artifact fingerprint =
    (correlate artifact (some fingerprint)).similarity.candidates

unfoldable pub relationships_of : Correlate → InputArtifact → List KnownOccurrence
unfolding exact_lookup
relationships_of correlate artifact = (exact_lookup correlate artifact).known_occurrences

unfoldable pub object_context : Correlate → InputArtifact → List ExactMatch
unfolding exact_lookup
object_context correlate artifact = (exact_lookup correlate artifact).exact.matches

-- `UnavailableRabCorrelationProvider.correlate`
unfoldable pub correlate_unavailable : Correlate
correlate_unavailable artifact ssdeep = record {
  protocol_version = "1";
  provider_id = "production-rab";
  provider_version = "1";
  state = unavailable;
  exact = record { state = rab_not_there; matches = []; completeness = unavailable };
  similarity = record { algorithm = "ssdeep"; state = unavailable; candidates = [] };
  known_occurrences = [];
  warnings = [];
  errors = rab_unavailable ∷ [];
  skipped_reason = none;
  from_cache = false;
}

-- `ReferenceRabCorrelationProvider`: its answers, and the requests so far.
pub record ReferenceRequest : Type 0 where
  pub hashes : Hashes
  pub size : ℕ
  pub ssdeep : Option String

pub record ReferenceProvider : Type 0 where
  pub objects : String → Option ExactMatch
  pub occurrences : String → List KnownOccurrence
  pub similarities : String → List SimilarityCandidate
  pub requests : List ReferenceRequest

abbrev pub has_fingerprint : Option String → Bool
has_fingerprint none = false
has_fingerprint (some f) = not (str_eq f "")

abbrev pub fingerprint_or : Option String → String
fingerprint_or none = ""
fingerprint_or (some f) = f

unfoldable pub lookup_state : Option ExactMatch → ExactLookupState
lookup_state none = no_exact_match
lookup_state (some m) = exact_match

unfoldable pub match_list : Option ExactMatch → List ExactMatch
match_list none = []
match_list (some m) = m ∷ []

unfoldable pub correlate_reference :
    InputArtifact → Option String → ReferenceProvider → CorrelationResult × ReferenceProvider
unfolding lookup_state match_list
correlate_reference artifact ssdeep provider =
    let found = provider.objects artifact.hashes.sha256 in
    (
      record {
        protocol_version = "1";
        provider_id = "avbox-m18-reference-provider";
        provider_version = "1";
        state = complete;
        exact = record {
          state = lookup_state found;
          matches = match_list found;
          completeness = complete;
        };
        similarity = record {
          algorithm = "ssdeep";
          state = if has_fingerprint ssdeep then complete else not_requested;
          candidates = provider.similarities (fingerprint_or ssdeep);
        };
        known_occurrences = provider.occurrences artifact.hashes.sha256;
        warnings = [];
        errors = [];
        skipped_reason = none;
        from_cache = false;
      },
      record provider {
        requests =
            provider.requests
            ++ (record { hashes = artifact.hashes; size = artifact.byte_size; ssdeep = ssdeep }
                ∷ []);
      },
    )

-- The settings that decide whether there is an HTTP provider.
pub record Connection : Type 0 where
  pub enabled : Bool
  pub endpoint : Option String
  pub credential_file : Option String

unfoldable pub is_trusted : Option String → Bool
is_trusted none = false
is_trusted (some url) = has_prefix url "https://" || has_prefix url "http://127.0.0.1"

abbrev pub is_given : Option String → Bool
is_given none = false
is_given (some _) = true

abbrev pub refusal : String → Raised
refusal text = record { kind = "ValueError"; text = text }

-- `RABCorrelationSettings.require_trusted_endpoint` of src/avbox/config/settings.py
unfoldable pub require_trusted_endpoint : Connection → Result Raised Connection
require_trusted_endpoint c =
    if not c.enabled
    then ok c
    else if not (is_trusted c.endpoint)
    then err (refusal "enabled RAB correlation requires configured HTTPS endpoint")
    else if not (is_given c.credential_file)
    then err (refusal "enabled RAB correlation requires credential_file")
    else ok c

-- The test of `HTTPRabCorrelationProvider.__init__`, on settings whose paths are not empty.
unfoldable pub open_provider : Connection → Result Raised Connection
open_provider c =
    if not c.enabled || (not (has_fingerprint c.endpoint) || not (is_given c.credential_file))
    then err (refusal "production RAB correlation is not configured")
    else ok c

trusted-given : (url : Option String) → is_trusted url ≡ true → has_fingerprint url ≡ true
unfolding is_trusted
trusted-given none h = absurd cc
trusted-given (some url) h = elim (Bool-cases (str_eq url "")) [
  | inl blank ↦
      let same : url ≡ "" = (eq_iff url "").0 blank in
      let bad : is_trusted (some "") ≡ true = rw same at h in absurd cc
  | inr other ↦ ap not other
]

-- Enabled settings that were accepted open the provider.
pub open_provider-require_trusted_endpoint :
    (endpoint credential_file : Option String)
    → let c : Connection = record {
      enabled = true;
      endpoint = endpoint;
      credential_file = credential_file;
    } in
      require_trusted_endpoint c ≡ ok c → open_provider c ≡ ok c
unfolding require_trusted_endpoint open_provider
open_provider-require_trusted_endpoint endpoint credential_file accepted =
    elim (Bool-cases (is_trusted endpoint)) [
      | inr strange ↦
          let no : err (refusal "enabled RAB correlation requires configured HTTPS endpoint")
              ≡ ok _ =
            rw strange at accepted in
          absurd cc
      | inl trusted ↦ elim (Bool-cases (is_given credential_file)) [
        | inr absent ↦
            let no : err (refusal "enabled RAB correlation requires credential_file") ≡ ok _ =
              rw (trusted, absent) at accepted in
            absurd cc
        | inl given ↦ rw (trusted-given endpoint trusted, given)
      ]
    ]
