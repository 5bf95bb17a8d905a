-- ===== src/Correlation/Provider/Bounded.antt =====
-- What a preservation service can put into a result.
use avbox.Prelude.{
  str_eq, eq_iff, ℕ, ◌≤◌, String, ◌≡◌, refl, inl, inr, true, ◌||◌, Option, none, some, List, [],
  map, arith, leb, ◌==◌, ==→eq, Bool-cases, and_true, if_both, length, take, All, all, length-take,
  length-map, ok, err,
}
use avbox.Prelude.{All-mono, All-map-from, All-every, all-All}
use avbox.Prelude.Bytes.{Bytes}
use avbox.Models.Records.{InputArtifact}
use avbox.Correlation.Types.{
  Text, CorrelationErrorCode, rab_auth_failed, rab_protocol_error, rab_response_too_large,
  rab_identity_conflict, ProvenanceRecord, KnownOccurrence, RabObjectContext, ExactMatch,
  SimilarityCandidate, CorrelationResult,
}
use avbox.Correlation.Provider.{
  RabCorrelationSettings, Reply, no_reply, reply, Outside, error_result, clip, clip_optional,
  clip_record, clip_context, clip_some, clip_match, clip_occurrence, clip_candidate, is_same_object,
  validate_and_bound, code_of, token_of, read_body, accept_body, accept_reply, request_of,
  correlate,
}

module _ (settings : RabCorrelationSettings) where
  -- A text that is not too long.
  abbrev pub IsShort : Text → Type 0
  IsShort t = length t ≤ settings.max_metadata_string_length

  abbrev pub IsShortOption : Option Text → Type 0
  IsShortOption none = Unit
  IsShortOption (some t) = IsShort t

  pub record IsClippedRecord (r : ProvenanceRecord) : Type 0 where
    pub source_id : IsShortOption r.source_id
    pub source_label : IsShortOption r.source_label
    pub collection : IsShortOption r.collection
    pub summary : IsShortOption r.summary

  pub record IsClippedContext (c : RabObjectContext) : Type 0 where
    pub few : length c.provenance ≤ settings.max_provenance_records
    pub provenance : All IsClippedRecord c.provenance
    pub known_filenames : All IsShort c.known_filenames
    pub source_collections : All IsShort c.source_collections
    pub metadata_urls : All IsShort c.metadata_urls

  abbrev pub HasClippedContext : Option RabObjectContext → Type 0
  HasClippedContext none = Unit
  HasClippedContext (some c) = IsClippedContext c

  -- A result under the name of the provider, within the limits on numbers and on the texts that are
  -- cut, whose exact matches are all of the object that was asked for.
  pub record IsBounded (artifact : InputArtifact) (r : CorrelationResult) : Type 0 where
    pub provider : r.provider_id ≡ settings.provider_id
    pub version : r.provider_version ≡ settings.provider_version
    pub few_matches : length r.exact.matches ≤ settings.max_exact_records
    pub same_object :
        All
          (λ (m : ExactMatch). (m.sha256 ≡ artifact.hashes.sha256) × (m.size ≡ artifact.byte_size))
          r.exact.matches
    pub contexts : All (λ (m : ExactMatch). HasClippedContext m.context) r.exact.matches
    pub few_occurrences : length r.known_occurrences ≤ settings.max_occurrences
    pub occurrences :
        All
          (λ (o : KnownOccurrence). IsShortOption o.logical_path × IsShortOption o.parent_label)
          r.known_occurrences
    pub few_candidates : length r.similarity.candidates ≤ settings.max_similarity_candidates
    pub fingerprints :
        All
          (λ (c : SimilarityCandidate).
            IsShort c.query_fingerprint × IsShort c.candidate_fingerprint)
          r.similarity.candidates

  clip-IsShort : (t : Text) → IsShort (clip settings t)
  unfolding clip
  clip-IsShort t = omega (arith, length-take settings.max_metadata_string_length t)

  clip_optional-IsShort : (t : Option Text) → IsShortOption (clip_optional settings t)
  unfolding clip_optional
  clip_optional-IsShort none = tt
  clip_optional-IsShort (some t) = clip-IsShort t

  few : {A B : Type 0} (f : A → B) (n : ℕ) (xs : List A) → length (map f (take n xs)) ≤ n
  few f n xs = omega (arith, length-map f (take n xs), length-take n xs)

  clip_record-IsClipped : (r : ProvenanceRecord) → IsClippedRecord (clip_record settings r)
  unfolding clip_record
  clip_record-IsClipped r = record {
    source_id = clip_optional-IsShort r.source_id;
    source_label = clip_optional-IsShort r.source_label;
    collection = clip_optional-IsShort r.collection;
    summary = clip_optional-IsShort r.summary;
  }

  every :
      {A B : Type 0} (P : B → Type 0) (f : A → B) (h : (x : A) → P (f x)) (xs : List A)
      → All P (map f xs)
  every P f h xs = All-map-from P f xs (All-every _ h xs)

  clip_context-IsClipped : (c : RabObjectContext) → IsClippedContext (clip_context settings c)
  unfolding clip_context
  clip_context-IsClipped c = record {
    few = few (clip_record settings) settings.max_provenance_records c.provenance;
    provenance = every _ _ clip_record-IsClipped _;
    known_filenames = every _ _ clip-IsShort c.known_filenames;
    source_collections = every _ _ clip-IsShort c.source_collections;
    metadata_urls = every _ _ clip-IsShort c.metadata_urls;
  }

  clip_some-HasClipped : (c : Option RabObjectContext) → HasClippedContext (clip_some settings c)
  unfolding clip_some
  clip_some-HasClipped none = tt
  clip_some-HasClipped (some c) = clip_context-IsClipped c

  clip_match-IsClipped : (m : ExactMatch) → HasClippedContext (clip_match settings m).context
  unfolding clip_match
  clip_match-IsClipped m = clip_some-HasClipped m.context

  same_object-ok :
      (artifact : InputArtifact) (m : ExactMatch)
      → is_same_object artifact m ≡ true
      → ((clip_match settings m).sha256 ≡ artifact.hashes.sha256)
        × ((clip_match settings m).size ≡ artifact.byte_size)
  unfolding is_same_object clip_match
  same_object-ok artifact m h =
      let (sha, size) = and_true (str_eq m.sha256 artifact.hashes.sha256) _ h in
      ((eq_iff _ _).0 sha, ==→eq _ _ size)

  error_result-IsBounded :
      (artifact : InputArtifact) (code : CorrelationErrorCode)
      → IsBounded artifact (error_result settings code)
  unfolding error_result
  error_result-IsBounded artifact code = record {
    provider = refl;
    version = refl;
    few_matches = omega arith;
    same_object = tt;
    contexts = tt;
    few_occurrences = omega arith;
    occurrences = tt;
    few_candidates = omega arith;
    fingerprints = tt;
  }

  validate_and_bound-IsBounded :
      (artifact : InputArtifact) (r : CorrelationResult)
      → IsBounded artifact (validate_and_bound settings artifact r)
  unfolding validate_and_bound clip_occurrence clip_candidate
  validate_and_bound-IsBounded artifact r =
      let matches = take settings.max_exact_records r.exact.matches in
      elim (Bool-cases (all (is_same_object artifact) matches)) [
        | inl same ↦ rw same (record {
          provider = refl;
          version = refl;
          few_matches = few (clip_match settings) settings.max_exact_records r.exact.matches;
          same_object = All-map-from _ (clip_match settings) matches (
              All-mono (same_object-ok artifact) matches
                (all-All (is_same_object artifact) matches same));
          contexts = every _ _ clip_match-IsClipped matches;
          few_occurrences =
              few (clip_occurrence settings) settings.max_occurrences r.known_occurrences;
          occurrences =
              every _ _
                (λ o. (clip_optional-IsShort o.logical_path, clip_optional-IsShort o.parent_label))
                _;
          few_candidates =
              few (clip_candidate settings) settings.max_similarity_candidates
                r.similarity.candidates;
          fingerprints =
              every _ _
                (λ c. (clip-IsShort c.query_fingerprint, clip-IsShort c.candidate_fingerprint)) _;
        })
        | inr other ↦ rw other (error_result-IsBounded artifact rab_identity_conflict)
      ]

  accept_body-IsBounded :
      (outside : Outside) (artifact : InputArtifact) (body : Bytes)
      → IsBounded artifact (accept_body settings outside artifact body)
  unfolding accept_body
  accept_body-IsBounded outside artifact body =
      elim (outside.parse body)
        as (λ x. IsBounded artifact (elim x [
          | err e ↦ error_result settings (code_of e)
          | ok result ↦ validate_and_bound settings artifact result
        ])) [
          | err e ↦ error_result-IsBounded artifact (code_of e)
          | ok result ↦ validate_and_bound-IsBounded artifact result
        ]

  accept_reply-IsBounded :
      (outside : Outside) (artifact : InputArtifact) (r : Reply)
      → IsBounded artifact (accept_reply settings outside artifact r)
  unfolding accept_reply
  accept_reply-IsBounded outside artifact (no_reply e) = error_result-IsBounded artifact (code_of e)
  accept_reply-IsBounded outside artifact (reply status chunks end) =
      if_both (IsBounded artifact) (status == 401 || status == 403)
        (error_result-IsBounded artifact rab_auth_failed)
        (if_both (IsBounded artifact) (leb 400 status)
          (error_result-IsBounded artifact rab_protocol_error)
          (elim (read_body settings chunks end [])
            as (λ x. IsBounded artifact (elim x [
              | err e ↦ error_result settings (code_of e)
              | ok none ↦ error_result settings rab_response_too_large
              | ok (some body) ↦ accept_body settings outside artifact body
            ])) [
              | err e ↦ error_result-IsBounded artifact (code_of e)
              | ok none ↦ error_result-IsBounded artifact rab_response_too_large
              | ok (some body) ↦ accept_body-IsBounded outside artifact body
            ]))

  -- Whatever the server answers, what `correlate` returns is under the configured name of the provider
  -- and within the limits on the numbers of exact matches, occurrences, candidates and provenance
  -- records, and each exact match in it has the SHA-256 and the size of the object that was asked for.
  -- At most as long as a text may be are the identifier, label, collection and summary of each
  -- provenance record, each known filename, source collection and URL of a match, the path and the
  -- parent's label of each occurrence, and the two fingerprints of each candidate. Nothing is said of
  -- the other texts, which the code passes on as they came.
  pub correlate-IsBounded :
      (outside : Outside) (artifact : InputArtifact) (ssdeep : Option String)
      → IsBounded artifact (correlate settings outside artifact ssdeep)
  unfolding correlate
  correlate-IsBounded outside artifact ssdeep =
      elim (token_of outside)
        as (λ x. IsBounded artifact (elim x [
          | err e ↦ error_result settings (code_of e)
          | ok token ↦
              accept_reply settings outside artifact
                (outside.post token (request_of artifact ssdeep))
        ])) [
          | err e ↦ error_result-IsBounded artifact (code_of e)
          | ok token ↦ accept_reply-IsBounded outside artifact _
        ]
