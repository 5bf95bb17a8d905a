-- ===== src/Correlation/Service/Budget.antt =====
-- How much the correlation of a job asks of the provider.
use avbox.Prelude.{
  ℕ, suc, ◌+◌, ◌≤◌, ◌<◌, String, ◌≡◌, refl, sym, ap, ◌∙◌, inl, inr, true, ◌&&◌, Option, none, List,
  [], ◌∷◌, ◌++◌, arith, leb, if◌then◌else◌, leb→lt, Bool-cases, if_by, length, length-append,
  append-nil, append_assoc,
}
use avbox.Prelude.{false, leb→le}
use avbox.Correlation.Service.Answers.{Answers, no_objects, beyond, late, plain, similar, exhausted}
use avbox.Models.Records.{InputArtifact, ScanJob}
use avbox.Correlation.Service.{
  CorrelationService, Context, Call, Progress, is_truthy, skipped, skip_object, objects_of, granted,
  query, process_object, process_from, process,
}

-- The calls with a fingerprint.
unfoldable pub queries : List Call → ℕ
queries [] = 0
queries (c ∷ cs) = let rest = queries cs in if is_truthy c.fingerprint then suc rest else rest

queries-append : (xs ys : List Call) → queries (xs ++ ys) ≡ queries xs + queries ys
unfolding queries
queries-append [] ys = omega arith
queries-append (x ∷ xs) ys = elim (Bool-cases (is_truthy x.fingerprint)) [
  | inl has ↦ rw (has, queries-append xs ys) (omega arith)
  | inr without ↦ rw (without, queries-append xs ys)
]

module _ (service : CorrelationService) where
  pub record IsFrugal (index : ℕ) (p : Progress) : Type 0 where
    pub counted : queries p.calls ≡ p.similarity_used
    pub few_queries : p.similarity_used ≤ service.max_similarity_queries
    pub few_calls : length p.calls ≤ service.max_objects
    pub one_each : length p.calls ≤ index

  -- A query for similar objects is granted only below the limit.
  granted-room :
      (f : Option String) (p : Progress)
      → is_truthy (granted service f p) ≡ true
      → p.similarity_used < service.max_similarity_queries
  unfolding granted is_truthy
  granted-room f p =
      if_by (λ g. is_truthy g ≡ true → p.similarity_used < service.max_similarity_queries)
        (is_truthy f && leb service.max_similarity_queries p.similarity_used) (λ full e. absurd cc)
        (λ spare e. leb→lt _ _ (rw e at spare))

  -- What one object adds to the contexts and to the calls.
  abbrev Step : ℕ → (InputArtifact × Option String) → Progress → Progress → Type 0
  Step index object p p' =
      IsFrugal (suc index) p'
      × ((c : Context) × (made : List Call) × (p'.contexts ≡ p.contexts ++ (c ∷ []))
          × (p'.calls ≡ p.calls ++ made)
          × ((os : List (InputArtifact × Option String)) (cs : List Context) (ks : List Call)
              → Answers service (index + 1) p'.readings p'.similarity_used os cs ks
              → Answers service index p.readings p.similarity_used (object ∷ os) (c ∷ cs)
                  (made ++ ks)))

  skip-IsFrugal :
      (index : ℕ) (reason : String) (p : Progress)
      → IsFrugal index p
      → IsFrugal (suc index) (skip_object service reason p)
  skip-IsFrugal index reason p h = record {
    counted = h.counted;
    few_queries = h.few_queries;
    few_calls = h.few_calls;
    one_each = omega (arith, h.one_each);
  }

  no_fingerprint : is_truthy none ≡ false
  unfolding is_truthy
  no_fingerprint = refl

  query-IsFrugal :
      (index : ℕ) (artifact : InputArtifact) (f : Option String) (p : Progress)
      → index < service.max_objects
      → IsFrugal index p
      → IsFrugal (suc index) (query service artifact (granted service f p) p)
  unfolding query queries
  query-IsFrugal index artifact f p low h =
      let g = granted service f p in
      let grown = length-append p.calls (record { artifact = artifact; fingerprint = g } ∷ []) in
      let more = queries-append p.calls (record { artifact = artifact; fingerprint = g } ∷ []) in
      record {
        counted = elim (Bool-cases (is_truthy g)) [
          | inl has ↦ rw (more, has) (omega (arith, h.counted))
          | inr without ↦ rw (more, without) (omega (arith, h.counted))
        ];
        few_queries =
            if_by (λ n. n ≤ service.max_similarity_queries) (is_truthy g)
              (λ has. let room = granted-room f p has in omega (arith, room)) (λ _. h.few_queries);
        few_calls = omega (arith, grown, h.one_each, low);
        one_each = omega (arith, grown, h.one_each);
      }

  query-Step :
      (index : ℕ) (artifact : InputArtifact) (f : Option String) (p : Progress)
      → index < service.max_objects
      → service.is_over p.readings ≡ false
      → IsFrugal (suc index) (
          query service artifact
            (granted service f (record p { readings = p.readings + 1 }))
            (record p { readings = p.readings + 1 }))
      → Step index
          (artifact, f)
          p
          (query service artifact
            (granted service f (record p { readings = p.readings + 1 }))
            (record p { readings = p.readings + 1 }))
  unfolding query granted
  query-Step index artifact f p low early frugal = elim (Bool-cases (is_truthy f)) [
    | inr absent ↦ (
      frugal,
      (_, _, refl, refl, rw (absent, absent) (λ os cs ks. plain low early absent (refl, refl))),
    )
    | inl has ↦ elim (Bool-cases (leb service.max_similarity_queries p.similarity_used)) [
      | inl full ↦ (
        frugal,
        (
          _,
          _,
          refl,
          refl,
          rw (has, full, no_fingerprint)
              (λ os cs ks. exhausted low early has (leb→le _ _ full) (refl, refl)),
        ),
      )
      | inr spare ↦ (
        frugal,
        (
          _,
          _,
          refl,
          refl,
          rw (has, spare, has) (λ os cs ks. similar low early has (leb→lt _ _ spare) (refl, refl)),
        ),
      )
    ]
  ]

  process_object-Step :
      (index : ℕ) (artifact : InputArtifact) (f : Option String) (p : Progress)
      → IsFrugal index p
      → Step index (artifact, f) p (process_object service index artifact f p)
  unfolding process_object skipped
  process_object-Step index artifact f p h =
      let timed : IsFrugal index (record p { readings = p.readings + 1 }) = record {
        counted = h.counted;
        few_queries = h.few_queries;
        few_calls = h.few_calls;
        one_each = h.one_each;
      } in
      if_by (Step index (artifact, f) p) (leb service.max_objects index)
        (λ over.
          let step : Step index (artifact, f) p
              (skip_object service "max_correlated_objects_per_job exhausted" p) =
            (
              skip-IsFrugal index _ p h,
              (
                _,
                [],
                refl,
                sym (append-nil p.calls),
                λ os cs ks.
                    beyond (leb→le _ _ over)
                      (record { reason = refl; state = refl; matches = refl; candidates = refl }),
              ),
            ) in
          step)
        (λ low.
          if_by (Step index (artifact, f) p) (service.is_over p.readings)
            (λ over.
              let step : Step index (artifact, f) p
                  (skip_object service "total_correlation_deadline exhausted"
                    (record p { readings = p.readings + 1 })) =
                (
                  skip-IsFrugal index _ _ timed,
                  (
                    _,
                    [],
                    refl,
                    sym (append-nil p.calls),
                    λ os cs ks.
                        late (leb→lt _ _ low) over (record {
                          reason = refl;
                          state = refl;
                          matches = refl;
                          candidates = refl;
                        }),
                  ),
                ) in
              step)
            (λ early. query-Step index artifact f p (leb→lt _ _ low) early (
              query-IsFrugal index artifact f (record p { readings = p.readings + 1 })
                (leb→lt _ _ low) timed)))

  process_from-Frugal :
      (index : ℕ) (objects : List (InputArtifact × Option String)) (p : Progress)
      → IsFrugal index p
      → IsFrugal (index + length objects) (process_from service index objects p)
        × ((cs : List Context) × (ks : List Call) × ((process_from service index objects p).contexts
              ≡ p.contexts ++ cs)
            × ((process_from service index objects p).calls ≡ p.calls ++ ks)
            × Answers service index p.readings p.similarity_used objects cs ks)
  unfolding process_from
  process_from-Frugal index [] p h = (
    let e : index + length {A = InputArtifact × Option String} [] ≡ index = omega arith in rw e h,
    ([], [], sym (append-nil p.contexts), sym (append-nil p.calls), no_objects),
  )
  process_from-Frugal index ((artifact, f) ∷ objects) p h =
      let next = process_object service index artifact f p in
      let (step, (c, made, content, called, fits)) = process_object-Step index artifact f p h in
      let more : IsFrugal (index + 1) next =
        let e : index + 1 ≡ suc index = omega arith in rw e step in
      let (frugal, (cs, ks, rest, calls, answers)) =
        process_from-Frugal (index + 1) objects next more in
      (
        let e : index + length ((artifact, f) ∷ objects) ≡ index + 1 + length objects =
              omega arith in
            rw e frugal,
        (
          c ∷ cs,
          made ++ ks,
          rest ∙ (ap (λ r. r ++ cs) content ∙ append_assoc p.contexts (c ∷ []) cs),
          calls ∙ (ap (λ r. r ++ ks) called ∙ append_assoc p.calls made ks),
          fits objects cs ks answers,
        ),
      )

  -- The correlation of a job gives one context to each of its objects, in their order. From number
  -- `max_objects` on it is the note that the objects are exhausted; for an object before that at
  -- which the clock, read once for each such object, says that the deadline has passed, the note on
  -- the deadline; and for each other object the answer to the one call made for it, with its
  -- fingerprint, or without when `max_similarity_queries` calls with a fingerprint were made before.
  -- The calls are those and no others, in this order: at most `max_objects`, and at most
  -- `max_similarity_queries` with a fingerprint.
  pub process-IsFrugal :
      (job : ScanJob)
      → IsFrugal (length (objects_of job)) (process service job)
        × Answers service 0 0 0
            (objects_of job)
            (process service job).contexts
            (process service job).calls
  unfolding process queries
  process-IsFrugal job =
      let (frugal, (cs, ks, content, called, answers)) =
        process_from-Frugal 0 (objects_of job)
          (record { readings = 0; similarity_used = 0; calls = []; contexts = [] })
          (record {
            counted = refl;
            few_queries = omega arith;
            few_calls = omega arith;
            one_each = omega arith;
          }) in
      (
        let e : 0 + length (objects_of job) ≡ length (objects_of job) = omega arith in
            rw e at frugal,
        rw (content, called) answers,
      )
