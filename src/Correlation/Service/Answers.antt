-- ===== src/Correlation/Service/Answers.antt =====
-- What the contexts and the calls of src/avbox/correlation/service.py are to be.
use avbox.Prelude.{ℕ, ◌+◌, ◌≤◌, ◌<◌, String, ◌≡◌, true, Option, none, List, [], ◌∷◌, ◌++◌}
use avbox.Prelude.{false, some}
use avbox.Correlation.Types.{partial}
use avbox.Models.Records.{InputArtifact}
use avbox.Correlation.Service.{CorrelationService, Context, Call, is_truthy, is_reached}

module _ (service : CorrelationService) where
  -- A context that holds nothing but the note that a limit stopped the correlation.
  pub record IsNote (note : String) (c : Context) : Type 0 where
    pub reason : c.correlation.skipped_reason ≡ some note
    pub state : c.correlation.state ≡ partial
    pub matches : c.correlation.exact.matches ≡ []
    pub candidates : c.correlation.similarity.candidates ≡ []

  -- The provider's answer to a call.
  abbrev pub IsReply : InputArtifact → Option String → Context → Type 0
  IsReply artifact f c =
      (c.correlation ≡ service.correlate artifact f)
      × (c.is_available ≡ is_reached (service.correlate artifact f))

  -- The contexts of the objects from number `index` on, with the calls that are made for them, when
  -- the clock was read `readings` times and `used` queries for similar objects were made.
  pub data Answers
      : ℕ → ℕ → ℕ → List (InputArtifact × Option String) → List Context → List Call → Type 0 where
    no_objects : {index readings used : ℕ} → Answers index readings used [] [] []
    beyond :
        {index readings used : ℕ} {object : InputArtifact × Option String} {c : Context}
        {os : List (InputArtifact × Option String)} {cs : List Context} {ks : List Call}
        → service.max_objects ≤ index
        → IsNote "max_correlated_objects_per_job exhausted" c
        → Answers (index + 1) readings used os cs ks
        → Answers index readings used (object ∷ os) (c ∷ cs) ([] ++ ks)
    late :
        {index readings used : ℕ} {object : InputArtifact × Option String} {c : Context}
        {os : List (InputArtifact × Option String)} {cs : List Context} {ks : List Call}
        → index < service.max_objects
        → service.is_over readings ≡ true
        → IsNote "total_correlation_deadline exhausted" c
        → Answers (index + 1) (readings + 1) used os cs ks
        → Answers index readings used (object ∷ os) (c ∷ cs) ([] ++ ks)
    plain :
        {index readings used : ℕ} {artifact : InputArtifact} {f : Option String} {c : Context}
        {os : List (InputArtifact × Option String)} {cs : List Context} {ks : List Call}
        → index < service.max_objects
        → service.is_over readings ≡ false
        → is_truthy f ≡ false
        → IsReply artifact f c
        → Answers (index + 1) (readings + 1) used os cs ks
        → Answers index readings used
            ((artifact, f) ∷ os)
            (c ∷ cs)
            ((record { artifact = artifact; fingerprint = f } ∷ []) ++ ks)
    similar :
        {index readings used : ℕ} {artifact : InputArtifact} {f : Option String} {c : Context}
        {os : List (InputArtifact × Option String)} {cs : List Context} {ks : List Call}
        → index < service.max_objects
        → service.is_over readings ≡ false
        → is_truthy f ≡ true
        → used < service.max_similarity_queries
        → IsReply artifact f c
        → Answers (index + 1) (readings + 1) (used + 1) os cs ks
        → Answers index readings used
            ((artifact, f) ∷ os)
            (c ∷ cs)
            ((record { artifact = artifact; fingerprint = f } ∷ []) ++ ks)
    exhausted :
        {index readings used : ℕ} {artifact : InputArtifact} {f : Option String} {c : Context}
        {os : List (InputArtifact × Option String)} {cs : List Context} {ks : List Call}
        → index < service.max_objects
        → service.is_over readings ≡ false
        → is_truthy f ≡ true
        → service.max_similarity_queries ≤ used
        → IsReply artifact none c
        → Answers (index + 1) (readings + 1) used os cs ks
        → Answers index readings used
            ((artifact, f) ∷ os)
            (c ∷ cs)
            ((record { artifact = artifact; fingerprint = none } ∷ []) ++ ks)
