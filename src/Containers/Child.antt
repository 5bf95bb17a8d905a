-- ===== src/Containers/Child.antt =====
-- `_child` of src/avbox/analyzers/containers.py: one member is written, scanned and recorded.
pub mod Within
use avbox.Prelude.{
  str_eq, eq_iff, str_append, ℕ, zero, suc, ◌+◌, ◌-◌, ◌*◌, ◌/◌, ◌%◌, ◌^◌, ◌≤◌, ◌<◌, min, max,
  String, ◌≡◌, refl, sym, ap, ◌∙◌, fun_ext, ◌≢◌, ◌↔◌, ◌⊎◌, inl, inr, Bool, true, false, not, ◌&&◌,
  ◌||◌, Option, none, some, List, [], ◌∷◌, ◌++◌, map, arith, ltb, leb, ◌==◌, if◌then◌else◌, ltb→lt,
  ltb→le, leb→le, leb→lt, lt→ltb, le→leb, ==→eq, eq→==, ne→==, tests, Bool-cases, Option-cases,
  and_true, or_false, if_both, length, get_or, take, drop, replicate, All, any, all, select,
  length-append, append-nil, append_assoc, take-append-drop, length-take, length-drop,
  length-replicate, take-all, drop-nil, take-nil, drop-drop, take-append-take, All-append, All-take,
  length-map, is_member, Result, ok, err, raise_if, Result-cases,
}
use avbox.Prelude.Bytes.{Bytes}
use avbox.Models.Records.{
  LimitEvent, InputArtifact, ObjectIdentity, Relation, DerivedObject, ObjectRelationship, ScanJob,
  recursion,
}
use avbox.Effects.{Raised, pure, raise, lift, gets, ◌>>=◌, ◌>>◌}
use avbox.Containers.Names.{Name}
use avbox.Containers.State.{
  ExtractionBudget, Work, Action, on_usage, on_job, limit, can_start_child,
}
use avbox.Containers.Materialize.{Stream, materialize}
use avbox.Containers.Sources.{Kind, ContainerAnalyzer, kind_of}

-- `_artifact`
unfoldable pub artifact_of : ContainerAnalyzer → ℕ → Bytes → Name → InputArtifact
artifact_of env number content name = record {
  hashes = env.hash_file content;
  byte_size = length content;
  filename = env.child_filename number;
  submitted_filename = some (env.name_text name);
  media_type = "application/octet-stream";
  source = "derived-container";
}

abbrev pub identity_of : InputArtifact → ObjectIdentity
identity_of a = record {
  sha256 = a.hashes.sha256;
  blake3 = some a.hashes.blake3;
  sha1 = some a.hashes.sha1;
  md5 = some a.hashes.md5;
  size = a.byte_size;
  filename = some a.filename;
  media_type = some a.media_type;
}

-- A member of a container, as `_child` is given it.
pub record Member : Type 0 where
  pub stream : Stream
  pub name : Name
  pub index : ℕ
  pub relation : Relation

abbrev pub derived_of :
    ContainerAnalyzer → InputArtifact → ℕ → Member → InputArtifact → ScanJob → DerivedObject
derived_of env parent depth m child result = record {
  object = identity_of child;
  parent_sha256 = parent.hashes.sha256;
  depth = depth;
  member_name = env.name_text m.name;
  member_index = m.index;
  analyzer_results = result.analyzer_results;
  scanner_results = result.scanner_results;
  normalized_verdict = result.normalized_verdict;
  errors = result.errors;
}

abbrev pub relationship_of :
    ContainerAnalyzer → InputArtifact → ℕ → Member → InputArtifact → ObjectRelationship
relationship_of env parent depth m child = record {
  relationship = m.relation;
  source_sha256 = parent.hashes.sha256;
  target_sha256 = child.hashes.sha256;
  member_name = env.name_text m.name;
  depth = depth;
  member_index = m.index;
}

-- Both records of a child, and the depth that was reached.
unfoldable pub record_child :
    ContainerAnalyzer → InputArtifact → ℕ → Member → InputArtifact → ScanJob → Action (Unit {0})
record_child env parent depth m child result w = (
  ok tt,
  record w {
    job = record w.job {
      derived_objects = w.job.derived_objects ++ (derived_of env parent depth m child result ∷ []);
      relationships = w.job.relationships ++ (relationship_of env parent depth m child ∷ []);
    };
    usage = record w.usage { max_depth_reached = max w.usage.max_depth_reached depth };
  },
)

-- `usage.children_materialized += 1` where there is a file.
unfoldable pub count_child : Option Bytes → Action (Option Bytes)
count_child none w = (ok none, w)
count_child (some content) w = (
  ok (some content),
  record w { usage = record w.usage { children_materialized = suc w.usage.children_materialized } },
)

-- `_materialize` under the next number, and the count.
unfoldable pub write_child : ContainerAnalyzer → Stream → ℕ → ℕ → Action (Option Bytes)
write_child env stream number parent_size = do
  content ← materialize env.budget env.elapsed stream number parent_size
  count_child content

-- The scanners for a child: those of the job, less this analyzer.
unfoldable pub requested_of : ScanJob → List String
requested_of job = select (λ name. not (str_eq name "container")) job.requested_scanners

-- Deeper containers are told by their kind alone.
unfoldable pub note_recursion : Option Kind → Action (Unit {0})
note_recursion none = pure tt
note_recursion (some _) = limit recursion

-- What follows the materialization; `descend` is `_process_object`.
unfoldable pub finish_child :
    ContainerAnalyzer
    → (Bytes → InputArtifact → Action (Unit {0}))
    → InputArtifact
    → ℕ
    → Member
    → ℕ
    → Bytes
    → Action (Unit {0})
finish_child env descend parent depth m number content =
    let child = artifact_of env number content m.name in
    do
      requested ← gets (λ w. requested_of w.job)
      result ← lift (env.scan child requested content)
      record_child env parent depth m child result
      if leb env.budget.max_recursion_depth depth
          then (lift (kind_of env content) >>= note_recursion)
          else descend content child

-- `_child` behind its guard.
unfoldable pub start_child :
    ContainerAnalyzer
    → (Bytes → InputArtifact → Action (Unit {0}))
    → InputArtifact
    → ℕ
    → ℕ
    → Member
    → Action (Unit {0})
start_child env descend parent parent_depth parent_size m = do
  number ← gets (λ w. w.usage.children_materialized)
  content ← write_child env m.stream number parent_size
  elim content [
    | none ↦ pure tt
    | some bytes ↦ finish_child env descend parent (suc parent_depth) m number bytes
  ]

-- `_child`
unfoldable pub child :
    ContainerAnalyzer
    → (Bytes → InputArtifact → Action (Unit {0}))
    → InputArtifact
    → ℕ
    → ℕ
    → Member
    → Action (Unit {0})
child env descend parent parent_depth parent_size m = do
  go ← can_start_child env.budget
  if go then start_child env descend parent parent_depth parent_size m else pure tt
