-- ===== src/Scanning/Execute.antt =====
-- `create_queued`, `execute_queued` and `scan_file` of src/avbox/application/scanning.py.
pub mod Outcome
pub mod Created
use avbox.Prelude.{
  str_eq, eq_iff, str_append, ℕ, zero, suc, ◌+◌, ◌-◌, ◌*◌, ◌/◌, ◌%◌, ◌^◌, ◌≤◌, ◌<◌, min, max,
  String, ◌≡◌, refl, sym, ap, ◌∙◌, fun_ext, ◌≢◌, ◌↔◌, ◌⊎◌, inl, inr, Bool, true, false, not, ◌&&◌,
  ◌||◌, Option, none, some, List, [], ◌∷◌, ◌++◌, map, arith, ltb, leb, ◌==◌, if◌then◌else◌, ltb→lt,
  ltb→le, leb→le, leb→lt, lt→ltb, le→leb, ==→eq, eq→==, ne→==, tests, Bool-cases, Option-cases,
  and_true, or_false, if_both, length, get_or, take, drop, replicate, All, any, all, select,
  length-append, append-nil, append_assoc, take-append-drop, length-take, length-drop,
  length-replicate, take-all, drop-nil, take-nil, drop-drop, take-append-take, All-append, All-take,
  length-map, is_member, Result, ok, err, Result-cases,
}
use avbox.Models.Verdict.{Verdict, not_scanned, is_verdict, aggregate_verdict, is_match}
use avbox.Models.Job.{JobStatus, created, staged, queued, running, complete, failed, quarantined}
use avbox.Models.Records.{InputArtifact, ScannerResult, DerivedObject, ScanJob}
use avbox.Jobs.{Store, save}
use avbox.Scanning.Action.{Run, Action, on_job, on_store}
use avbox.Effects.{Raised, pure, raise, lift, gets, ◌>>=◌, ◌>>◌, for_each, try_except, finally}
use avbox.Scanning.Scanners.{ScanService, transition, add_error, one_of, text_of, scan_with}

abbrev pub verdicts : List ScannerResult → List Verdict
verdicts = map (λ r. r.normalized_verdict)

-- The scanner results of all derived objects, in order.
abbrev pub child_results : List DerivedObject → List ScannerResult
child_results [] = []
child_results (c ∷ cs) = c.scanner_results ++ child_results cs

abbrev pub is_queued : JobStatus → Bool
is_queued queued = true
is_queued _ = false

set_root_verdict : ScanJob → ScanJob
set_root_verdict job =
    let v = aggregate_verdict (verdicts job.scanner_results) in
    record job { root_verdict = some v; normalized_verdict = v }

set_verdict : ScanJob → ScanJob
set_verdict job = record job {
  normalized_verdict =
      aggregate_verdict (verdicts (job.scanner_results ++ child_results job.derived_objects));
}

optional : Bool → Option (Action (Unit {0})) → Action (Unit {0})
optional asked none = pure tt
optional asked (some process) = if asked then process else pure tt

-- The recursive analysis, and the verdict over the derived objects too.
recurse : ScanService → List String → Action (Unit {0})
recurse env requested = elim env.recursive_analyzer [
  | none ↦ pure tt
  | some process ↦ if one_of "container" requested then process >> on_job set_verdict else pure tt
]

-- The scanners, the recursive analysis and the correlation.
unfoldable pub analyze : ScanService → List String → Action (Unit {0})
unfolding set_root_verdict set_verdict optional recurse
analyze env requested = do
  for_each requested (scan_with env)
  on_job set_root_verdict
  recurse env requested
  optional (one_of "rab-correlation" requested) env.correlation_service

-- `(size, sha256) != original`
abbrev pub is_changed : ℕ × String → ℕ × String → Bool
is_changed now original = not (now.0 == original.0 && str_eq now.1 original.1)

set_decision : String → ScanJob → ScanJob
set_decision text job = record job { preservation_decision = some text }

-- The end of the job: quarantine for a match, completion otherwise.
unfoldable pub settle : ScanService → Verdict → Action (Unit {0})
unfolding set_decision
settle env verdict =
    if is_match verdict
    then (do
      name ← lift env.admit
      on_job (set_decision (text_of ("local-quarantine:" ∷ name ∷ [])))
      transition quarantined)
    else (do on_job (set_decision "transient-bytes-removed"); transition complete)

abbrev pub source_changed : Raised
source_changed = record {
  kind = "RuntimeError";
  text = "READ_ONLY invariant violated: source changed during scan";
}

-- The check that the source is as it was, and what follows it.
unfoldable pub conclude : ScanService → ℕ × String → Action (Unit {0})
conclude env original = do
  now ← lift env.read_source
  verdict ← gets (λ r. r.job.normalized_verdict)
  if is_changed now original then raise source_changed else settle env verdict

abbrev pub original_of : InputArtifact → ℕ × String
original_of artifact = (artifact.byte_size, artifact.hashes.sha256)

-- The handler of `except Exception`.
unfoldable pub fail_job : Raised → Action (Unit {0})
fail_job exc = on_job (add_error exc.text) >> transition failed

-- The `finally` block: a staging directory that cannot be removed keeps the job from being saved.
unfoldable pub clean_up : Result Raised (Unit {0}) → Action (Unit {0})
clean_up removal = lift removal >> on_store save

-- `execute_queued` behind its guard.
unfoldable pub execute : ScanService → List String → ℕ × String → Action (Unit {0})
execute env requested original = do
  transition running
  finally (try_except (analyze env requested >> conclude env original) fail_job)
      (clean_up env.remove_staging)

abbrev pub not_queued : Raised
not_queued = record { kind = "ValueError"; text = "job must be QUEUED before execution" }

unfoldable pub execute_queued : ScanService → Action (Unit {0})
execute_queued env r =
    if is_queued r.job.status
    then execute env r.job.requested_scanners (original_of r.job.input_artifact) r
    else (err not_queued, r)

-- The requested names that the service knows.
unfoldable pub is_known : ScanService → String → Bool
is_known env name = elim (env.adapters name) [
  | some _ ↦ true
  | none ↦ elim (env.generic_analyzers name) [ some _ ↦ true | none ↦ false ]
]

unfoldable pub new_job : ScanService → ℕ → String → InputArtifact → List String → ScanJob
unfolding is_known
new_job env id source artifact requested = record {
  job_id = id;
  source = source;
  input_artifact = artifact;
  requested_scanners = requested;
  applicable_scanners = select (is_known env) requested;
  status = created;
  scanner_results = [];
  analyzer_results = [];
  derived_objects = [];
  relationships = [];
  completeness = "COMPLETE";
  root_verdict = none;
  normalized_verdict = not_scanned;
  raw_output_refs = [];
  preservation_decision = none;
  errors = [];
}

-- `create_queued`, with the new job's identifier.
unfoldable pub create_queued :
    ScanService → ℕ → InputArtifact → String → List String → Store → Result Raised (Unit {0}) × Run
unfolding new_job
create_queued env id artifact source requested store =
    let job = new_job env id source artifact requested in
    (transition staged >> transition queued) (record { job = job; store = save job store })

abbrev pub too_large : Raised
too_large = record { kind = "ValueError"; text = "input exceeds configured maximum_file_bytes" }

-- `scan_file` of a source with `size` bytes, and the artifact that hashing it gives; a source that
-- is too large raises before there is a job.
unfoldable pub scan_file :
    ScanService
    → ℕ
    → ℕ
    → ℕ
    → InputArtifact
    → List String
    → Store
    → Result Raised (Result Raised (Unit {0}) × Run)
scan_file env maximum_file_bytes size id artifact requested store =
    if ltb maximum_file_bytes size
    then err too_large
    else ok (
        let (x, r) = create_queued env id artifact "local-cli" requested store in
        elim x [ ok _ ↦ execute_queued env r | err e ↦ (err e, r) ])
