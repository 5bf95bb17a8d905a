-- ===== src/Scanning/Scanners.antt =====
-- `ScanService` of src/avbox/application/scanning.py: the round of `execute_queued` for one requested
-- scanner or analyzer.
pub mod Running
use avbox.Prelude.{
  str_eq, eq_iff, str_append, ℕ, zero, suc, ◌+◌, ◌-◌, ◌*◌, ◌/◌, ◌%◌, ◌^◌, ◌≤◌, ◌<◌, min, max,
  String, ◌≡◌, refl, sym, ap, ◌∙◌, fun_ext, ◌≢◌, ◌↔◌, ◌⊎◌, inl, inr, Bool, true, false, not, ◌&&◌,
  ◌||◌, Option, none, some, List, [], ◌∷◌, ◌++◌, map, arith, ltb, leb, ◌==◌, if◌then◌else◌, ltb→lt,
  ltb→le, leb→le, leb→lt, lt→ltb, le→leb, ==→eq, eq→==, ne→==, tests, Bool-cases, Option-cases,
  and_true, or_false, if_both, length, get_or, take, drop, replicate, All, any, all, select,
  length-append, append-nil, append_assoc, take-append-drop, length-take, length-drop,
  length-replicate, take-all, drop-nil, take-nil, drop-drop, take-append-take, All-append, All-take,
  length-map, is_member, Result, ok, err, Result-cases,
}
use text.Mathlib.Text.{starts_with}
use avbox.Models.Verdict.{Verdict, error, is_verdict, aggregate_verdict, is_match}
use avbox.Models.Job.{JobStatus, created, staged, queued, running, complete, failed, quarantined}
use avbox.Models.Records.{
  QualificationState, installed, probed, qualified, degraded, InputArtifact, ScannerResult,
  AnalyzerResult, ScannerRuntimeStatus, DerivedObject, ScanJob,
}
use avbox.Jobs.{Store, save, move_to, save_scanner_status, scanner_status}
use avbox.Scanning.Action.{Run, Action, on_job, on_store}
use avbox.Effects.{Raised, pure, raise, lift, gets, ◌>>=◌, ◌>>◌, for_each, try_except, finally}

-- `ProbeResult` and `PreparedScan` of src/avbox/scanners/base.py.
pub record ProbeResult : Type 0 where
  pub available : Bool
  pub detail : String
  pub state : QualificationState
  pub version : Option String

pub record PreparedScan : Type 0 where
  pub job_id : ℕ
  pub working_path : String

-- `ScannerAdapter` of src/avbox/scanners/base.py: the methods that a scan calls.
pub record ScannerAdapter : Type 0 where
  pub probe : Result Raised ProbeResult
  pub prepare : ℕ → Result Raised PreparedScan
  pub run_prepared : PreparedScan → Result Raised ScannerResult
  pub cleanup : PreparedScan → Result Raised (Unit {0})

-- The attributes of `ScanService`, and what it asks of the file system during one execution: the
-- size and SHA-256 of the source at the end, the admission to quarantine (the name of the admitted
-- file), the removal of the job's staging directory. `upper` is Python's `str.upper`.
pub record ScanService : Type 0 where
  pub adapters : String → Option ScannerAdapter
  pub generic_analyzers : String → Option (InputArtifact → ℕ → Result Raised AnalyzerResult)
  pub recursive_analyzer : Option (Action (Unit {0}))
  pub correlation_service : Option (Action (Unit {0}))
  pub read_source : Result Raised (ℕ × String)
  pub admit : Result Raised String
  pub remove_staging : Result Raised (Unit {0})
  pub upper : String → String

abbrev pub status_text : JobStatus → String
status_text created = "CREATED"
status_text staged = "STAGED"
status_text queued = "QUEUED"
status_text running = "RUNNING"
status_text complete = "COMPLETE"
status_text failed = "FAILED"
status_text quarantined = "QUARANTINED"

abbrev pub text_of : List String → String
text_of [] = ""
text_of (s ∷ ss) = str_append s (text_of ss)

-- `self.jobs.transition(job, target)`
unfoldable pub transition : JobStatus → Action (Unit {0})
unfolding on_job on_store raise ◌>>◌ move_to
transition target r = elim (move_to target r.job) [
  | ok moved ↦ (ok tt, record r { job = moved; store = save moved r.store })
  | err _ ↦ (
    err (record {
      kind = "ValueError";
      text = text_of (
          "invalid job transition: " ∷ status_text r.job.status ∷ " -> " ∷ status_text target ∷ []);
    }),
    r,
  )
]

-- `job.errors.append(text)`
abbrev pub add_error : String → ScanJob → ScanJob
add_error text job = record job { errors = job.errors ++ text ∷ [] }

-- `a or b` of two optional texts.
or_text : Option String → Option String → Option String
or_text none b = b
or_text (some a) b = if str_eq a "" then b else some a

or_degraded : Option QualificationState → QualificationState
or_degraded none = degraded
or_degraded (some s) = s

-- Is the text one of the list?
abbrev pub one_of : String → List String → Bool
one_of s [] = false
one_of s (t ∷ ts) = str_eq s t || one_of s ts

-- What a generic analyzer's result does to `job.completeness`.
generic_completeness : ScanService → String → AnalyzerResult → String → String
generic_completeness env name result old =
    let partial = str_eq name "document" && starts_with result.native_status "partial_" in
    let marked = if partial then env.upper result.native_status else old in
    elim result.errors [
      | [] ↦ marked
      | _ ∷ _ ↦
          if one_of name ("executable" ∷ "document" ∷ []) && not partial
          then (if one_of result.native_status ("partial_limit" ∷ "unsupported_limit" ∷ [])
              then "PARTIAL_LIMIT"
              else "PARTIAL_ERROR")
          else marked
    ]

-- `[x]` or `[]`, for an attribute that may be empty.
abbrev pub list_of : Option String → List String
list_of none = []
list_of (some s) = s ∷ []

-- What is recorded of a generic analyzer that returned.
unfoldable pub record_generic : ScanService → String → AnalyzerResult → Action (Unit {0})
unfolding generic_completeness or_text or_degraded
record_generic env name result = do
  on_job (λ job. record job {
    analyzer_results = job.analyzer_results ++ result ∷ [];
    completeness = generic_completeness env name result job.completeness;
    raw_output_refs = job.raw_output_refs ++ list_of result.raw_output;
    errors = job.errors ++ map (λ e. text_of (name ∷ ": " ∷ e ∷ [])) result.errors;
  })
  on_store (λ job. save_scanner_status (record {
    scanner_id = name;
    qualification_state = or_degraded result.qualification_state;
    installed_version = or_text result.engine_version result.product_version;
    detail = "generic object analysis completed";
  }))

-- The inner `try`: an analyzer that raises leaves an error and no result.
unfoldable pub run_generic :
    ScanService → String → (InputArtifact → ℕ → Result Raised AnalyzerResult) → Action (Unit {0})
run_generic env name analyze =
    try_except
      (gets (λ r. analyze r.job.input_artifact r.job.job_id) >>= λ answer.
        lift answer >>= λ result. record_generic env name result)
      (λ exc. on_job (add_error (text_of (name ∷ ": " ∷ exc.kind ∷ ": " ∷ exc.text ∷ []))))

is_qualified : Option ScannerRuntimeStatus → Bool
is_qualified none = false
is_qualified (some s) = elim s.qualification_state [ qualified ↦ true | _ ↦ false ]

is_probed : QualificationState → Bool
is_probed probed = true
is_probed _ = false

previous_state : Option ScannerRuntimeStatus → QualificationState → QualificationState
previous_state none state = state
previous_state (some s) state = s.qualification_state

-- The scan by an adapter that is available, with its result recorded.
run_scanner :
    String
    → ScannerAdapter
    → ProbeResult
    → Option ScannerRuntimeStatus
    → PreparedScan
    → Action (Unit {0})
unfolding previous_state
run_scanner name adapter probe previous prepared = do
  native ← lift (adapter.run_prepared prepared)
  let result = record native {
    selected_reason = some "requested and runtime-capable for ordinary-file";
    qualification_state = some (previous_state previous probe.state);
  }
  on_job (λ job. record job {
    scanner_results = job.scanner_results ++ result ∷ [];
    raw_output_refs = job.raw_output_refs ++ result.raw_output_ref ∷ [];
  })
  on_store (λ job. save_scanner_status (record {
    scanner_id = name;
    qualification_state =
        if is_verdict result.normalized_verdict error then degraded else qualified;
    installed_version = result.engine_version;
    detail = "real ordinary-file execution completed";
  }))

run_available : String → ScannerAdapter → ProbeResult → Action (Unit {0})
unfolding run_scanner is_qualified
run_available name adapter probe = do
  previous ← gets (λ r. scanner_status name r.store)
  on_store (λ job. save_scanner_status (record {
    scanner_id = name;
    qualification_state = if is_qualified previous then qualified else probed;
    installed_version = probe.version;
    detail = probe.detail;
  }))
  answer ← gets (λ r. adapter.prepare r.job.job_id)
  prepared ← lift answer
  finally (run_scanner name adapter probe previous prepared) (lift (adapter.cleanup prepared))

unfoldable pub run_adapter : String → Option ScannerAdapter → Action (Unit {0})
unfolding run_available is_probed
run_adapter name none =
    on_job (add_error (text_of (name ∷ ": unavailable or not applicable to ordinary files" ∷ [])))
run_adapter name (some adapter) = do
  probe ← lift adapter.probe
  if not probe.available || not (is_probed probe.state)
      then on_job (add_error (text_of (name ∷ ": " ∷ probe.detail ∷ [])))
      else run_available name adapter probe

run_analyzer :
    ScanService
    → String
    → Option (InputArtifact → ℕ → Result Raised AnalyzerResult)
    → Action (Unit {0})
run_analyzer env name (some analyze) = run_generic env name analyze
run_analyzer env name none = run_adapter name (env.adapters name)

-- One round of the loop over the requested scanners.
unfoldable pub scan_with : ScanService → String → Action (Unit {0})
unfolding run_analyzer
scan_with env name =
    if one_of name ("container" ∷ "rab-correlation" ∷ [])
    then pure tt
    else run_analyzer env name (env.generic_analyzers name)
