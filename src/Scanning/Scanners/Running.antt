-- ===== src/Scanning/Scanners/Running.antt =====
-- The rounds of the loop leave the job running.
use avbox.Prelude.{ℕ, String, ◌≡◌, refl, ◌∙◌, Option, none, some, Result}
use avbox.Models.Job.{running}
use avbox.Models.Records.{InputArtifact, AnalyzerResult, ScanJob, ScannerRuntimeStatus}
use avbox.Jobs.{Store}
use avbox.Scanning.Action.{Run, on_job, on_store}
use avbox.Effects.{Raised}
use avbox.Effects.Keeps.{
  Keeps, Keeps-if, Keeps-bind, Keeps-then, Keeps-try_except, Keeps-lift, Keeps-gets, Keeps-finally,
  Keeps-pure,
}
use avbox.Scanning.Scanners.{
  ScanService, ScannerAdapter, ProbeResult, PreparedScan, scan_with, record_generic, run_generic,
  run_scanner, run_available, run_adapter, run_analyzer,
}

-- A job that an execution works on.
pub record IsRunning (id : ℕ) (r : Run) : Type 0 where
  pub status : r.job.status ≡ running
  pub same : r.job.job_id ≡ id

-- An update of the job that leaves its status and identifier alone.
abbrev pub IsMild : (ScanJob → ScanJob) → Type 0
IsMild f = (job : ScanJob) → ((f job).status ≡ job.status) × ((f job).job_id ≡ job.job_id)

module _ (id : ℕ) where
  pub Keeps-on_job : (f : ScanJob → ScanJob) → IsMild f → Keeps (IsRunning id) (on_job f)
  unfolding on_job
  Keeps-on_job f mild = record {
    at = λ r h. record { status = (mild r.job).0 ∙ h.status; same = (mild r.job).1 ∙ h.same };
  }

  Keeps-on_store : (f : ScanJob → Store → Store) → Keeps (IsRunning id) (on_store f)
  unfolding on_store
  Keeps-on_store f = record { at = λ r h. record { status = h.status; same = h.same } }

  record_generic-Keeps :
      (env : ScanService) (name : String) (result : AnalyzerResult)
      → Keeps (IsRunning id) (record_generic env name result)
  unfolding record_generic
  record_generic-Keeps env name result =
      Keeps-then _ _ (Keeps-on_job _ (λ job. (refl, refl))) (Keeps-on_store _)

  run_generic-Keeps :
      (env : ScanService) (name : String) (f : InputArtifact → ℕ → Result Raised AnalyzerResult)
      → Keeps (IsRunning id) (run_generic env name f)
  unfolding run_generic
  run_generic-Keeps env name f =
      Keeps-try_except _ _
        (Keeps-bind _ _ (Keeps-gets _)
          (λ a. Keeps-bind _ _ (Keeps-lift a) (λ result. record_generic-Keeps env name result)))
        (λ e. Keeps-on_job _ (λ job. (refl, refl)))

  run_scanner-Keeps :
      (name : String) (a : ScannerAdapter) (p : ProbeResult) (s : Option ScannerRuntimeStatus)
      (w : PreparedScan)
      → Keeps (IsRunning id) (run_scanner name a p s w)
  unfolding run_scanner
  run_scanner-Keeps name a p s w =
      Keeps-bind _ _ (Keeps-lift _)
        (λ native. Keeps-then _ _ (Keeps-on_job _ (λ job. (refl, refl))) (Keeps-on_store _))

  run_available-Keeps :
      (name : String) (a : ScannerAdapter) (p : ProbeResult)
      → Keeps (IsRunning id) (run_available name a p)
  unfolding run_available
  run_available-Keeps name a p = Keeps-bind _ _ (Keeps-gets _) (λ s.
      Keeps-then _ _ (Keeps-on_store _) (
        Keeps-bind _ _ (Keeps-gets _) (λ x.
          Keeps-bind _ _ (Keeps-lift x)
            (λ w. Keeps-finally _ _ (run_scanner-Keeps name a p s w) (Keeps-lift _)))))

  run_adapter-Keeps :
      (name : String) (a : Option ScannerAdapter) → Keeps (IsRunning id) (run_adapter name a)
  unfolding run_adapter
  run_adapter-Keeps name none = Keeps-on_job _ (λ job. (refl, refl))
  run_adapter-Keeps name (some a) =
      Keeps-bind _ _ (Keeps-lift _)
        (λ p. Keeps-if _ _ _ (Keeps-on_job _ (λ job. (refl, refl))) (run_available-Keeps name a p))

  run_analyzer-Keeps :
      (env : ScanService) (name : String)
      (f : Option (InputArtifact → ℕ → Result Raised AnalyzerResult))
      → Keeps (IsRunning id) (run_analyzer env name f)
  unfolding run_analyzer
  run_analyzer-Keeps env name none = run_adapter-Keeps name (env.adapters name)
  run_analyzer-Keeps env name (some f) = run_generic-Keeps env name f

  pub scan_with-Keeps :
      (env : ScanService) (name : String) → Keeps (IsRunning id) (scan_with env name)
  unfolding scan_with
  scan_with-Keeps env name =
      Keeps-if _ _ _ (Keeps-pure tt) (run_analyzer-Keeps env name (env.generic_analyzers name))
