-- ===== src/Jobs.antt =====
-- `JobService` of src/avbox/application/jobs.py over its two tables of jobs and of scanners. SQLite
-- keeps the rows: the newest row of `jobs` stands first, as `ORDER BY rowid DESC` lists them, and
-- `INSERT OR REPLACE` deletes the old row of a job before it inserts the new one.
pub mod Laws
pub mod Reconcile
pub mod Refinement
use avbox.Prelude.{
  str_eq, eq_iff, str_append, ℕ, zero, suc, ◌+◌, ◌-◌, ◌*◌, ◌/◌, ◌%◌, ◌^◌, ◌≤◌, ◌<◌, min, max,
  String, ◌≡◌, refl, sym, ap, ◌∙◌, fun_ext, ◌≢◌, ◌↔◌, ◌⊎◌, inl, inr, Bool, true, false, not, ◌&&◌,
  ◌||◌, Option, none, some, List, [], ◌∷◌, ◌++◌, map, arith, ltb, leb, ◌==◌, if◌then◌else◌, ltb→lt,
  ltb→le, leb→le, leb→lt, lt→ltb, le→leb, ==→eq, eq→==, ne→==, tests, Bool-cases, Option-cases,
  and_true, or_false, if_both, length, get_or, take, drop, replicate, All, any, all, select,
  length-append, append-nil, append_assoc, take-append-drop, length-take, length-drop,
  length-replicate, take-all, drop-nil, take-nil, drop-drop, take-append-take, All-append, All-take,
  length-map, is_member, Result, ok, err, ◌>>=◌, ◌>>◌, raise_if, Result-cases,
}
use text.Mathlib.Text.{starts_with}
use avbox.Models.Job.{JobStatus, staged, queued, running, failed, is_allowed}
use avbox.Models.Records.{ScanJob, ScannerRuntimeStatus}

pub record Store : Type 0 where
  pub jobs : List ScanJob
  pub scanner_runtime : List ScannerRuntimeStatus

-- `raise ValueError(f"invalid job transition: {self.status} -> {target}")`
pub data InvalidTransition : Type 0 where
  invalid_transition : JobStatus → JobStatus → InvalidTransition

unfoldable pub without : ℕ → List ScanJob → List ScanJob
without id [] = []
without id (j ∷ js) = let rest = without id js in if j.job_id == id then rest else j ∷ rest

unfoldable pub find : ℕ → List ScanJob → Option ScanJob
find id [] = none
find id (j ∷ js) = if j.job_id == id then some j else find id js

-- `JobService.save`
unfoldable pub save : ScanJob → Store → Store
unfolding without
save job store = record store { jobs = job ∷ without job.job_id store.jobs }

-- `JobService.get`
unfoldable pub get : ℕ → Store → Option ScanJob
unfolding find
get id store = find id store.jobs

-- `ScanJob.transition` of src/avbox/models/jobs.py
unfoldable pub move_to : JobStatus → ScanJob → Result InvalidTransition ScanJob
move_to target job =
    if is_allowed job.status target
    then ok (record job { status = target })
    else err (invalid_transition job.status target)

-- `JobService.transition`: nothing is saved where the job refuses.
unfoldable pub transition : ScanJob → JobStatus → Store → Result InvalidTransition (ScanJob × Store)
unfolding move_to save
transition job target store = do moved ← move_to target job; ok (moved, save moved store)

without_status : String → List ScannerRuntimeStatus → List ScannerRuntimeStatus
without_status id [] = []
without_status id (s ∷ ss) =
    let rest = without_status id ss in if str_eq s.scanner_id id then rest else s ∷ rest

find_status : String → List ScannerRuntimeStatus → Option ScannerRuntimeStatus
find_status id [] = none
find_status id (s ∷ ss) = if str_eq s.scanner_id id then some s else find_status id ss

-- `JobService.save_scanner_status`
unfoldable pub save_scanner_status : ScannerRuntimeStatus → Store → Store
unfolding without_status
save_scanner_status status store = record store {
  scanner_runtime = status ∷ without_status status.scanner_id store.scanner_runtime;
}

-- `JobService.scanner_statuses().get(name)`
unfoldable pub scanner_status : String → Store → Option ScannerRuntimeStatus
unfolding find_status
scanner_status name store = find_status name store.scanner_runtime

-- `job.status in {STAGED, QUEUED, RUNNING}`
unfoldable pub is_active : JobStatus → Bool
is_active staged = true
is_active queued = true
is_active running = true
is_active _ = false

-- A job of the protocol that a restart has interrupted.
unfoldable pub is_interrupted : ScanJob → Bool
is_interrupted job = starts_with job.source "rab:" && is_active job.status

abbrev pub interrupted_message : String
interrupted_message = "ANALYSIS_FAILED: interrupted by service restart"

-- One round of the loop of `reconcile_interrupted`, on the count and the store.
unfoldable pub reconcile_one : ScanJob → ℕ × Store → Result InvalidTransition (ℕ × Store)
unfolding move_to save
reconcile_one job (count, store) =
    if is_interrupted job
    then (do
      moved ← move_to failed (record job { errors = job.errors ++ interrupted_message ∷ [] })
      ok (count + 1, save moved store))
    else ok (count, store)

unfoldable pub reconcile_all : List ScanJob → ℕ × Store → Result InvalidTransition (ℕ × Store)
reconcile_all [] acc = ok acc
reconcile_all (job ∷ jobs) acc = do next ← reconcile_one job acc; reconcile_all jobs next

-- `JobService.reconcile_interrupted`: the loop runs over the jobs that are listed at its start.
unfoldable pub reconcile_interrupted : Store → Result InvalidTransition (ℕ × Store)
reconcile_interrupted store = reconcile_all store.jobs (0, store)
