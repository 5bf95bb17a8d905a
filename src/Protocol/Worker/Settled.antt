-- ===== src/Protocol/Worker/Settled.antt =====
-- A worker settles the job that it takes.
use avbox.Prelude.{
  ℕ, String, ◌≡◌, refl, inl, inr, false, some, List, [], ◌∷◌, ◌==◌, Bool-cases, any, Result, ok,
  err,
}
use avbox.Prelude.Bytes.{Bytes}
use avbox.Models.Job.{queued}
use avbox.Models.Records.{ScanJob}
use avbox.Jobs.{get}
use avbox.Effects.{Raised}
use avbox.Scanning.Action.{Run}
use avbox.Scanning.Scanners.{ScanService}
use avbox.Scanning.Execute.{execute_queued, original_of}
use avbox.Scanning.Execute.Outcome.{IsFaithful, Ending, Executed, execute_queued_ends}
use avbox.Protocol.Desk.{Desk}
use avbox.Protocol.Worker.{remove_upload, handle_failure, work_on, work}

-- The thread goes on; the job has left the queue and is stored as it ended, and its object is gone.
pub record IsSettled (env : ScanService) (job : ScanJob) (jobs : List ScanJob)
    (answer : Result Raised (Unit {0}) × Desk) : Type 0 where
  pub alive : answer.0 ≡ ok tt
  pub ended : ScanJob
  pub stored : get job.job_id answer.1.store ≡ some ended
  pub ending : Ending env (original_of job.input_artifact) ended
  pub queue : answer.1.queue ≡ jobs
  pub removed : any (λ u. u.0 == job.job_id) answer.1.uploads ≡ false

pub remove_upload_lem :
    (id : ℕ) (us : List (ℕ × Bytes)) → any (λ u. u.0 == id) (remove_upload id us) ≡ false
unfolding remove_upload any
remove_upload_lem id [] = refl
remove_upload_lem id (u ∷ us) = elim (Bool-cases (u.0 == id)) [
  | inl e ↦ rw e (remove_upload_lem id us)
  | inr e ↦ rw (e, e) (remove_upload_lem id us)
]

handled_ok :
    (env : ScanService) (original : ℕ × String) (id : ℕ) (x : Result Raised (Unit {0})) (r : Run)
    → env.remove_staging ≡ ok tt
    → Executed env original id (x, r)
    → (handle_failure (x, r) ≡ (ok tt, r.store)) × (get id r.store ≡ some r.job)
unfolding handle_failure
handled_ok env original id (ok u) r clean h = (refl, h.3 refl)
handled_ok env original id (err e) r clean h = absurd cc

work_on-IsSettled :
    (env : ScanService) (job : ScanJob) (desk : Desk)
    → IsFaithful env
    → job.status ≡ queued
    → env.remove_staging ≡ ok tt
    → IsSettled env job desk.queue (work_on env job desk)
unfolding work_on
work_on-IsSettled env job desk law status clean =
    let run : Run = record { job = job; store = desk.store } in
    let done = execute_queued_ends env run law status in
    let (handled, stored) =
      handled_ok env (original_of job.input_artifact) job.job_id (execute_queued env run).0
        (execute_queued env run).1 clean done in
    rw handled (record {
      alive = refl;
      ended = (execute_queued env run).1.job;
      stored = stored;
      ending = done.1;
      queue = refl;
      removed = remove_upload_lem job.job_id desk.uploads;
    })

-- A worker that takes a QUEUED job goes on afterwards, where the staging directory of the job can be
-- removed: the job has left the queue, it is stored as COMPLETE, QUARANTINED or FAILED, and its
-- uploaded object is gone. The recursive analysis and the correlation are taken to leave the job's
-- status and identifier alone.
pub work-IsSettled :
    (scans : ScanJob → ScanService) (job : ScanJob) (jobs : List ScanJob) (desk : Desk)
    → desk.queue ≡ job ∷ jobs
    → IsFaithful (scans job)
    → job.status ≡ queued
    → (scans job).remove_staging ≡ ok tt
    → IsSettled (scans job) job jobs (work scans desk)
unfolding work
work-IsSettled scans job jobs desk e law status clean =
    rw e (work_on-IsSettled (scans job) job (record desk { queue = jobs }) law status clean)
