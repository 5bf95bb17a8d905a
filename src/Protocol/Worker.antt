-- ===== src/Protocol/Worker.antt =====
-- `_worker` and `shutdown` of src/avbox/protocol/service.py: what becomes of the queued jobs.
pub mod Settled
use avbox.Prelude.{
  str_eq, eq_iff, str_append, ℕ, zero, suc, ◌+◌, ◌-◌, ◌*◌, ◌/◌, ◌%◌, ◌^◌, ◌≤◌, ◌<◌, min, max,
  String, ◌≡◌, refl, sym, ap, ◌∙◌, fun_ext, ◌≢◌, ◌↔◌, ◌⊎◌, inl, inr, Bool, true, false, not, ◌&&◌,
  ◌||◌, Option, none, some, List, [], ◌∷◌, ◌++◌, map, arith, ltb, leb, ◌==◌, if◌then◌else◌, ltb→lt,
  ltb→le, leb→le, leb→lt, lt→ltb, le→leb, ==→eq, eq→==, ne→==, tests, Bool-cases, Option-cases,
  and_true, or_false, if_both, length, get_or, take, drop, replicate, All, any, all, select,
  length-append, append-nil, append_assoc, take-append-drop, length-take, length-drop,
  length-replicate, take-all, drop-nil, take-nil, drop-drop, take-append-take, All-append, All-take,
  length-map, is_member, Result, ok, err, raise_if, Result-cases,
}
use avbox.Prelude.Bytes.{Bytes}
use avbox.Models.Job.{JobStatus, failed}
use avbox.Models.Records.{ScanJob}
use avbox.Jobs.{Store, get, save}
use avbox.Effects.{Raised}
use avbox.Scanning.Action.{Run}
use avbox.Scanning.Scanners.{ScanService, transition, text_of, add_error}
use avbox.Scanning.Execute.{execute_queued}
use avbox.Protocol.Desk.{Desk}

-- `_remove_upload` of a job's object, which lies under the upload root.
unfoldable pub remove_upload : ℕ → List (ℕ × Bytes) → List (ℕ × Bytes)
remove_upload id [] = []
remove_upload id (u ∷ us) = let rest = remove_upload id us in if u.0 == id then rest else u ∷ rest

abbrev pub is_failed : JobStatus → Bool
is_failed failed = true
is_failed _ = false

-- `self.jobs.get(str(job.job_id)) or job`
unfoldable pub current_job : Run → ScanJob
current_job r = elim (get r.job.job_id r.store) [ some job ↦ job | none ↦ r.job ]

-- The handler of `except Exception`: the stored job fails, unless its state does not allow it.
unfoldable pub fail_current : Raised → Run → Result Raised (Unit {0}) × Store
unfolding current_job
fail_current e r =
    let job = add_error (text_of ("ANALYSIS_FAILED: " ∷ e.text ∷ [])) (current_job r) in
    if is_failed job.status
    then (ok tt, save job r.store)
    else elim (transition failed (record { job = job; store = r.store })).0
        as (λ _. Result Raised (Unit {0}) × Store) [
          | ok _ ↦ (ok tt, save (record job { status = failed }) r.store)
          | err x ↦ (err x, r.store)
        ]

unfoldable pub handle_failure : Result Raised (Unit {0}) × Run → Result Raised (Unit {0}) × Store
handle_failure (ok _, r) = (ok tt, r.store)
handle_failure (err e, r) = fail_current e r

-- One round of `_worker` with a job: an exception ends the thread, after its `finally` block.
unfoldable pub work_on : ScanService → ScanJob → Desk → Result Raised (Unit {0}) × Desk
work_on env job desk =
    let (x, store) =
      handle_failure (execute_queued env (record { job = job; store = desk.store })) in
    (x, record desk { store = store; uploads = remove_upload job.job_id desk.uploads })

-- `self.queue.get()`: a worker takes the oldest entry, and waits where there is none.
unfoldable pub work : (ScanJob → ScanService) → Desk → Result Raised (Unit {0}) × Desk
work scans desk = elim desk.queue [
  | [] ↦ (ok tt, desk)
  | job ∷ jobs ↦ work_on (scans job) job (record desk { queue = jobs })
]
