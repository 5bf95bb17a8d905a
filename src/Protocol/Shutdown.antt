-- ===== src/Protocol/Shutdown.antt =====
-- `shutdown` of src/avbox/protocol/service.py: the queued jobs that no worker has taken.
use avbox.Prelude.{
  ℕ, String, ◌≡◌, refl, sym, ap, ◌∙◌, ◌≢◌, inl, inr, false, some, List, [], ◌∷◌, ◌++◌, ◌==◌, ne→==,
  Bool-cases, or_false, All, any, Result, ok, ◌>>=◌,
}
use avbox.Prelude.Bytes.{Bytes}
use avbox.Models.Job.{queued, failed, is_allowed}
use avbox.Models.Records.{ScanJob}
use avbox.Jobs.{Store, InvalidTransition, move_to, save, get, find, without}
use avbox.Jobs.Laws.{find-without, save_self}
use avbox.Scanning.Scanners.{add_error}
use avbox.Protocol.Desk.{Desk}
use avbox.Protocol.Worker.{remove_upload}
use avbox.Protocol.Worker.Settled.{remove_upload_lem}

abbrev pub shutdown_message : String
shutdown_message = "ANALYSIS_FAILED: interrupted by graceful service shutdown"

-- One round of the loop that empties the queue; its next entries are `jobs`.
unfoldable pub drop_job : ScanJob → List ScanJob → Desk → Result InvalidTransition Desk
drop_job job jobs desk = do
  moved ← move_to failed (add_error shutdown_message job)
  ok (record desk {
    store = save moved desk.store;
    queue = jobs;
    uploads = remove_upload job.job_id desk.uploads;
  })

-- The loop until `queue.Empty`.
unfoldable pub drop_all : List ScanJob → Desk → Result InvalidTransition Desk
drop_all [] desk = ok desk
drop_all (job ∷ jobs) desk = drop_job job jobs desk >>= drop_all jobs

-- `shutdown`, after which the workers are told to end.
unfoldable pub shutdown : Desk → Result InvalidTransition Desk
shutdown desk = drop_all desk.queue desk

abbrev pub dropped : ScanJob → ScanJob
dropped job = record job { status = failed; errors = job.errors ++ (shutdown_message ∷ []) }

-- The store and the uploads after the jobs were dropped one after the other.
unfoldable pub save_all : List ScanJob → Store → Store
save_all [] store = store
save_all (job ∷ jobs) store = save_all jobs (save (dropped job) store)

unfoldable pub remove_all : List ScanJob → List (ℕ × Bytes) → List (ℕ × Bytes)
remove_all [] us = us
remove_all (job ∷ jobs) us = remove_all jobs (remove_upload job.job_id us)

drop_all_lem :
    (jobs : List ScanJob) (desk : Desk)
    → All (λ job. job.status ≡ queued) jobs
    → desk.queue ≡ jobs
    → drop_all jobs desk
      ≡ ok (record desk {
        store = save_all jobs desk.store;
        queue = [];
        uploads = remove_all jobs desk.uploads;
      })
unfolding drop_all drop_job move_to is_allowed save_all remove_all
drop_all_lem [] desk h e = ap (λ q. ok (record desk { queue = q })) e
drop_all_lem (job ∷ jobs) desk h e = rw (h.0) (drop_all_lem jobs _ h.1 refl)

-- The jobs have identifiers of their own.
abbrev pub Distinct : List ScanJob → Type 0
Distinct [] = Unit
Distinct (job ∷ jobs) = All (λ k. job.job_id ≢ k.job_id) jobs × Distinct jobs

get-save_other :
    (id : ℕ) (job : ScanJob) (store : Store)
    → job.job_id ≢ id
    → get id (save job store) ≡ get id store
unfolding get save find
get-save_other id job store h =
    let e = ne→== job.job_id id h in
    let f : find id (without job.job_id store.jobs) ≡ find id store.jobs =
      find-without job.job_id id store.jobs ∙ rw e refl in
    rw e f

save_all-other :
    (id : ℕ) (jobs : List ScanJob) (store : Store)
    → All (λ k. id ≢ k.job_id) jobs
    → get id (save_all jobs store) ≡ get id store
unfolding save_all
save_all-other id [] store h = refl
save_all-other id (job ∷ jobs) store h =
    save_all-other id jobs (save (dropped job) store) h.1
    ∙ get-save_other id (dropped job) store (λ e. h.0 (sym e))

-- Each job of the list is stored as it was dropped.
save_all-All :
    (jobs : List ScanJob) (store : Store)
    → Distinct jobs
    → All (λ job. get job.job_id (save_all jobs store) ≡ some (dropped job)) jobs
unfolding save_all
save_all-All [] store h = tt
save_all-All (job ∷ jobs) store h = (
  save_all-other job.job_id jobs (save (dropped job) store) h.0 ∙ save_self (dropped job) store,
  save_all-All jobs (save (dropped job) store) h.1,
)

remove_upload-keeps :
    (id other : ℕ) (us : List (ℕ × Bytes))
    → any (λ u. u.0 == id) us ≡ false
    → any (λ u. u.0 == id) (remove_upload other us) ≡ false
unfolding remove_upload any
remove_upload-keeps id other [] h = refl
remove_upload-keeps id other (u ∷ us) h =
    let (here, there) = or_false (u.0 == id) _ h in
    let rest = remove_upload-keeps id other us there in
    elim (Bool-cases (u.0 == other)) [ inl e ↦ rw e rest | inr e ↦ rw (e, here) rest ]

remove_all-keeps :
    (id : ℕ) (jobs : List ScanJob) (us : List (ℕ × Bytes))
    → any (λ u. u.0 == id) us ≡ false
    → any (λ u. u.0 == id) (remove_all jobs us) ≡ false
unfolding remove_all
remove_all-keeps id [] us h = h
remove_all-keeps id (job ∷ jobs) us h =
    remove_all-keeps id jobs (remove_upload job.job_id us) (remove_upload-keeps id job.job_id us h)

remove_all-All :
    (jobs : List ScanJob) (us : List (ℕ × Bytes))
    → All (λ job. any (λ u. u.0 == job.job_id) (remove_all jobs us) ≡ false) jobs
unfolding remove_all
remove_all-All [] us = tt
remove_all-All (job ∷ jobs) us = (
  remove_all-keeps job.job_id jobs (remove_upload job.job_id us) (remove_upload_lem job.job_id us),
  remove_all-All jobs (remove_upload job.job_id us),
)

-- A shutdown with QUEUED jobs of different identifiers in the queue raises nothing and empties the
-- queue; each of these jobs is stored as FAILED with one more error, and its object is gone.
pub shutdown_lem :
    (desk : Desk)
    → All (λ job. job.status ≡ queued) desk.queue
    → Distinct desk.queue
    → (desk' : Desk) × (shutdown desk ≡ ok desk')
      × (desk'.queue ≡ [])
      × All (λ job. get job.job_id desk'.store ≡ some (dropped job)) desk.queue
      × All (λ job. any (λ u. u.0 == job.job_id) desk'.uploads ≡ false) desk.queue
unfolding shutdown
shutdown_lem desk h k = (
  _,
  drop_all_lem desk.queue desk h refl,
  refl,
  save_all-All desk.queue desk.store k,
  remove_all-All desk.queue desk.uploads,
)
