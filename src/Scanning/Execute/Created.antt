-- ===== src/Scanning/Execute/Created.antt =====
-- The job that `create_queued` leaves behind.
use avbox.Prelude.{◌==◌, ◌∙◌, inl, inr, if◌then◌else◌, Bool-cases}
use avbox.Jobs.Laws.{find-without}
use avbox.Prelude.{ℕ, String, ◌≡◌, refl, some, List, eq→==, ok}
use avbox.Models.Job.{queued, is_allowed}
use avbox.Models.Records.{InputArtifact, ScanJob}
use avbox.Jobs.{Store, save, get, find, move_to}
use avbox.Effects.{◌>>=◌, ◌>>◌, continue}
use avbox.Scanning.Action.{Run, on_job, on_store}
use avbox.Scanning.Scanners.{ScanService, transition}
use avbox.Scanning.Execute.{new_job, create_queued}

-- A job was created: it is QUEUED, for the artifact, and it is in the store, where nothing else is
-- changed.
pub record IsCreated (id : ℕ) (artifact : InputArtifact) (store : Store) (r : Run) : Type 0 where
  pub identity : r.job.job_id ≡ id
  pub status : r.job.status ≡ queued
  pub input : r.job.input_artifact ≡ artifact
  pub stored : get id r.store ≡ some r.job
  pub rows : (k : ℕ) → get k r.store ≡ (if id == k then some r.job else get k store)

get-save : (job : ScanJob) (store : Store) → get job.job_id (save job store) ≡ some job
unfolding get find save
get-save job store = rw (eq→== job.job_id job.job_id refl) refl

get-save_row :
    (k : ℕ) (job : ScanJob) (store : Store)
    → get k (save job store) ≡ (if job.job_id == k then some job else get k store)
unfolding get find save
get-save_row k job store = elim (Bool-cases (job.job_id == k)) [
  | inl e ↦ rw e refl
  | inr e ↦ rw e (find-without job.job_id k store.jobs ∙ rw e refl)
]

-- The last of three values of a job is what is read.
get-save_thrice :
    (k : ℕ) (first second third : ScanJob) (store : Store)
    → second.job_id ≡ first.job_id
    → third.job_id ≡ first.job_id
    → get k (save third (save second (save first store)))
      ≡ (if first.job_id == k then some third else get k store)
get-save_thrice k first second third store e f =
    let a = get-save_row k third (save second (save first store)) in
    let b = get-save_row k second (save first store) in
    let c = get-save_row k first store in
    elim (Bool-cases (first.job_id == k)) [
      | inl h ↦ a ∙ rw (f, h) refl
      | inr h ↦ a ∙ (rw (f, h) refl ∙ (b ∙ (rw (e, h) refl ∙ (c ∙ rw h refl))))
    ]

-- `create_queued` raises nothing, and the job that it makes is QUEUED and stored.
pub create_queued-IsCreated :
    (env : ScanService) (id : ℕ) (artifact : InputArtifact) (source : String)
    (requested : List String) (store : Store)
    → (r : Run) × (create_queued env id artifact source requested store ≡ (ok tt, r))
      × IsCreated id artifact store r
unfolding create_queued new_job transition on_job on_store ◌>>◌ ◌>>=◌ continue is_allowed move_to
create_queued-IsCreated env id artifact source requested store = (
  _,
  refl,
  record {
    identity = refl;
    status = refl;
    input = refl;
    stored = get-save _ _;
    rows = λ k. get-save_thrice k _ _ _ store refl refl;
  },
)
