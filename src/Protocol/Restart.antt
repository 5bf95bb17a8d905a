-- ===== src/Protocol/Restart.antt =====
-- The start of RABService in src/avbox/protocol/service.py: the jobs that a restart has interrupted
-- and their uploads, and the profiles.
use avbox.Prelude.{
  str_eq, ℕ, String, ◌≡◌, refl, inl, inr, Bool, true, false, ◌||◌, Option, none, some, List, [],
  ◌∷◌, ◌==◌, if◌then◌else◌, Bool-cases, if_both, All, Result, ok,
}
use avbox.Prelude.{All-mono}
use avbox.Prelude.Results.{◌>>=◌}
use avbox.Prelude.Bytes.{Bytes}
use avbox.Models.Records.{ScanJob}
use avbox.Jobs.{InvalidTransition, reconcile_interrupted, interrupted_message}
use avbox.Protocol.Desk.{RabJob, Desk, rab_job}
use avbox.Protocol.Worker.{remove_upload}

-- `message in job.errors`
unfoldable pub mentions : String → List String → Bool
mentions text [] = false
mentions text (e ∷ es) = str_eq e text || mentions text es

-- A job without a row has no path of an upload.
unfoldable pub without_upload : ScanJob → Desk → Option RabJob → Desk
without_upload job desk none = desk
without_upload job desk (some row) = record desk { uploads = remove_upload job.job_id desk.uploads }

-- The body of the loop over the jobs.
unfoldable pub clean_upload : ScanJob → Desk → Desk
clean_upload job desk =
    if mentions interrupted_message job.errors
    then without_upload job desk (rab_job job.job_id desk)
    else desk

unfoldable pub clean_uploads : List ScanJob → Desk → Desk
clean_uploads [] desk = desk
clean_uploads (job ∷ jobs) desk = clean_uploads jobs (clean_upload job desk)

-- `_clean_interrupted_uploads`, with the number of interrupted jobs.
unfoldable pub clean_interrupted_uploads : ℕ → Desk → Desk
clean_interrupted_uploads count desk =
    if count == 0 then desk else clean_uploads desk.store.jobs desk

-- The start: `reconcile_interrupted` and then the clean-up.
unfoldable pub start : Desk → Result InvalidTransition Desk
start desk = do
  reconciled ← reconcile_interrupted desk.store
  ok (clean_interrupted_uploads reconciled.0 (record desk { store = reconciled.1 }))

-- There is no upload of the job.
abbrev pub IsGone : ℕ → List (ℕ × Bytes) → Type 0
IsGone id us = All (λ u. (u.0 == id) ≡ false) us

remove_upload-IsGone : (id : ℕ) (us : List (ℕ × Bytes)) → IsGone id (remove_upload id us)
unfolding remove_upload
remove_upload-IsGone id [] = tt
remove_upload-IsGone id (u ∷ us) = elim (Bool-cases (u.0 == id)) [
  | inl mine ↦ rw mine (remove_upload-IsGone id us)
  | inr other ↦ rw other (other, remove_upload-IsGone id us)
]

IsGone-remove_upload :
    (id other : ℕ) (us : List (ℕ × Bytes)) → IsGone id us → IsGone id (remove_upload other us)
unfolding remove_upload
IsGone-remove_upload id other [] h = tt
IsGone-remove_upload id other (u ∷ us) h =
    if_both (IsGone id) (u.0 == other) (IsGone-remove_upload id other us h.1)
      (h.0, IsGone-remove_upload id other us h.1)

Keeps : ℕ → Desk → Desk → Type 0
Keeps id desk desk' =
    (desk'.rab_jobs ≡ desk.rab_jobs) × (IsGone id desk.uploads → IsGone id desk'.uploads)

clean_upload-Keeps : (id : ℕ) (job : ScanJob) (desk : Desk) → Keeps id desk (clean_upload job desk)
unfolding clean_upload Keeps without_upload
clean_upload-Keeps id job desk =
    if_both (Keeps id desk) (mentions interrupted_message job.errors) (go (rab_job job.job_id desk))
      (refl, λ h. h)
  where
    go : (row : Option RabJob) → Keeps id desk (without_upload job desk row)
    go none = (refl, λ h. h)
    go (some row) = (refl, IsGone-remove_upload id job.job_id desk.uploads)

clean_uploads-IsGone :
    (id : ℕ) (jobs : List ScanJob) (desk : Desk)
    → IsGone id desk.uploads
    → IsGone id (clean_uploads jobs desk).uploads
unfolding clean_uploads Keeps
clean_uploads-IsGone id [] desk h = h
clean_uploads-IsGone id (job ∷ jobs) desk h =
    clean_uploads-IsGone id jobs (clean_upload job desk) ((clean_upload-Keeps id job desk).1 h)

-- A job that was interrupted and has a row.
abbrev pub IsCleaned : Desk → ScanJob → Type 0
IsCleaned desk job =
    (mentions interrupted_message job.errors ≡ true)
    × ((row : RabJob) × (rab_job job.job_id desk ≡ some row))

-- No interrupted job with a row has an upload after the clean-up.
pub clean_uploads-IsCleaned :
    (jobs : List ScanJob) (desk : Desk)
    → All (λ job. IsCleaned desk job → IsGone job.job_id (clean_uploads jobs desk).uploads) jobs
unfolding clean_uploads clean_upload without_upload Keeps rab_job
clean_uploads-IsCleaned [] desk = tt
clean_uploads-IsCleaned (job ∷ jobs) desk =
    let gone : mentions interrupted_message job.errors ≡ true
        → (row : RabJob) → rab_job job.job_id desk ≡ some row
        → IsGone job.job_id (clean_upload job desk).uploads =
      λ said row found. rw (said, found) (remove_upload-IsGone job.job_id desk.uploads) in
    let here : IsCleaned desk job
        → IsGone job.job_id (clean_uploads jobs (clean_upload job desk)).uploads =
      λ (said, (row, found)).
        clean_uploads-IsGone job.job_id jobs (clean_upload job desk) (gone said row found) in
    (
      here,
      All-mono
          (λ other cleaned (said, (row, found)).
            cleaned (said, (row, rw (clean_upload-Keeps 0 job desk).0 found)))
          jobs (clean_uploads-IsCleaned jobs (clean_upload job desk)),
    )
