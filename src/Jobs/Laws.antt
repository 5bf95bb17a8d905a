-- ===== src/Jobs/Laws.antt =====
-- The store answers with what was saved last, and a transition saves or changes nothing.
use avbox.Prelude.{ℕ, ◌≡◌, none, some, List, [], ◌∷◌, arith, ◌==◌, if◌then◌else◌, ok, err}
use avbox.Models.Job.{JobStatus, is_allowed}
use avbox.Models.Records.{ScanJob}
use avbox.Jobs.{Store, invalid_transition, without, find, save, get, transition}

pub find-without :
    (id j : ℕ) (jobs : List ScanJob)
    → find j (without id jobs) ≡ (if id == j then none else find j jobs)
unfolding find without
find-without id j [] = ground arith
find-without id j (x ∷ xs) = ground (arith, find-without id j xs)

-- No two jobs of a list have the same identifier.
abbrev pub IsKeyed : List ScanJob → Type 0
IsKeyed [] = Unit
IsKeyed (j ∷ js) = (find j.job_id js ≡ none) × IsKeyed js

without-IsKeyed : (id : ℕ) (jobs : List ScanJob) → IsKeyed jobs → IsKeyed (without id jobs)
unfolding without
without-IsKeyed id [] h = tt
without-IsKeyed id (j ∷ js) h =
    ground (arith, without-IsKeyed id js h.1, find-without id j.job_id js)

-- The store keeps one row for each job, and after `save` that of the saved job is its newest value
-- and those of the others are as they were.
pub save_lem :
    (job : ScanJob) (store : Store) (id : ℕ)
    → IsKeyed store.jobs
    → IsKeyed (save job store).jobs
      × (get id (save job store) ≡ (if job.job_id == id then some job else get id store))
unfolding save get find
save_lem job store id h = (
  (simp find-without (ground arith), without-IsKeyed job.job_id store.jobs h),
  ground (arith, find-without job.job_id id store.jobs),
)

-- A transition succeeds exactly when the table of transitions allows it; then it changes the status
-- alone and the store holds the moved job; otherwise it raises an error that names both states.
pub transition_exact :
    (job : ScanJob) (target : JobStatus) (store : Store)
    → let moved = record job { status = target } in
      transition job target store ≡ (
        if is_allowed job.status target
        then ok (moved, save moved store)
        else err (invalid_transition job.status target))
unfolding transition
transition_exact job target store = ground arith

pub save_self : (job : ScanJob) (store : Store) → get job.job_id (save job store) ≡ some job
unfolding save get find
save_self job store = ground arith
