-- ===== src/Models/Job/Lifecycle.antt =====
-- Every history of a job ends: no state is ever taken again.
use avbox.Prelude.{ℕ, suc, ◌+◌, ◌≤◌, ◌<◌, ◌≡◌, ap, true, arith}
use avbox.Models.Job.{
  JobStatus, created, staged, queued, running, complete, failed, quarantined, is_allowed,
}

-- A history from one state to another by so many allowed moves.
pub data History : JobStatus → JobStatus → ℕ → Type 0 where
  here : {s : JobStatus} → History s s 0
  move : {s t u : JobStatus} {n : ℕ} → is_allowed s t ≡ true → History t u n → History s u (suc n)

-- How far a job has come.
abbrev pub stage : JobStatus → ℕ
stage created = 0
stage staged = 1
stage queued = 2
stage running = 3
stage complete = 4
stage failed = 5
stage quarantined = 5

allowed_advances : (s t : JobStatus) → is_allowed s t ≡ true → stage s < stage t
unfolding is_allowed
allowed_advances s t h = ground arith

stage_bound : (s : JobStatus) → stage s ≤ 5
stage_bound s = ground arith

History-advances : {s t : JobStatus} {n : ℕ} → History s t n → stage s + n ≤ stage t
History-advances here = omega arith
History-advances (move {s = s} {t = t} h r) =
    omega (arith, allowed_advances s t h, History-advances r)

-- A history that ends in the state it began in has no move, and no history has more than five.
pub History-ends : {s t : JobStatus} {n : ℕ} → History s t n → (n ≤ 5) × (s ≡ t → n ≡ 0)
History-ends {s} {t} {n} h = (
  omega (arith, History-advances h, stage_bound t),
  λ e. let same : stage s ≡ stage t = ap stage e in omega (arith, History-advances h),
)
