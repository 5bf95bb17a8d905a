-- ===== src/Jobs/Reconcile.antt =====
-- What a restart does to the jobs that it has interrupted.
use avbox.Prelude.{
  ℕ, suc, ◌+◌, ◌≡◌, refl, ◌∙◌, inl, inr, Option, none, some, List, [], ◌∷◌, ◌++◌, arith,
  if◌then◌else◌, Bool-cases, ok,
}
use avbox.Models.Job.{failed, is_allowed}
use avbox.Models.Records.{ScanJob}
use avbox.Jobs.{
  Store, find, save, get, move_to, is_active, is_interrupted, interrupted_message, reconcile_one,
  reconcile_all, reconcile_interrupted,
}
use avbox.Jobs.Laws.{IsKeyed, save_lem}

-- A job as the restart leaves it.
abbrev pub recover : ScanJob → ScanJob
recover job =
    if is_interrupted job
    then record job { errors = job.errors ++ interrupted_message ∷ []; status = failed }
    else job

-- How many of the jobs are interrupted.
abbrev pub count_interrupted : List ScanJob → ℕ
count_interrupted [] = 0
count_interrupted (j ∷ js) =
    let rest = count_interrupted js in if is_interrupted j then suc rest else rest

reconcile_one_lem :
    (job : ScanJob) (n : ℕ) (s : Store)
    → reconcile_one job (n, s)
      ≡ ok (if is_interrupted job then (n + 1, save (recover job) s) else (n, s))
unfolding reconcile_one is_interrupted is_active move_to is_allowed
reconcile_one_lem job n s = ground arith

-- What a job's row is after the loop: as the listed job recovers, or as it was.
abbrev after : Option ScanJob → Option ScanJob → Option ScanJob
after none old = old
after (some j) old = if is_interrupted j then some (recover j) else old

-- The loop over `jobs` ends well, and has done so to the store.
record Reconciled (jobs : List ScanJob) (n : ℕ) (s : Store) (n' : ℕ) (s' : Store) : Type 0 where
  keyed : IsKeyed s'.jobs
  rows : (id : ℕ) → get id s' ≡ after (find id jobs) (get id s)
  counted : n' ≡ n + count_interrupted jobs

reconcile_all_lem :
    (jobs : List ScanJob) (n : ℕ) (s : Store)
    → IsKeyed jobs
    → IsKeyed s.jobs
    → (n' : ℕ) × (s' : Store) × (reconcile_all jobs (n, s) ≡ ok (n', s'))
      × Reconciled jobs n s n' s'
unfolding reconcile_all find
reconcile_all_lem [] n s k h =
    (n, s, refl, record { keyed = h; rows = λ id. refl; counted = omega arith })
reconcile_all_lem (j ∷ js) n s k h = elim (Bool-cases (is_interrupted j)) [
  | inl hit ↦
      let saved = λ (id : ℕ). save_lem (recover j) s id h in
      let (n', s', runs, r) = reconcile_all_lem js (n + 1) (save (recover j) s) k.1 (saved 0).0 in
      (
        n',
        s',
        ground (arith, reconcile_one_lem j n s, runs),
        record {
          keyed = r.keyed;
          rows = λ id. ground (arith, r.rows id, (saved id).1, hit, k.0);
          counted = ground (arith, hit, r.counted);
        },
      )
  | inr miss ↦
      let (n', s', runs, r) = reconcile_all_lem js n s k.1 h in
      (
        n',
        s',
        ground (arith, reconcile_one_lem j n s, runs),
        record {
          keyed = r.keyed;
          rows = λ id. ground (arith, r.rows id, miss, k.0);
          counted = ground (arith, miss, r.counted);
        },
      )
]

after_self : (o : Option ScanJob) → after o o ≡ (elim o [ none ↦ none | some j ↦ some (recover j) ])
after_self none = refl
after_self (some j) = ground arith

-- On a store with one row for each job the start-up reconciliation raises nothing; the store keeps
-- one row for each job; a job whose source begins with "rab:" and whose status is STAGED, QUEUED or
-- RUNNING becomes FAILED with one more error, and every other row is as it was; and the count is
-- the number of the jobs that were changed.
pub reconcile_interrupted_lem :
    (s : Store)
    → IsKeyed s.jobs
    → (n : ℕ) × (s' : Store) × (reconcile_interrupted s ≡ ok (n, s'))
      × IsKeyed s'.jobs
      × ((id : ℕ) → get id s' ≡ (elim (get id s) [ none ↦ none | some j ↦ some (recover j) ]))
      × (n ≡ count_interrupted s.jobs)
unfolding reconcile_interrupted get
reconcile_interrupted_lem s h =
    let (n, s', runs, r) = reconcile_all_lem s.jobs 0 s h h in
    (n, s', runs, r.keyed, λ id. r.rows id ∙ after_self (find id s.jobs), omega (arith, r.counted))
