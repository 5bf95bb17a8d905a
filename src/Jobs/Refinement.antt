-- ===== src/Jobs/Refinement.antt =====
-- What JobService promises: the table of jobs is a map from identifiers.
use avbox.Prelude.{
  ℕ, ◌≡◌, refl, sym, ap, ◌∙◌, inl, inr, Option, none, some, List, [], ◌∷◌, ◌==◌, if◌then◌else◌,
  Bool-cases, Result, ok, err,
}
use avbox.Models.Job.{JobStatus, is_allowed}
use avbox.Models.Records.{ScanJob}
use avbox.Jobs.{
  Store, InvalidTransition, invalid_transition, save, get, transition, reconcile_interrupted,
}
use avbox.Jobs.Laws.{IsKeyed, save_lem, transition_exact}
use avbox.Jobs.Reconcile.{recover, reconcile_interrupted_lem}

-- The calls that change the table.
pub data Request : Type 0 where
  save_job : ScanJob → Request
  move_job : ScanJob → JobStatus → Request
  restart : Request

abbrev pub Answer : Type 0
Answer = Result InvalidTransition (Unit {0})

unfoldable pub moved_store : Store → Result InvalidTransition (ScanJob × Store) → Answer × Store
moved_store store (ok (job, store')) = (ok tt, store')
moved_store store (err e) = (err e, store)

unfoldable pub restarted_store : Store → Result InvalidTransition (ℕ × Store) → Answer × Store
restarted_store store (ok (count, store')) = (ok tt, store')
restarted_store store (err e) = (err e, store)

-- A call of the service.
unfoldable pub perform : Request → Store → Answer × Store
perform (save_job job) store = (ok tt, save job store)
perform (move_job job target) store = moved_store store (transition job target store)
perform restart store = restarted_store store (reconcile_interrupted store)

unfoldable pub perform_all : List Request → Store → List Answer × Store
perform_all [] store = ([], store)
perform_all (r ∷ rs) store =
    let (answer, next) = perform r store in
    let (answers, last) = perform_all rs next in (answer ∷ answers, last)

-- The same on a map, which knows nothing of rows and their order.
abbrev pub JobMap : Type 0
JobMap = ℕ → Option ScanJob

abbrev pub updated : ScanJob → JobMap → JobMap
updated job jobs id = if job.job_id == id then some job else jobs id

abbrev pub recovered : Option ScanJob → Option ScanJob
recovered none = none
recovered (some job) = some (recover job)

unfoldable pub promise : Request → JobMap → Answer × JobMap
promise (save_job job) jobs = (ok tt, updated job jobs)
promise (move_job job target) jobs =
    if is_allowed job.status target
    then (ok tt, updated (record job { status = target }) jobs)
    else (err (invalid_transition job.status target), jobs)
promise restart jobs = (ok tt, λ id. recovered (jobs id))

unfoldable pub promise_all : List Request → JobMap → List Answer × JobMap
promise_all [] jobs = ([], jobs)
promise_all (r ∷ rs) jobs =
    let (answer, next) = promise r jobs in
    let (answers, last) = promise_all rs next in (answer ∷ answers, last)

-- The table stands for the map.
abbrev pub StandsFor : Store → JobMap → Type 0
StandsFor store jobs = (id : ℕ) → get id store ≡ jobs id

Simulates : Answer × Store → Answer × JobMap → Type 0
Simulates (answer, store) (answer', jobs) =
    (answer ≡ answer') × IsKeyed store.jobs × StandsFor store jobs

save-Simulates :
    (job : ScanJob) (store : Store) (jobs : JobMap)
    → IsKeyed store.jobs
    → StandsFor store jobs
    → IsKeyed (save job store).jobs × StandsFor (save job store) (updated job jobs)
save-Simulates job store jobs keyed same = (
  (save_lem job store 0 keyed).0,
  λ id.
      (save_lem job store id keyed).1
      ∙ ap (λ o. if job.job_id == id then some job else o) (same id),
)

perform-Simulates :
    (r : Request) (store : Store) (jobs : JobMap)
    → IsKeyed store.jobs
    → StandsFor store jobs
    → Simulates (perform r store) (promise r jobs)
unfolding perform promise Simulates moved_store restarted_store
perform-Simulates (save_job job) store jobs keyed same =
    let (kept, after) = save-Simulates job store jobs keyed same in (refl, kept, after)
perform-Simulates (move_job job target) store jobs keyed same =
    elim (Bool-cases (is_allowed job.status target)) [
      | inl fits ↦
          rw (transition_exact job target store, fits)
            (let (kept, after) =
                save-Simulates (record job { status = target }) store jobs keyed same in
              (refl, kept, after))
      | inr refused ↦ rw (transition_exact job target store, refused) (refl, keyed, same)
    ]
perform-Simulates restart store jobs keyed same =
    let (n, store', runs, keyed', rows, _) = reconcile_interrupted_lem store keyed in
    rw runs (refl, keyed', λ id. rows id ∙ go (get id store) (jobs id) (same id))
  where
    go :
        (o p : Option ScanJob)
        → o ≡ p
        → (elim o [ none ↦ none | some j ↦ some (recover j) ]) ≡ recovered p
    go none p e = rw (sym e)
    go (some j) p e = rw (sym e)

-- From a table with one row for each job, any sequence of saves, moves and restarts gives the answers
-- that a map of jobs would give, and leaves a table with one row for each job, which reads like that
-- map.
pub perform_all-StandsFor :
    (requests : List Request) (store : Store) (jobs : JobMap)
    → IsKeyed store.jobs
    → StandsFor store jobs
    → ((perform_all requests store).0 ≡ (promise_all requests jobs).0)
      × IsKeyed (perform_all requests store).1.jobs
      × StandsFor (perform_all requests store).1 (promise_all requests jobs).1
unfolding perform_all promise_all Simulates
perform_all-StandsFor [] store jobs keyed same = (refl, keyed, same)
perform_all-StandsFor (r ∷ rs) store jobs keyed same =
    let (answer, keyed', same') = perform-Simulates r store jobs keyed same in
    let (answers, kept, rest) =
      perform_all-StandsFor rs (perform r store).1 (promise r jobs).1 keyed' same' in
    (rw (answer, answers), kept, rest)
