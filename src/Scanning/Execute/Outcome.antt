-- ===== src/Scanning/Execute/Outcome.antt =====
-- How an execution of a job ends.
use avbox.Prelude.{
  ℕ, String, ◌≡◌, refl, sym, ap, ◌∙◌, ◌≢◌, inl, inr, Bool, true, false, Option, none, some, List,
  arith, Bool-cases, Result, ok, err, Result-cases,
}
use avbox.Models.Verdict.{is_match}
use avbox.Models.Job.{JobStatus, queued, running, complete, failed, quarantined, is_allowed}
use avbox.Models.Records.{ScanJob}
use avbox.Jobs.{save, get, move_to}
use avbox.Jobs.Laws.{save_self}
use avbox.Scanning.Action.{Run, Action, on_job, on_store}
use avbox.Effects.{
  Raised, raise, lift, gets, ◌>>=◌, ◌>>◌, handle, try_except, finally, continue, after_finally,
}
use avbox.Effects.Keeps.{Keeps, Keeps-if, Keeps-then, Keeps-for_each, Keeps-pure}
use avbox.Scanning.Scanners.{ScanService, transition, add_error, scan_with}
use avbox.Scanning.Scanners.Running.{IsRunning, Keeps-on_job, scan_with-Keeps}
use avbox.Scanning.Execute.{
  analyze, recurse, optional, set_verdict, set_decision, settle, conclude, fail_job, clean_up,
  execute, execute_queued, is_changed, original_of, is_queued, not_queued,
}

-- What the recursive analysis and the correlation, where the service has them, are taken to do:
-- they leave the job's status and identifier alone.
pub record IsFaithful (env : ScanService) : Type 0 where
  pub recursive :
      (id : ℕ) (m : Action (Unit {0})) → env.recursive_analyzer ≡ some m → Keeps (IsRunning id) m
  pub correlation :
      (id : ℕ) (m : Action (Unit {0})) → env.correlation_service ≡ some m → Keeps (IsRunning id) m

module _ (id : ℕ) where
  recurse-Keeps :
      (env : ScanService) (requested : List String) (o : Option (Action (Unit {0})))
      → env.recursive_analyzer ≡ o
      → IsFaithful env
      → Keeps (IsRunning id) (recurse env requested)
  unfolding recurse
  recurse-Keeps env requested none e law = rw (e, recurse) (Keeps-pure tt)
  recurse-Keeps env requested (some m) e law =
      rw (e, recurse)
        (Keeps-if _ _ _
          (Keeps-then _ _ (law.recursive id m e)
            (Keeps-on_job id set_verdict (unfold set_verdict in λ job. (refl, refl))))
          (Keeps-pure tt))

  optional-Keeps :
      (b : Bool) (o : Option (Action (Unit {0})))
      → ((m : Action (Unit {0})) → o ≡ some m → Keeps (IsRunning id) m)
      → Keeps (IsRunning id) (optional b o)
  unfolding optional
  optional-Keeps b none h = Keeps-pure tt
  optional-Keeps b (some m) h = Keeps-if b _ _ (h m refl) (Keeps-pure tt)

  analyze-Keeps :
      (env : ScanService) (requested : List String)
      → IsFaithful env
      → Keeps (IsRunning id) (analyze env requested)
  unfolding analyze
  analyze-Keeps env requested law =
      Keeps-then _ _ (Keeps-for_each requested (scan_with env) (scan_with-Keeps id env)) (
        Keeps-then _ _ (Keeps-on_job id _ (λ job. (refl, refl))) (
          Keeps-then _ _ (recurse-Keeps env requested env.recursive_analyzer refl law)
            (optional-Keeps _ env.correlation_service (law.correlation id))))

-- The source is read at the end, and is as it was when it was hashed.
abbrev pub IsUnchanged : ScanService → ℕ × String → Type 0
IsUnchanged env original =
    (now : ℕ × String) × (env.read_source ≡ ok now) × (is_changed now original ≡ false)

-- The three ends of a job.
pub data Ending (env : ScanService) (original : ℕ × String) (job : ScanJob) : Type 0 where
  completed :
      job.status ≡ complete
      → is_match job.normalized_verdict ≡ false
      → IsUnchanged env original
      → Ending env original job
  admitted :
      job.status ≡ quarantined
      → is_match job.normalized_verdict ≡ true
      → IsUnchanged env original
      → (name : String) × (env.admit ≡ ok name)
      → Ending env original job
  failing : job.status ≡ failed → Ending env original job

-- What the end of the `try` block comes to: an ending, or an exception from a job that still runs.
abbrev Concluded : ScanService → ℕ × String → ℕ → Result Raised (Unit {0}) × Run → Type 0
Concluded env original id (ok _, r) = (r.job.job_id ≡ id) × Ending env original r.job
Concluded env original id (err e, r) = IsRunning id r

-- The moved job, saved.
abbrev arrive : JobStatus → Run → Run
arrive target r =
    let job = record r.job { status = target } in record { job = job; store = save job r.store }

transition_ok :
    (target : JobStatus) (r : Run)
    → r.job.status ≡ running
    → is_allowed running target ≡ true
    → transition target r ≡ (ok tt, arrive target r)
unfolding transition move_to
transition_ok target r h allowed =
    let e : is_allowed r.job.status target ≡ true = rw h allowed in rw (e, transition)

transition_start :
    (r : Run) → r.job.status ≡ queued → transition running r ≡ (ok tt, arrive running r)
unfolding transition move_to is_allowed
transition_start r h = rw (h, transition)

abbrev decided : String → Run → Run
decided text r = record r { job = record r.job { preservation_decision = some text } }

decide_ok :
    (text : String) (target : JobStatus) (r : Run)
    → r.job.status ≡ running
    → is_allowed running target ≡ true
    → (on_job (set_decision text) >> transition target) r ≡ (ok tt, arrive target (decided text r))
unfolding on_job set_decision ◌>>◌
decide_ok text target r h allowed = transition_ok target (decided text r) h allowed

module _ (env : ScanService) (original : ℕ × String) (id : ℕ) where
  settle-Concluded :
      (r : Run)
      → IsRunning id r
      → IsUnchanged env original
      → Concluded env original id (settle env r.job.normalized_verdict r)
  unfolding settle lift ◌>>=◌
  settle-Concluded r h same = elim (Bool-cases (is_match r.job.normalized_verdict)) [
    | inr harmless ↦
        rw
          (
            harmless,
            decide_ok "transient-bytes-removed" complete r h.status (unfold is_allowed in refl),
          )
          (h.same, completed refl harmless same)
    | inl matched ↦ elim (Result-cases env.admit) [
      | inr (e, refused) ↦ rw (matched, refused) h
      | inl (name, admission) ↦
          rw (matched, admission, decide_ok _ quarantined r h.status (unfold is_allowed in refl))
            (h.same, admitted refl matched same (name, admission))
    ]
  ]

  conclude-Concluded :
      (r : Run) → IsRunning id r → Concluded env original id (conclude env original r)
  unfolding conclude settle lift gets raise ◌>>=◌
  conclude-Concluded r h = elim (Result-cases env.read_source) [
    | inr (e, unread) ↦ rw unread h
    | inl (now, reading) ↦ elim (Bool-cases (is_changed now original)) [
      | inl changed ↦ rw (reading, changed) h
      | inr same ↦ rw (reading, same) (settle-Concluded r h (now, reading, same))
    ]
  ]

  continue-Concluded :
      (x : Result Raised (Unit {0})) (r : Run)
      → IsRunning id r
      → Concluded env original id (continue (λ _. conclude env original) x r)
  unfolding continue
  continue-Concluded (ok _) r h = conclude-Concluded r h
  continue-Concluded (err e) r h = h

  -- After the handler of the `try` block there is no exception left.
  abbrev Handled : Result Raised (Unit {0}) × Run → Type 0
  Handled (ok _, r) = (r.job.job_id ≡ id) × Ending env original r.job
  Handled (err e, r) = ⊥

  fail_job-Handled : (e : Raised) (r : Run) → IsRunning id r → Handled (fail_job e r)
  unfolding fail_job on_job ◌>>◌
  fail_job-Handled e r h =
      rw
        (transition_ok failed (record r { job = add_error e.text r.job }) h.status
          (unfold is_allowed in refl))
        (h.same, failing refl)

  handle-Handled :
      (x : Result Raised (Unit {0})) (r : Run)
      → Concluded env original id (x, r)
      → Handled (handle fail_job x r)
  unfolding handle
  handle-Handled (ok _) r h = h
  handle-Handled (err e) r h = fail_job-Handled e r h

  try-Handled :
      (requested : List String) (r : Run)
      → IsFaithful env
      → IsRunning id r
      → Handled (try_except (analyze env requested >> conclude env original) fail_job r)
  unfolding try_except ◌>>◌
  try-Handled requested r law h =
      let (x, r') = analyze env requested r in
      let (y, r'') = continue (λ _. conclude env original) x r' in
      handle-Handled y r'' (continue-Concluded x r' ((analyze-Keeps id env requested law).at r h))

-- The whole of an execution: how the job ended, and what the store holds of it.
abbrev pub Executed : ScanService → ℕ × String → ℕ → Result Raised (Unit {0}) × Run → Type 0
Executed env original id (x, r) =
    (r.job.job_id ≡ id)
    × Ending env original r.job
    × (x ≡ env.remove_staging)
    × (x ≡ ok tt → get id r.store ≡ some r.job)

clean_up-Executed :
    (env : ScanService) (original : ℕ × String) (id : ℕ) (x y : Result Raised (Unit {0})) (r : Run)
    → Handled env original id (x, r)
    → let (z, r') = clean_up y r in
      (r'.job.job_id ≡ id)
      × Ending env original r'.job
      × (after_finally x z ≡ y)
      × (after_finally x z ≡ ok tt → get id r'.store ≡ some r'.job)
unfolding clean_up lift on_store after_finally ◌>>◌
clean_up-Executed env original id (err e) y r h = absurd h
clean_up-Executed env original id (ok u) (err e) r h = (h.0, h.1, refl, λ k. cc)
clean_up-Executed env original id (ok u) (ok v) r h =
    (h.0, h.1, refl, λ k. ap (λ n. get n (save r.job r.store)) (sym h.0) ∙ save_self r.job r.store)

-- A QUEUED job that is executed always ends: COMPLETE, only if its verdict is no match and the
-- source was read back as it was; QUARANTINED, only if its verdict is a match, the source was read
-- back as it was and the admission succeeded; or else FAILED. The identifier stays, the execution
-- raises only what the removal of the staging directory raises, and where it raises nothing the
-- store holds the job as it ended. The recursive analysis and the correlation are taken to leave
-- the job's status and identifier alone.
pub execute_queued_ends :
    (env : ScanService) (r : Run)
    → IsFaithful env
    → r.job.status ≡ queued
    → Executed env (original_of r.job.input_artifact) r.job.job_id (execute_queued env r)
unfolding execute_queued execute finally ◌>>◌
execute_queued_ends env r law h =
    let original = original_of r.job.input_artifact in
    let requested = r.job.requested_scanners in
    let started : transition running r ≡ (ok tt, arrive running r) = transition_start r h in
    let (x, r') =
      try_except (analyze env requested >> conclude env original) fail_job (arrive running r) in
    let ended = clean_up-Executed env original r.job.job_id x env.remove_staging r' (
      try-Handled env original r.job.job_id requested (arrive running r) law
        (record { status = refl; same = refl })) in
    let q : is_queued r.job.status ≡ true = ap is_queued h in
    rw (q, execute_queued) (rw started ended)

-- A job that is not QUEUED is not executed: the call raises and changes neither the job nor the
-- store.
pub execute_queued_refuses :
    (env : ScanService) (r : Run)
    → r.job.status ≢ queued
    → execute_queued env r ≡ (err not_queued, r)
unfolding execute_queued
execute_queued_refuses env r h = ground arith
