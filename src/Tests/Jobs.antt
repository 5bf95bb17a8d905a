-- ===== src/Tests/Jobs.antt =====
-- src/avbox/models/jobs.py and src/avbox/application/jobs.py on a small store.
use avbox.Prelude.{ℕ, ◌≤◌, String, ◌≡◌, refl, none, some, List, [], ◌∷◌, ok}
use avbox.Models.Verdict.{
  Verdict, clean, malicious, error, not_scanned, unknown, has, only_errors, aggregate_verdict,
  is_match,
}
use avbox.Models.Verdict.Aggregate.{any_match, aggregate_matches}
use avbox.Models.Job.{
  JobStatus, created, staged, queued, running, complete, failed, quarantined, is_allowed,
}
use avbox.Models.Job.Lifecycle.{History, here, move, History-ends}
use avbox.Models.Records.{InputArtifact, ScanJob}
use avbox.Jobs.{
  Store, find, get, is_interrupted, is_active, reconcile_one, reconcile_all, reconcile_interrupted,
  interrupted_message,
}
use avbox.Jobs.Refinement.{
  Request, save_job, move_job, restart, JobMap, StandsFor, perform_all, promise_all,
  perform_all-StandsFor,
}
use avbox.Jobs.Laws.{IsKeyed}
use avbox.Jobs.Reconcile.{recover, count_interrupted, reconcile_interrupted_lem}

abbrev mixed : List Verdict
mixed = clean ∷ error ∷ []

aggregate_matches_example :
    is_match (aggregate_verdict (clean ∷ malicious ∷ [])) ≡ any_match (clean ∷ malicious ∷ [])
aggregate_matches_example = aggregate_matches (clean ∷ malicious ∷ [])

-- An error beside a clean result is not reported as clean.
mixed_verdict : aggregate_verdict mixed ≡ unknown
unfolding aggregate_verdict has only_errors
mixed_verdict = refl

full-History : History created quarantined 5
unfolding is_allowed
full-History = move {t = staged} refl (
    move {t = queued} refl
      (move {t = running} refl (move {t = complete} refl (move {t = quarantined} refl here))))

History-ends_example : (5 ≤ 5) × (created ≡ quarantined → ◌≡◌ {A = ℕ} 5 0)
History-ends_example = History-ends full-History

abbrev pub sample_artifact : InputArtifact
sample_artifact = record {
  hashes = record { sha256 = "aa"; blake3 = "bb"; sha1 = "cc"; md5 = "dd" };
  byte_size = 3;
  filename = "object";
  submitted_filename = none;
  media_type = "application/octet-stream";
  source = "rab:client";
}

abbrev pub job_of : ℕ → String → JobStatus → ScanJob
job_of id source status = record {
  job_id = id;
  source = source;
  input_artifact = sample_artifact;
  requested_scanners = "clamav" ∷ [];
  applicable_scanners = "clamav" ∷ [];
  status = status;
  scanner_results = [];
  analyzer_results = [];
  derived_objects = [];
  relationships = [];
  completeness = "COMPLETE";
  root_verdict = none;
  normalized_verdict = not_scanned;
  raw_output_refs = [];
  preservation_decision = none;
  errors = [];
}

-- A job of the protocol that runs, one that is complete, and a local one that runs.
abbrev store : Store
store = record {
  jobs =
      job_of 1 "rab:client" running
      ∷ job_of 2 "rab:client" complete
      ∷ job_of 3 "local-cli" running
      ∷ [];
  scanner_runtime = [];
}

store-IsKeyed : IsKeyed store.jobs
unfolding find
store-IsKeyed = (refl, (refl, (refl, tt)))

reconcile_interrupted_lem_example :
    (n : ℕ) × (s' : Store) × (reconcile_interrupted store ≡ ok (n, s'))
    × IsKeyed s'.jobs
    × ((id : ℕ) → get id s' ≡ (elim (get id store) [ none ↦ none | some j ↦ some (recover j) ]))
    × (n ≡ count_interrupted store.jobs)
reconcile_interrupted_lem_example = reconcile_interrupted_lem store store-IsKeyed

abbrev failed_job : ScanJob
failed_job = record (job_of 1 "rab:client" failed) { errors = interrupted_message ∷ [] }

abbrev settled_store : Store
settled_store = record {
  jobs = failed_job ∷ job_of 2 "rab:client" complete ∷ job_of 3 "local-cli" running ∷ [];
  scanner_runtime = [];
}

reconcile-store : reconcile_interrupted store ≡ ok (1, settled_store)
unfolding reconcile_interrupted reconcile_all reconcile_one is_interrupted is_active is_allowed
reconcile-store = refl

abbrev requests : List Request
requests =
    move_job (job_of 3 "local-cli" running) complete
    ∷ restart
    ∷ save_job (job_of 4 "local-cli" running)
    ∷ []

abbrev initial : JobMap
initial id = get id store

perform_all-StandsFor_example :
    ((perform_all requests store).0 ≡ (promise_all requests initial).0)
    × IsKeyed (perform_all requests store).1.jobs
    × StandsFor (perform_all requests store).1 (promise_all requests initial).1
perform_all-StandsFor_example =
    perform_all-StandsFor requests store initial store-IsKeyed (λ id. refl)
