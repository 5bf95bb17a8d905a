-- ===== src/Tests/Scanning.antt =====
-- src/avbox/application/scanning.py on a small service.
use avbox.Prelude.{str_eq, ◌≡◌, refl, true, Option, none, some, [], if◌then◌else◌, ok}
use avbox.Models.Verdict.{malicious}
use avbox.Models.Job.{queued, complete}
use avbox.Models.Records.{probed}
use avbox.Scanning.Action.{Run, Action}
use avbox.Scanning.Scanners.{ScannerAdapter, ScanService}
use avbox.Scanning.Execute.{execute_queued}
use avbox.Scanning.Execute.Outcome.{IsFaithful, Executed, execute_queued_ends}
use avbox.Tests.Jobs.{job_of}

-- A scanner that finds a signature.
abbrev finder : ScannerAdapter
finder = record {
  probe =
      ok
        (record { available = true; detail = "/usr/bin/clamscan"; state = probed; version = none });
  prepare = λ id. ok (record { job_id = id; working_path = "staging" });
  run_prepared = λ w. ok (record {
    scanner_id = "clamav";
    native_verdict = "FOUND";
    normalized_verdict = malicious;
    detection_name = some "Eicar";
    raw_output_ref = "raw-output/1";
    engine_version = none;
    selected_reason = none;
    qualification_state = none;
  });
  cleanup = λ w. ok tt;
}

abbrev pub service : ScanService
service = record {
  adapters = λ name. if str_eq name "clamav" then some finder else none;
  generic_analyzers = λ name. none;
  recursive_analyzer = none;
  correlation_service = none;
  read_source = ok (3, "aa");
  admit = ok "aa";
  remove_staging = ok tt;
  upper = λ s. s;
}

pub service-IsFaithful : IsFaithful service
service-IsFaithful = record {
  recursive = λ id m e. absurd (nothing m e);
  correlation = λ id m e. absurd (nothing m e);
}
  where
    nothing : (m : Action (Unit {0})) → ◌≡◌ {A = Option (Action (Unit {0}))} none (some m) → ⊥
    nothing m e = cc

abbrev start : Run
start = record {
  job = job_of 7 "local-cli" queued;
  store = record { jobs = []; scanner_runtime = [] };
}

execute_queued_ends_example : Executed service (3, "aa") 7 (execute_queued service start)
execute_queued_ends_example = execute_queued_ends service start service-IsFaithful refl

abbrev done : Run
done = record start { job = job_of 7 "local-cli" complete }
