-- ===== src/Tests/Protocol.antt =====
-- src/avbox/protocol/service.py on a small service.
use avbox.Prelude.{
  str_eq, String, ◌≡◌, refl, ◌⊎◌, true, false, none, some, List, [], ◌∷◌, arith, ◌==◌,
  if◌then◌else◌, All, any, all, ok,
}
use avbox.Prelude.Bytes.{Bytes}
use avbox.Models.Job.{queued}
use avbox.Models.Records.{Hashes, probed}
use avbox.Scanning.Scanners.{ScanService}
use text.Mathlib.Text.{starts_with}
use avbox.Protocol.Worker.{work}
use avbox.Protocol.Worker.Settled.{IsSettled, work-IsSettled}
use avbox.Tests.Jobs.{job_of}
use avbox.Tests.Scanning.{service-IsFaithful}
use avbox.Protocol.Shutdown.{shutdown, dropped, Distinct, shutdown_lem}
use avbox.Models.Records.{ScanJob}
use avbox.Jobs.{get}
use avbox.Protocol.Credentials.{Credential, RabClient, matches, find_client, authenticate}
use avbox.Protocol.Credentials.Granted.{IsGranted, authenticate-IsGranted}
use avbox.Protocol.Desk.{
  rab_by_idempotency, analyzer_available, is_ready, save_rab_job, accepted, find_row, is_key,
  rab_job, AnalysisProfile, Desk, RabService, AnalysisJobAccepted,
}
use avbox.Protocol.Submission.{
  Submission, submit_stream, receive_submission, check_request, is_bad_key, receive, verify, admit,
  admit_new, enter, artifact_of, fingerprint_of, put_nowait, row_of,
}
use avbox.Effects
use avbox.Scanning.Scanners
use avbox.Jobs
use avbox.Models.Job.{is_allowed}
use avbox.Scanning.Execute.{create_queued, new_job, is_known}
use avbox.Protocol.Submission.Received.{IsReceived}
use avbox.Protocol.Submission.Outcome.{IsNew, IsRefused, IsDuplicate, IsEntered, submit_stream-Ends}
use avbox.Protocol.Status.{status, submit_stream-status}
use avbox.Protocol.Submission.Others.{no_more, sends}
use avbox.Protocol.Submission.Retry.{submit_stream_again}
use avbox.Tests.Scanning.{service}

abbrev digests : Bytes → Hashes
digests content = record { sha256 = "aa"; blake3 = "bb"; sha1 = "cc"; md5 = "dd" }

abbrev profile : AnalysisProfile
profile = record { id = "generic"; analyzers = "static" ∷ []; enabled = true }

abbrev rab : RabService
rab = record {
  profile_map = λ id. if str_eq id "generic@1" then some profile else none;
  maximum_upload_bytes = 8;
  queue_capacity = 2;
  scans = service;
  probe_generic =
      λ name. some (record { available = true; detail = ""; state = probed; version = none });
  hashes = digests;
  sha256_text = λ text. text;
  text_length = λ text. 3;
  lower = λ text. text;
  safe_label = λ text. some text;
  first_characters = λ n text. text;
}

abbrev submission : Submission
submission = record {
  chunks = (1 ∷ 2 ∷ []) ∷ (3 ∷ []) ∷ [];
  client_id = "archive";
  client_request_id = "r-1";
  idempotency_key = "k-1";
  profile_id = "generic@1";
  expected_sha256 = "aa";
  filename = some "disk.adf";
  media_type = none;
}

abbrev empty_desk : Desk
empty_desk = record {
  store = record { jobs = []; scanner_runtime = [] };
  rab_jobs = [];
  queue = [];
  uploads = [];
}

empty_desk-IsNew : IsNew 1 empty_desk
unfolding any
empty_desk-IsNew = refl

submit_stream-Ends_example :
    IsRefused empty_desk (submit_stream rab submission 1 empty_desk)
    ⊎ ((content : Bytes) × IsReceived rab submission content
        × (IsDuplicate rab submission content empty_desk (submit_stream rab submission 1 empty_desk)
            ⊎ IsEntered rab submission content 1 empty_desk
                (submit_stream rab submission 1 empty_desk)))
submit_stream-Ends_example = submit_stream-Ends rab submission 1 empty_desk empty_desk-IsNew

abbrev first_answer : AnalysisJobAccepted
first_answer = record {
  job_id = 1;
  object_sha256 = "aa";
  profile = "generic@1";
  state = queued;
  duplicate = false;
}

abbrev full_desk : Desk
full_desk = (submit_stream rab submission 1 empty_desk).1

submitted : submit_stream rab submission 1 empty_desk ≡ (ok first_answer, full_desk)
unfolding submit_stream receive_submission check_request is_bad_key receive verify admit
    rab_by_idempotency admit_new all analyzer_available is_ready enter create_queued new_job
    is_known Effects.◌>>◌ Effects.◌>>=◌ Effects.continue Scanners.transition is_allowed save_rab_job
    Jobs.find Jobs.get Jobs.move_to Jobs.save Jobs.without any accepted find_row is_key rab_job
    artifact_of fingerprint_of put_nowait row_of
submitted = refl

abbrev second : Submission
second = record submission { client_id = "museum"; client_request_id = "r-2" }

abbrev other_answer : AnalysisJobAccepted
other_answer = record first_answer { job_id = 2 }

abbrev fuller_desk : Desk
fuller_desk = (submit_stream rab second 2 full_desk).1

other_submitted : (submit_stream rab second 2 full_desk).0 ≡ ok other_answer
unfolding submit_stream receive_submission check_request is_bad_key receive verify admit
    rab_by_idempotency admit_new all analyzer_available is_ready enter create_queued new_job
    is_known Effects.◌>>◌ Effects.◌>>=◌ Effects.continue Scanners.transition is_allowed save_rab_job
    Jobs.find Jobs.get Jobs.move_to Jobs.save Jobs.without any accepted find_row is_key rab_job
    artifact_of fingerprint_of put_nowait row_of
other_submitted = refl

full_desk-IsNew : IsNew 2 full_desk
unfolding submit_stream receive_submission check_request is_bad_key receive verify admit
    rab_by_idempotency admit_new all analyzer_available is_ready enter create_queued new_job
    is_known Effects.◌>>◌ Effects.◌>>=◌ Effects.continue Scanners.transition is_allowed save_rab_job
    Jobs.find Jobs.get Jobs.move_to Jobs.save Jobs.without any accepted find_row is_key rab_job
    artifact_of fingerprint_of put_nowait row_of
full_desk-IsNew = refl

submit_stream_again_example :
    submit_stream rab submission 3 fuller_desk
    ≡ (ok (record first_answer { duplicate = true }), fuller_desk)
submit_stream_again_example =
    submit_stream_again rab submission 1 3 empty_desk full_desk fuller_desk first_answer
      empty_desk-IsNew submitted refl (sends second 2 full_desk-IsNew no_more)

submit_stream-status_example :
    status first_answer.job_id full_desk
    ≡ ok (record {
      job_id = 1;
      object_sha256 = rab.lower submission.expected_sha256;
      profile = submission.profile_id;
      state = queued;
      client_request_id = submission.client_request_id;
    })
submit_stream-status_example =
    submit_stream-status rab submission 1 empty_desk full_desk first_answer empty_desk-IsNew
      submitted refl

abbrev reader : Credential
reader = record { token = "s3cret"; client_id = "archive"; scopes = "read" ∷ "submit" ∷ [] }

abbrev other : Credential
other = record { token = ""; client_id = "other"; scopes = "submit" ∷ [] }

-- `removeprefix("Bearer ")` on the one header of this test.
abbrev without_bearer : String → String
without_bearer text = if str_eq text "Bearer s3cret" then "s3cret" else text

abbrev archive_client : RabClient
archive_client = record { client_id = "archive"; scopes = "read" ∷ "submit" ∷ [] }

let_in :
    authenticate without_bearer (some (other ∷ reader ∷ [])) (some "Bearer s3cret") "submit"
    ≡ ok archive_client
unfolding authenticate find_client matches any
let_in = refl

authenticate-IsGranted_example :
    (header : String) × (listed : List Credential) × (some "Bearer s3cret" ≡ some header)
    × (some (other ∷ reader ∷ []) ≡ some listed)
    × (starts_with header "Bearer " ≡ true)
    × IsGranted (without_bearer header) "submit" listed archive_client
authenticate-IsGranted_example =
    authenticate-IsGranted without_bearer (some (other ∷ reader ∷ [])) (some "Bearer s3cret")
      "submit" archive_client let_in

abbrev busy_desk : Desk
busy_desk = record {
  store = record { jobs = []; scanner_runtime = [] };
  rab_jobs = [];
  queue = job_of 7 "rab:archive" queued ∷ job_of 8 "rab:archive" queued ∷ [];
  uploads = (7, 1 ∷ []) ∷ (8, 2 ∷ []) ∷ [];
}

work-IsSettled_example :
    IsSettled service
      (job_of 7 "rab:archive" queued)
      (job_of 8 "rab:archive" queued ∷ [])
      (work (λ job. service) busy_desk)
work-IsSettled_example =
    work-IsSettled (λ job. service) (job_of 7 "rab:archive" queued)
      (job_of 8 "rab:archive" queued ∷ []) busy_desk refl service-IsFaithful refl refl

busy_desk-Distinct : Distinct busy_desk.queue
busy_desk-Distinct = ((omega arith, tt), (tt, tt))

shutdown_lem_example :
    (desk' : Desk) × (shutdown busy_desk ≡ ok desk')
    × (desk'.queue ≡ [])
    × All (λ (job : ScanJob). get job.job_id desk'.store ≡ some (dropped job)) busy_desk.queue
    × All (λ (job : ScanJob). any (λ u. u.0 == job.job_id) desk'.uploads ≡ false) busy_desk.queue
shutdown_lem_example = shutdown_lem busy_desk (refl, (refl, tt)) busy_desk-Distinct
