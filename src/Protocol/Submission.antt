-- ===== src/Protocol/Submission.antt =====
-- `submit_stream` of src/avbox/protocol/service.py.
pub mod Received
pub mod Outcome
pub mod Others
pub mod Retry
use avbox.Prelude.{
  str_eq, eq_iff, str_append, ℕ, zero, suc, ◌+◌, ◌-◌, ◌*◌, ◌/◌, ◌%◌, ◌^◌, ◌≤◌, ◌<◌, min, max,
  String, ◌≡◌, refl, sym, ap, ◌∙◌, fun_ext, ◌≢◌, ◌↔◌, ◌⊎◌, inl, inr, Bool, true, false, not, ◌&&◌,
  ◌||◌, Option, none, some, List, [], ◌∷◌, ◌++◌, map, arith, ltb, leb, ◌==◌, if◌then◌else◌, ltb→lt,
  ltb→le, leb→le, leb→lt, lt→ltb, le→leb, ==→eq, eq→==, ne→==, tests, Bool-cases, Option-cases,
  and_true, or_false, if_both, length, get_or, take, drop, replicate, All, any, all, select,
  length-append, append-nil, append_assoc, take-append-drop, length-take, length-drop,
  length-replicate, take-all, drop-nil, take-nil, drop-drop, take-append-take, All-append, All-take,
  length-map, is_member, Result, ok, err, ◌>>=◌, ◌>>◌, raise_if, Result-cases,
}
use avbox.Prelude.Bytes.{Bytes}
use avbox.Models.Job.{JobStatus, queued}
use avbox.Models.Records.{ScanJob, InputArtifact}
use avbox.Jobs.{Store}
use avbox.Effects.{Raised}
use avbox.Scanning.Action.{Run}
use avbox.Scanning.Scanners.{text_of}
use avbox.Scanning.Execute.{create_queued}
use avbox.Protocol.Desk.{
  Failure, protocol, raised, refuse, invalid_request, unsupported_profile, object_too_large,
  object_hash_mismatch, idempotency_conflict, analyzer_unavailable, queue_full, AnalysisProfile,
  RabJob, Desk, RabService, rab_by_idempotency, save_rab_job, analyzer_available,
  AnalysisJobAccepted, accepted,
}

-- The arguments of `submit_stream`; `chunks` is what the stream gives, 1 MiB at most each.
pub record Submission : Type 0 where
  pub chunks : List Bytes
  pub client_id : String
  pub client_request_id : String
  pub idempotency_key : String
  pub profile_id : String
  pub expected_sha256 : String
  pub filename : Option String
  pub media_type : Option String

-- `not text or len(text) > 200`
unfoldable pub is_bad_key : RabService → String → Bool
is_bad_key env text = str_eq text "" || ltb 200 (env.text_length text)

-- The checks before any byte is read.
unfoldable pub check_request : RabService → Submission → Result Failure AnalysisProfile
check_request env s = elim (env.profile_map s.profile_id) [
  | none ↦ refuse 422 unsupported_profile
  | some profile ↦
      if not profile.enabled
      then refuse 422 unsupported_profile
      else if is_bad_key env s.idempotency_key
      then refuse 422 invalid_request
      else if is_bad_key env s.client_request_id
      then refuse 422 invalid_request
      else ok profile
]

-- The loop over the chunks, after `received`; an empty one ends it.
unfoldable pub receive : ℕ → List Bytes → Bytes → Result Failure Bytes
receive maximum [] received = ok received
receive maximum ([] ∷ chunks) received = ok received
receive maximum ((b ∷ bs) ∷ chunks) received =
    let rest = receive maximum chunks (received ++ (b ∷ bs)) in
    if ltb maximum (length received + length (b ∷ bs)) then refuse 413 object_too_large else rest

-- The declared digest is that of the received bytes.
unfoldable pub verify : RabService → Submission → Bytes → Result Failure (Unit {0})
verify env s content =
    if str_eq (env.hashes content).sha256 (env.lower s.expected_sha256)
    then ok tt
    else refuse 422 object_hash_mismatch

unfoldable pub fingerprint_of : RabService → Submission → Bytes → String
fingerprint_of env s content = env.sha256_text (
    text_of (
      s.client_id
      ∷ "\0"
      ∷ s.client_request_id
      ∷ "\0"
      ∷ s.profile_id
      ∷ "\0"
      ∷ (env.hashes content).sha256
      ∷ []))

abbrev or_default : Option String → String → String
or_default none text = text
or_default (some given) text = if str_eq given "" then text else given

label_of : RabService → Option String → String
label_of env none = "submitted-object"
label_of env (some name) = elim (env.safe_label name) [
  | none ↦ "submitted-object"
  | some label ↦ label
]

-- `filename[:1024] if filename else None`
submitted_of : RabService → Option String → Option String
submitted_of env none = none
submitted_of env (some name) =
    if str_eq name "" then none else some (env.first_characters 1024 name)

unfoldable pub artifact_of : RabService → Submission → Bytes → InputArtifact
unfolding label_of submitted_of
artifact_of env s content = record {
  hashes = env.hashes content;
  byte_size = length content;
  filename = label_of env s.filename;
  submitted_filename = submitted_of env s.filename;
  media_type = or_default s.media_type "application/octet-stream";
  source = text_of ("rab:" ∷ s.client_id ∷ []);
}

unfoldable pub row_of : RabService → Submission → Bytes → ℕ → RabJob
row_of env s content id = record {
  job_id = id;
  client_id = s.client_id;
  client_request_id = s.client_request_id;
  idempotency_key = env.sha256_text s.idempotency_key;
  fingerprint = fingerprint_of env s content;
  profile = s.profile_id;
}

-- `queue.put_nowait`
unfoldable pub put_nowait : RabService → ScanJob → Desk → Result Failure Desk
put_nowait env job desk =
    if leb env.queue_capacity (length desk.queue)
    then err (raised (record { kind = "Full"; text = "" }))
    else ok (record desk { queue = desk.queue ++ (job ∷ []) })

-- The job and its rows, once `create_queued` has ended with `run`; an exception leaves what was
-- written before it.
unfoldable pub enter :
    RabService
    → Submission
    → Bytes
    → ℕ
    → Desk
    → Result Raised (Unit {0}) × Run
    → Result Failure AnalysisJobAccepted × Desk
enter env s content id desk (err e, r) = (err (raised e), record desk { store = r.store })
enter env s content id desk (ok _, r) =
    let written = record desk { store = r.store; uploads = desk.uploads ++ ((id, content) ∷ []) } in
    elim (save_rab_job (row_of env s content id) written) [
      | err e ↦ (err e, written)
      | ok rows ↦ elim (put_nowait env r.job rows) [
        | err e ↦ (err e, rows)
        | ok entered ↦ elim (accepted id false entered) [
          | err e ↦ (err e, entered)
          | ok answer ↦ (ok (record answer { state = queued }), entered)
        ]
      ]
    ]

-- A key that the table does not have: the analyzers, the queue, and then the new job `id`.
unfoldable pub admit_new :
    RabService
    → Submission
    → AnalysisProfile
    → Bytes
    → ℕ
    → Desk
    → Result Failure AnalysisJobAccepted × Desk
admit_new env s profile content id desk =
    if not (all (analyzer_available env desk.store) profile.analyzers)
    then (refuse 503 analyzer_unavailable, desk)
    else if leb env.queue_capacity (length desk.queue)
    then (refuse 429 queue_full, desk)
    else enter env s content id desk (
        create_queued env.scans id (artifact_of env s content) (text_of ("rab:" ∷ s.client_id ∷ []))
          profile.analyzers desk.store)

-- What is done under the lock.
unfoldable pub admit :
    RabService
    → Submission
    → AnalysisProfile
    → Bytes
    → ℕ
    → Desk
    → Result Failure AnalysisJobAccepted × Desk
admit env s profile content id desk =
    elim (rab_by_idempotency s.client_id (env.sha256_text s.idempotency_key) desk) [
      | some existing ↦
          if str_eq existing.fingerprint (fingerprint_of env s content)
          then (accepted existing.job_id true desk, desk)
          else (refuse 409 idempotency_conflict, desk)
      | none ↦ admit_new env s profile content id desk
    ]

-- What is done before the lock is taken.
unfoldable pub receive_submission :
    RabService → Submission → Result Failure (AnalysisProfile × Bytes)
receive_submission env s = do
  profile ← check_request env s
  content ← receive env.maximum_upload_bytes s.chunks []
  verify env s content
  ok (profile, content)

-- `submit_stream`, with the identifier that a new job would have.
unfoldable pub submit_stream :
    RabService → Submission → ℕ → Desk → Result Failure AnalysisJobAccepted × Desk
submit_stream env s id desk = elim (receive_submission env s) [
  | err e ↦ (err e, desk)
  | ok (profile, content) ↦ admit env s profile content id desk
]
