-- ===== src/Protocol/Desk.antt =====
-- The state of `RABService` of src/avbox/protocol/service.py, with the table `rab_jobs` of
-- src/avbox/application/jobs.py.
use avbox.Prelude.{
  str_eq, ℕ, String, Bool, true, false, ◌&&◌, ◌||◌, Option, none, some, List, [], ◌∷◌, ◌==◌,
  if◌then◌else◌, any, Result, ok, err,
}
use avbox.Prelude.Bytes.{Bytes}
use avbox.Models.Job.{JobStatus}
use avbox.Models.Records.{
  ScanJob, QualificationState, probed, qualified, Hashes, ScannerRuntimeStatus,
}
use avbox.Jobs.{Store, get, scanner_status}
use avbox.Effects.{Raised}
use avbox.Scanning.Scanners.{ScanService, ProbeResult}

-- The codes of the protocol's errors.
pub data ErrorCode : Type 0 where
  authentication_required forbidden invalid_request unsupported_profile object_too_large : ErrorCode
  object_hash_mismatch idempotency_conflict analyzer_unavailable queue_full not_found : ErrorCode
  storage_unavailable unsupported_protocol_version analysis_failed internal_error : ErrorCode

pub record RabProtocolError : Type 0 where
  pub status_code : ℕ
  pub code : ErrorCode

-- An error of the protocol, or another exception.
pub data Failure : Type 0 where
  protocol : RabProtocolError → Failure
  raised : Raised → Failure

abbrev pub refuse {ℓ} : {A : Type ℓ} → ℕ → ErrorCode → Result Failure A
refuse status code = err (protocol (record { status_code = status; code = code }))

pub record AnalysisProfile : Type 0 where
  pub id : String
  pub analyzers : List String
  pub enabled : Bool

-- A row of `rab_jobs`.
pub record RabJob : Type 0 where
  pub job_id : ℕ
  pub client_id : String
  pub client_request_id : String
  pub idempotency_key : String
  pub fingerprint : String
  pub profile : String

-- The tables, the queue with its oldest entry first, and the uploaded objects, each in the
-- directory of its job.
pub record Desk : Type 0 where
  pub store : Store
  pub rab_jobs : List RabJob
  pub queue : List ScanJob
  pub uploads : List (ℕ × Bytes)

-- The settings, and the code that is called: the scan service, the probes of its generic
-- analyzers, the digests of bytes and of texts, and functions on strings (`len`, `lower`, the label
-- that is left of a file name, a slice from the start).
pub record RabService : Type 0 where
  pub profile_map : String → Option AnalysisProfile
  pub maximum_upload_bytes : ℕ
  pub queue_capacity : ℕ
  pub scans : ScanService
  pub probe_generic : String → Option ProbeResult
  pub hashes : Bytes → Hashes
  pub sha256_text : String → String
  pub text_length : String → ℕ
  pub lower : String → String
  pub safe_label : String → Option String
  pub first_characters : ℕ → String → String

unfoldable pub is_key : String → String → RabJob → Bool
is_key client key row = str_eq row.client_id client && str_eq row.idempotency_key key

unfoldable pub find_row : (RabJob → Bool) → List RabJob → Option RabJob
find_row p [] = none
find_row p (r ∷ rs) = if p r then some r else find_row p rs

-- `rab_by_idempotency`
unfoldable pub rab_by_idempotency : String → String → Desk → Option RabJob
unfolding find_row
rab_by_idempotency client key desk = find_row (is_key client key) desk.rab_jobs

-- `rab_job`
unfoldable pub rab_job : ℕ → Desk → Option RabJob
unfolding find_row
rab_job id desk = find_row (λ r. r.job_id == id) desk.rab_jobs

abbrev pub integrity_error : Failure
integrity_error = raised (record { kind = "IntegrityError"; text = "UNIQUE constraint failed" })

-- `save_rab_job`: the table has one row for each job, and one for each client and key.
unfoldable pub save_rab_job : RabJob → Desk → Result Failure Desk
save_rab_job row desk =
    if any (λ r. r.job_id == row.job_id || is_key row.client_id row.idempotency_key r) desk.rab_jobs
    then err integrity_error
    else ok (record desk { rab_jobs = row ∷ desk.rab_jobs })

unfoldable pub is_ready : QualificationState → Bool
is_ready probed = true
is_ready qualified = true
is_ready _ = false

is_qualified : Option ScannerRuntimeStatus → Bool
is_qualified none = false
is_qualified (some s) = elim s.qualification_state [ qualified ↦ true | _ ↦ false ]

is_some {ℓ} : {A : Type ℓ} → Option A → Bool
is_some none = false
is_some (some _) = true

-- `_analyzer_available`
unfoldable pub analyzer_available : RabService → Store → String → Bool
unfolding is_qualified is_some
analyzer_available env store name =
    if str_eq name "rab-correlation"
    then is_some env.scans.correlation_service
    else if str_eq name "container"
    then is_some env.scans.recursive_analyzer
    else elim (env.probe_generic name) [
      | some probe ↦ probe.available && is_ready probe.state
      | none ↦ is_some (env.scans.adapters name) && is_qualified (scanner_status name store)
    ]

-- What `accepted` returns, its links and times left out.
pub record AnalysisJobAccepted : Type 0 where
  pub job_id : ℕ
  pub object_sha256 : String
  pub profile : String
  pub state : JobStatus
  pub duplicate : Bool

-- `accepted`
unfoldable pub accepted : ℕ → Bool → Desk → Result Failure AnalysisJobAccepted
accepted id duplicate desk = elim (get id desk.store) [
  | none ↦ refuse 404 not_found
  | some job ↦ elim (rab_job id desk) [
    | none ↦ refuse 404 not_found
    | some row ↦ ok (record {
      job_id = job.job_id;
      object_sha256 = job.input_artifact.hashes.sha256;
      profile = row.profile;
      state = job.status;
      duplicate = duplicate;
    })
  ]
]
