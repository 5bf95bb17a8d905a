-- ===== src/Protocol/Status.antt =====
-- `status` of src/avbox/protocol/service.py, and what it says of a new submission.
use avbox.Prelude.{ℕ, String, ◌≡◌, refl, ap, ◌∙◌, false, none, some, Result, ok}
use avbox.Models.Job.{JobStatus, queued}
use avbox.Jobs.{get}
use avbox.Protocol.Desk.{not_found, Failure, refuse, Desk, RabService, rab_job, AnalysisJobAccepted}
use avbox.Protocol.Submission.{Submission, row_of, artifact_of, submit_stream}
use avbox.Protocol.Submission.Outcome.{IsNew}
use avbox.Protocol.Submission.Retry.{first_row, same_answer, answered_new-IsEntered}

-- `AnalysisJobStatus`, its times left out.
pub record AnalysisJobStatus : Type 0 where
  pub job_id : ℕ
  pub object_sha256 : String
  pub profile : String
  pub state : JobStatus
  pub client_request_id : String

unfoldable pub status : ℕ → Desk → Result Failure AnalysisJobStatus
status id desk = elim (get id desk.store) [
  | none ↦ refuse 404 not_found
  | some job ↦ elim (rab_job id desk) [
    | none ↦ refuse 404 not_found
    | some row ↦ ok (record {
      job_id = job.job_id;
      object_sha256 = job.input_artifact.hashes.sha256;
      profile = row.profile;
      state = job.status;
      client_request_id = row.client_request_id;
    })
  ]
]

-- A submission that was answered as new can be asked for by the identifier in the answer: its status
-- gives back the profile and the request that were sent and the SHA-256 that was declared, and is
-- QUEUED.
pub submit_stream-status :
    (env : RabService) (s : Submission) (id : ℕ) (desk desk' : Desk) (a : AnalysisJobAccepted)
    → IsNew id desk
    → submit_stream env s id desk ≡ (ok a, desk')
    → a.duplicate ≡ false
    → status a.job_id desk'
      ≡ ok (record {
        job_id = id;
        object_sha256 = env.lower s.expected_sha256;
        profile = s.profile_id;
        state = queued;
        client_request_id = s.client_request_id;
      })
unfolding status rab_job row_of artifact_of get
submit_stream-status env s id desk desk' a fresh sent first =
    let (content, got, h) = answered_new-IsEntered env s id desk desk' a fresh sent first in
    let kept : rab_job id desk' ≡ some (row_of env s content id) =
      rw (rab_job, h.row) (first_row env s content id desk.rab_jobs).1 in
    let same : a ≡ _ = same_answer a _ h.answered in
    let named : a.job_id ≡ id = rw same in
    let asked : status id desk'
        ≡ ok (record {
          job_id = id;
          object_sha256 = env.lower s.expected_sha256;
          profile = s.profile_id;
          state = queued;
          client_request_id = s.client_request_id;
        }) =
      rw (status, h.stored, kept, h.identity, h.queued_as, h.input, got.declared) refl in
    ap (λ n. status n desk') named ∙ asked
