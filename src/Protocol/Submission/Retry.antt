-- ===== src/Protocol/Submission/Retry.antt =====
-- A submission that is sent again.
use avbox.Prelude.{
  str_eq, eq_iff, ℕ, String, ◌≡◌, refl, sym, ap, ◌∙◌, ◌≢◌, inl, inr, Bool, true, false, some, List,
  ◌∷◌, ◌==◌, eq→==, Option-cases, Result, ok, err,
}
use avbox.Prelude.Bytes.{Bytes}
use avbox.Jobs.{get}
use avbox.Protocol.Desk.{
  Failure, protocol, refuse, not_found, RabProtocolError, RabJob, Desk, RabService, is_key,
  rab_by_idempotency, rab_job, AnalysisJobAccepted, accepted, find_row,
}
use avbox.Protocol.Submission.{
  Submission, fingerprint_of, row_of, admit, submit_stream, artifact_of,
}
use avbox.Protocol.Submission.Received.{IsReceived}
use avbox.Protocol.Submission.Others.{Sends, IsKept, Sends-IsKept}
use avbox.Protocol.Submission.Outcome.{IsNew, IsEntered, IsRefused, IsDuplicate, submit_stream-Ends}

str_eq_refl : (t : String) → str_eq t t ≡ true
str_eq_refl t = (eq_iff t t).1 refl

abbrev answer : AnalysisJobAccepted → Result Failure AnalysisJobAccepted
answer a = ok a

abbrev refused : RabProtocolError → Result Failure AnalysisJobAccepted
refused e = err (protocol e)

bool_apart : true ≢ false
bool_apart h = cc

pub same_answer : (a b : AnalysisJobAccepted) → answer a ≡ answer b → a ≡ b
same_answer a b h = cc

accepted_duplicate :
    (id : ℕ) (d : Bool) (desk : Desk) (a : AnalysisJobAccepted)
    → accepted id d desk ≡ ok a
    → a.duplicate ≡ d
unfolding accepted
accepted_duplicate id d desk a h = elim (Option-cases (get id desk.store)) [
  | inl e ↦
      let no : refuse {A = AnalysisJobAccepted} 404 not_found ≡ ok a = rw (accepted, e) at h in
      absurd cc
  | inr (job, e) ↦ elim (Option-cases (rab_job id desk)) [
    | inl f ↦
        let no : refuse {A = AnalysisJobAccepted} 404 not_found ≡ ok a = rw (accepted, e, f) at h in
        absurd cc
    | inr (row, f) ↦
        let same : answer (record {
          job_id = job.job_id;
          object_sha256 = job.input_artifact.hashes.sha256;
          profile = row.profile;
          state = job.status;
          duplicate = d;
        })
            ≡ ok a =
          rw (accepted, e, f) at h in
        ap (λ x. x.duplicate) (same_answer a _ (sym same))
  ]
]

-- The row of the new job is found by its key and by its identifier.
pub first_row :
    (env : RabService) (s : Submission) (content : Bytes) (id : ℕ) (rows : List RabJob)
    → (find_row
          (is_key s.client_id (env.sha256_text s.idempotency_key))
          (row_of env s content id ∷ rows)
        ≡ some (row_of env s content id))
      × (find_row (λ r. r.job_id == id) (row_of env s content id ∷ rows)
          ≡ some (row_of env s content id))
unfolding find_row row_of is_key
first_row env s content id rows =
    let a = str_eq_refl s.client_id in
    let b = str_eq_refl (env.sha256_text s.idempotency_key) in
    let c = eq→== id id refl in (rw (a, b) refl, rw c refl)

-- The desk on which a job was entered has its row and the job.
entered-IsKept :
    (env : RabService) (s : Submission) (content : Bytes) (id : ℕ) (desk desk' : Desk)
    (a : AnalysisJobAccepted) (h : IsEntered env s content id desk (ok a, desk'))
    → IsKept env (row_of env s content id) h.job desk'
unfolding row_of rab_job rab_by_idempotency
entered-IsKept env s content id desk desk' a h =
    let (by_key, by_id) = first_row env s content id desk.rab_jobs in
    record { by_key = rw h.row by_key; by_id = rw h.row by_id; stored = h.stored }

entered_again :
    (env : RabService) (s : Submission) (content : Bytes) (id again : ℕ) (desk desk' later : Desk)
    (a : AnalysisJobAccepted) (h : IsEntered env s content id desk (ok a, desk'))
    → IsReceived env s content
    → IsKept env (row_of env s content id) h.job later
    → submit_stream env s again later ≡ (ok (record a { duplicate = true }), later)
unfolding row_of artifact_of submit_stream admit accepted
entered_again env s content id again desk desk' later a h got kept =
    let print = str_eq_refl (fingerprint_of env s content) in
    let same : a ≡ _ = same_answer a _ h.answered in
    let checked : submit_stream env s again later ≡ admit env s got.profile content again later =
      rw (submit_stream, got.checked) refl in
    let told : admit env s got.profile content again later ≡ (accepted id true later, later) =
      rw (admit, kept.by_key, print) refl in
    let said : accepted id true later ≡ ok (record a { duplicate = true }) =
      rw (accepted, kept.stored, kept.by_id, h.identity, h.queued_as, h.input, same) refl in
    checked ∙ (told ∙ ap (λ x. (x, later)) said)

-- What is answered as new was entered.
pub answered_new-IsEntered :
    (env : RabService) (s : Submission) (id : ℕ) (desk desk' : Desk) (a : AnalysisJobAccepted)
    → IsNew id desk
    → submit_stream env s id desk ≡ (ok a, desk')
    → a.duplicate ≡ false
    → (content : Bytes) × IsReceived env s content × IsEntered env s content id desk (ok a, desk')
unfolding IsRefused IsDuplicate
answered_new-IsEntered env s id desk desk' a fresh sent first =
    elim (submit_stream-Ends env s id desk fresh) [
      | inl (e, f) ↦ let no : refused e ≡ answer a = ap (λ x. x.0) (sym f ∙ sent) in absurd cc
      | inr (content, got, inl (row, e, f, g)) ↦
          let told : accepted row.job_id true desk ≡ ok a = ap (λ x. x.0) (sym g ∙ sent) in
          let is : a.duplicate ≡ true = accepted_duplicate row.job_id true desk a told in
          absurd (bool_apart (sym is ∙ first))
      | inr (content, got, inr h) ↦ (content, got, rw sent at h)
    ]

-- A submission that was entered as a new job and is sent again, after any number of submissions of
-- any clients but before anything else is done, is answered with the same job as a duplicate, and
-- nothing is changed, whatever identifier a new job would have. Each of the submissions between has
-- an identifier that no row has.
pub submit_stream_again :
    (env : RabService) (s : Submission) (id again : ℕ) (desk desk' later : Desk)
    (a : AnalysisJobAccepted)
    → IsNew id desk
    → submit_stream env s id desk ≡ (ok a, desk')
    → a.duplicate ≡ false
    → Sends env desk' later
    → submit_stream env s again later ≡ (ok (record a { duplicate = true }), later)
submit_stream_again env s id again desk desk' later a fresh sent first between =
    let (content, got, h) = answered_new-IsEntered env s id desk desk' a fresh sent first in
    entered_again env s content id again desk desk' later a h got (
      Sends-IsKept env (row_of env s content id) h.job desk' later between
        (entered-IsKept env s content id desk desk' a h))
