-- ===== src/Protocol/Submission/Outcome.antt =====
-- How a submission ends: refused, answered as a duplicate, or entered.
use avbox.Prelude.{
  str_eq, eq_iff, ℕ, ◌≤◌, ◌<◌, String, ◌≡◌, refl, ◌∙◌, ◌⊎◌, inl, inr, true, false, ◌||◌, none, some,
  List, [], ◌∷◌, ◌++◌, arith, leb, ◌==◌, leb→le, leb→lt, if◌then◌else◌, eq→==, Bool-cases,
  Option-cases, or_false, length, any, all, length-append, Result, ok, err,
}
use avbox.Prelude.Bytes.{Bytes}
use avbox.Models.Job.{queued}
use avbox.Models.Records.{ScanJob}
use avbox.Jobs.{get}
use avbox.Scanning.Action.{Run}
use avbox.Scanning.Scanners.{text_of}
use avbox.Scanning.Execute.Created.{IsCreated, create_queued-IsCreated}
use avbox.Protocol.Desk.{
  Failure, protocol, RabProtocolError, refuse, analyzer_unavailable, queue_full,
  idempotency_conflict, AnalysisProfile, RabJob, Desk, RabService, is_key, rab_by_idempotency,
  rab_job, save_rab_job, analyzer_available, AnalysisJobAccepted, accepted, find_row,
}
use avbox.Protocol.Submission.{
  Submission, fingerprint_of, artifact_of, row_of, put_nowait, enter, admit_new, admit,
  submit_stream,
}
use avbox.Protocol.Submission.Received.{
  IsReceived, IsProtocol, IsChecked, receive_submission-IsChecked,
}

abbrev pub Answer : Type 0
Answer = Result Failure AnalysisJobAccepted × Desk

-- The submission is refused with an error of the protocol, and nothing is changed.
unfoldable pub IsRefused : Desk → Answer → Type 0
IsRefused desk answer = (e : RabProtocolError) × (answer ≡ (err (protocol e), desk))

-- The key was used before for the same request: its job is the answer, and nothing is changed.
unfoldable pub IsDuplicate : RabService → Submission → Bytes → Desk → Answer → Type 0
IsDuplicate env s content desk answer =
    (row : RabJob) × (rab_by_idempotency s.client_id (env.sha256_text s.idempotency_key) desk
      ≡ some row)
    × (row.fingerprint ≡ fingerprint_of env s content)
    × (answer ≡ (accepted row.job_id true desk, desk))

-- There is a new job for the received bytes: it is stored and QUEUED, beside the jobs there were, it stands last in the queue,
-- which is not over its capacity, its row is in the table and no other row has the key, and its
-- object is kept.
pub record IsEntered (env : RabService) (s : Submission) (content : Bytes) (id : ℕ) (desk : Desk)
    (answer : Answer) : Type 0 where
  pub job : ScanJob
  pub queued_as : job.status ≡ queued
  pub identity : job.job_id ≡ id
  pub input : job.input_artifact ≡ artifact_of env s content
  pub stored : get id answer.1.store ≡ some job
  pub jobs : (k : ℕ) → get k answer.1.store ≡ (if id == k then some job else get k desk.store)
  pub row : answer.1.rab_jobs ≡ row_of env s content id ∷ desk.rab_jobs
  pub new : rab_by_idempotency s.client_id (env.sha256_text s.idempotency_key) desk ≡ none
  pub queue : answer.1.queue ≡ desk.queue ++ (job ∷ [])
  pub capacity : length answer.1.queue ≤ env.queue_capacity
  pub uploads : answer.1.uploads ≡ desk.uploads ++ ((id, content) ∷ [])
  pub answered :
      answer.0
      ≡ ok (record {
        job_id = id;
        object_sha256 = (env.hashes content).sha256;
        profile = s.profile_id;
        state = queued;
        duplicate = false;
      })

-- No row of the table has the identifier.
abbrev pub IsNew : ℕ → Desk → Type 0
IsNew id desk = any (λ r. r.job_id == id) desk.rab_jobs ≡ false

no_row_step :
    (id : ℕ) (client key : String) (r : RabJob) (rows : List RabJob)
    → find_row (is_key client key) (r ∷ rows) ≡ none
    → (find_row (is_key client key) rows ≡ none
        → any (λ r. r.job_id == id || is_key client key r) rows ≡ false)
    → (is_key client key r || any (λ r. r.job_id == id || is_key client key r) rows) ≡ false
unfolding find_row
no_row_step id client key r rows k next = elim (Bool-cases (is_key client key r)) [
  | inl e ↦ let h : some r ≡ none = rw e at k in absurd cc
  | inr e ↦ let h : find_row (is_key client key) rows ≡ none = rw e at k in rw e (next h)
]

no_row :
    (id : ℕ) (client key : String) (rows : List RabJob)
    → any (λ r. r.job_id == id) rows ≡ false
    → find_row (is_key client key) rows ≡ none
    → any (λ r. r.job_id == id || is_key client key r) rows ≡ false
unfolding find_row any
no_row id client key [] h k = refl
no_row id client key (r ∷ rows) h k =
    let (here, there) = or_false (r.job_id == id) _ h in
    rw (here) (no_row_step id client key r rows k (no_row id client key rows there))

entered_desk : RabService → Submission → Bytes → ℕ → Desk → Run → Desk
entered_desk env s content id desk r = record {
  store = r.store;
  rab_jobs = row_of env s content id ∷ desk.rab_jobs;
  queue = desk.queue ++ (r.job ∷ []);
  uploads = desk.uploads ++ ((id, content) ∷ []);
}

enter-IsEntered :
    (env : RabService) (s : Submission) (content : Bytes) (id : ℕ) (desk : Desk) (r : Run)
    → IsNew id desk
    → rab_by_idempotency s.client_id (env.sha256_text s.idempotency_key) desk ≡ none
    → length desk.queue < env.queue_capacity
    → IsCreated id (artifact_of env s content) desk.store r
    → IsEntered env s content id desk (enter env s content id desk (ok tt, r))
unfolding enter save_rab_job put_nowait accepted rab_job find_row rab_by_idempotency row_of
    artifact_of entered_desk
enter-IsEntered env s content id desk r fresh absent room c =
    let unique =
      no_row id s.client_id (env.sha256_text s.idempotency_key) desk.rab_jobs fresh absent in
    let free : leb env.queue_capacity (length desk.queue) ≡ false =
      elim (Bool-cases (leb env.queue_capacity (length desk.queue))) [
        | inl e ↦ absurd (omega (arith, leb→le _ _ e, room))
        | inr e ↦ e
      ] in
    let same = eq→== id id refl in
    let written = record desk { store = r.store; uploads = desk.uploads ++ ((id, content) ∷ []) } in
    let saved : save_rab_job (row_of env s content id) written
        ≡ ok (record written { rab_jobs = row_of env s content id ∷ desk.rab_jobs }) =
      rw (save_rab_job, unique) refl in
    let put : put_nowait env r.job
          (record written { rab_jobs = row_of env s content id ∷ desk.rab_jobs })
        ≡ ok (entered_desk env s content id desk r) =
      rw (put_nowait, free) refl in
    let told : accepted id false (entered_desk env s content id desk r)
        ≡ ok (record {
          job_id = r.job.job_id;
          object_sha256 = r.job.input_artifact.hashes.sha256;
          profile = s.profile_id;
          state = r.job.status;
          duplicate = false;
        }) =
      rw (accepted, c.stored, rab_job, find_row, same) refl in
    rw (enter, saved, put, told)
      (record {
        job = r.job;
        queued_as = c.status;
        identity = c.identity;
        input = c.input;
        stored = c.stored;
        jobs = c.rows;
        row = refl;
        new = absent;
        queue = refl;
        capacity = omega (arith, length-append desk.queue (r.job ∷ []));
        uploads = refl;
        answered = rw (c.identity, c.input) refl;
      })

-- The outcomes of a submission that reaches the lock with `content`.
IsAdmitted : RabService → Submission → Bytes → ℕ → Desk → Answer → Type 0
IsAdmitted env s content id desk answer =
    IsRefused desk answer
    ⊎ (IsDuplicate env s content desk answer ⊎ IsEntered env s content id desk answer)

admit_new-IsAdmitted :
    (env : RabService) (s : Submission) (profile : AnalysisProfile) (content : Bytes) (id : ℕ)
    (desk : Desk)
    → IsNew id desk
    → rab_by_idempotency s.client_id (env.sha256_text s.idempotency_key) desk ≡ none
    → IsAdmitted env s content id desk (admit_new env s profile content id desk)
unfolding IsAdmitted IsRefused admit_new
admit_new-IsAdmitted env s profile content id desk fresh absent =
    let source = text_of ("rab:" ∷ s.client_id ∷ []) in
    let (r, made, c) =
      create_queued-IsCreated env.scans id (artifact_of env s content) source profile.analyzers
        desk.store in
    elim (Bool-cases (all (analyzer_available env desk.store) profile.analyzers)) [
      | inr e ↦
          let same : admit_new env s profile content id desk
              ≡ (refuse 503 analyzer_unavailable, desk) =
            rw e refl in
          inl (_, same)
      | inl e ↦ elim (Bool-cases (leb env.queue_capacity (length desk.queue))) [
        | inl f ↦
            let same : admit_new env s profile content id desk ≡ (refuse 429 queue_full, desk) =
              rw (e, f) refl in
            inl (_, same)
        | inr f ↦
            let same : admit_new env s profile content id desk
                ≡ enter env s content id desk (ok tt, r) =
              rw (e, f, made) refl in
            inr (
              inr (rw same (enter-IsEntered env s content id desk r fresh absent (leb→lt _ _ f) c)))
      ]
    ]

admit-IsAdmitted :
    (env : RabService) (s : Submission) (profile : AnalysisProfile) (content : Bytes) (id : ℕ)
    (desk : Desk)
    → IsNew id desk
    → IsAdmitted env s content id desk (admit env s profile content id desk)
unfolding IsAdmitted IsRefused IsDuplicate admit
admit-IsAdmitted env s profile content id desk fresh =
    elim (Option-cases (rab_by_idempotency s.client_id (env.sha256_text s.idempotency_key) desk)) [
      | inl e ↦
          let same : admit env s profile content id desk ≡ admit_new env s profile content id desk =
            rw (admit, e) refl in
          rw same (admit_new-IsAdmitted env s profile content id desk fresh e)
      | inr (row, e) ↦ elim (Bool-cases (str_eq row.fingerprint (fingerprint_of env s content))) [
        | inl f ↦
            let same : admit env s profile content id desk ≡ (accepted row.job_id true desk, desk) =
              rw (admit, e, f) refl in
            inr (inl (row, e, (eq_iff row.fingerprint (fingerprint_of env s content)).0 f, same))
        | inr f ↦
            let same : admit env s profile content id desk
                ≡ (refuse 409 idempotency_conflict, desk) =
              rw (admit, e, f) refl in
            inl (_, same)
      ]
    ]

-- Every submission under a new identifier ends in one of three ways. It is refused with an error of
-- the protocol and nothing is changed; or its bytes, at most `maximum_upload_bytes` with the declared
-- SHA-256, came under a key of the same client that was used for the same request, whose job is
-- reported and nothing is changed; or for such bytes there is a new QUEUED job, stored, last in a
-- queue within its capacity, with the only row of its key, and the answer names it.
pub submit_stream-Ends :
    (env : RabService) (s : Submission) (id : ℕ) (desk : Desk)
    → IsNew id desk
    → IsRefused desk (submit_stream env s id desk)
      ⊎ ((content : Bytes) × IsReceived env s content
          × (IsDuplicate env s content desk (submit_stream env s id desk)
              ⊎ IsEntered env s content id desk (submit_stream env s id desk)))
unfolding submit_stream IsRefused IsProtocol IsChecked IsAdmitted
submit_stream-Ends env s id desk fresh = elim (receive_submission-IsChecked env s) [
  | inl (e, f) ↦
      let same : submit_stream env s id desk ≡ (err (protocol e), desk) =
        rw (submit_stream, f) refl in
      inl (e, same)
  | inr (p, c, f, got) ↦
      let same : submit_stream env s id desk ≡ admit env s p c id desk =
        rw (submit_stream, f) refl in
      elim (admit-IsAdmitted env s p c id desk fresh) [
        | inl (e, g) ↦ inl (e, same ∙ g)
        | inr h ↦ inr (c, got, rw same h)
      ]
]
