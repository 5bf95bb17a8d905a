-- ===== src/Protocol/Submission/Others.antt =====
-- What other submissions leave of a job that waits in the queue.
use avbox.Prelude.{
  str_eq, eq_iff, ℕ, ◌≡◌, sym, refl, ap, ◌∙◌, inl, inr, false, none, some, List, [], ◌∷◌, ◌==◌,
  ==→eq, Bool-cases, and_true, or_false, any,
}
use avbox.Models.Records.{ScanJob}
use avbox.Jobs.{get}
use avbox.Protocol.Desk.{RabJob, Desk, RabService, is_key, find_row, rab_by_idempotency, rab_job}
use avbox.Protocol.Submission.{Submission, row_of, submit_stream}
use avbox.Protocol.Submission.Outcome.{IsNew, IsEntered, IsRefused, IsDuplicate, submit_stream-Ends}

module _ (env : RabService) where
  -- Submissions of any clients, one after the other, each under an identifier that no row has.
  pub data Sends : Desk → Desk → Type 0 where
    no_more : {desk : Desk} → Sends desk desk
    sends :
        {desk later : Desk} (s : Submission) (id : ℕ)
        → IsNew id desk
        → Sends (submit_stream env s id desk).1 later
        → Sends desk later

  -- The row is found by its key and by its identifier, and the job is stored.
  pub record IsKept (row : RabJob) (job : ScanJob) (desk : Desk) : Type 0 where
    pub by_key : rab_by_idempotency row.client_id row.idempotency_key desk ≡ some row
    pub by_id : rab_job row.job_id desk ≡ some row
    pub stored : get row.job_id desk.store ≡ some job

  none-missing :
      (id : ℕ) (rows : List RabJob)
      → any (λ r. r.job_id == id) rows ≡ false
      → find_row (λ r. r.job_id == id) rows ≡ none
  unfolding find_row any
  none-missing id [] h = refl
  none-missing id (r ∷ rows) h =
      let (here, there) = or_false (r.job_id == id) _ h in rw here (none-missing id rows there)

  -- A new identifier is not that of a row in the table.
  new-apart :
      (row : RabJob) (job : ScanJob) (desk : Desk) (id : ℕ)
      → IsKept row job desk
      → IsNew id desk
      → (id == row.job_id) ≡ false
  unfolding rab_job
  new-apart row job desk id kept fresh = elim (Bool-cases (id == row.job_id)) [
    | inr e ↦ e
    | inl e ↦
        let same = ==→eq id row.job_id e in
        let missing : find_row (λ r. r.job_id == row.job_id) desk.rab_jobs ≡ none =
          ap (λ k. find_row (λ r. r.job_id == k) desk.rab_jobs) (sym same)
          ∙ none-missing id desk.rab_jobs fresh in
        let found = kept.by_id in absurd cc
  ]

  -- A new row has another key than a row in the table.
  key-apart :
      (row : RabJob) (job : ScanJob) (desk : Desk) (new : RabJob)
      → IsKept row job desk
      → rab_by_idempotency new.client_id new.idempotency_key desk ≡ none
      → is_key row.client_id row.idempotency_key new ≡ false
  unfolding is_key
  key-apart row job desk new kept absent =
      elim (Bool-cases (is_key row.client_id row.idempotency_key new)) [
        | inr e ↦ e
        | inl e ↦
            let (a, b) = and_true (str_eq new.client_id row.client_id) _ e in
            let client = (eq_iff new.client_id row.client_id).0 a in
            let key = (eq_iff new.idempotency_key row.idempotency_key).0 b in
            let missing : rab_by_idempotency row.client_id row.idempotency_key desk ≡ none =
              rw (client, key) at absent in
            let found = kept.by_key in absurd cc
      ]

  entered_beside-IsKept :
      (row : RabJob) (job : ScanJob) (desk : Desk) (s : Submission) (content : _) (id : ℕ)
      (answer : _)
      → IsNew id desk
      → IsKept row job desk
      → IsEntered env s content id desk answer
      → IsKept row job answer.1
  unfolding rab_by_idempotency rab_job find_row row_of
  entered_beside-IsKept row job desk s content id answer fresh kept h =
      let other = new-apart row job desk id kept fresh in
      let another = key-apart row job desk (row_of env s content id) kept h.new in
      record {
        by_key = rw (h.row, another) kept.by_key;
        by_id = rw (h.row, other) kept.by_id;
        stored = h.jobs row.job_id ∙ rw other kept.stored;
      }

  submit_stream-IsKept :
      (row : RabJob) (job : ScanJob) (desk : Desk) (s : Submission) (id : ℕ)
      → IsNew id desk
      → IsKept row job desk
      → IsKept row job (submit_stream env s id desk).1
  unfolding IsRefused IsDuplicate
  submit_stream-IsKept row job desk s id fresh kept =
      elim (submit_stream-Ends env s id desk fresh) [
        | inl (e, same) ↦ rw same kept
        | inr (content, got, inl (found, e, f, same)) ↦ rw same kept
        | inr (content, got, inr h) ↦ entered_beside-IsKept row job desk s content id _ fresh kept h
      ]

  pub Sends-IsKept :
      (row : RabJob) (job : ScanJob) (desk later : Desk)
      → Sends desk later
      → IsKept row job desk
      → IsKept row job later
  Sends-IsKept row job desk later no_more kept = kept
  Sends-IsKept row job desk later (sends s id fresh rest) kept =
      Sends-IsKept row job _ later rest (submit_stream-IsKept row job desk s id fresh kept)
