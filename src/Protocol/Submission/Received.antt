-- ===== src/Protocol/Submission/Received.antt =====
-- What a submission has passed before the lock is taken.
use avbox.Prelude.{
  str_eq, eq_iff, ℕ, ◌+◌, ◌≤◌, ◌≡◌, refl, ◌⊎◌, inl, inr, not, List, [], ◌∷◌, ◌++◌, arith, ltb,
  ltb→le, Bool-cases, Option-cases, length, length-append, Result, ok, err,
}
use avbox.Prelude.Bytes.{Bytes}
use avbox.Protocol.Desk.{
  Failure, protocol, RabProtocolError, refuse, unsupported_profile, invalid_request,
  object_hash_mismatch, object_too_large, AnalysisProfile, RabService,
}
use avbox.Protocol.Submission.{
  Submission, is_bad_key, check_request, receive, verify, receive_submission,
}

-- The bytes that a submission is admitted with.
pub record IsReceived (env : RabService) (s : Submission) (content : Bytes) : Type 0 where
  pub profile : AnalysisProfile
  pub checked : receive_submission env s ≡ ok (profile, content)
  pub bounded : length content ≤ env.maximum_upload_bytes
  pub declared : (env.hashes content).sha256 ≡ env.lower s.expected_sha256

receive-bounded :
    (maximum : ℕ) (chunks : List Bytes) (received content : Bytes)
    → length received ≤ maximum
    → receive maximum chunks received ≡ ok content
    → length content ≤ maximum
unfolding receive
receive-bounded maximum [] received content h e = let same : content ≡ received = cc in rw same h
receive-bounded maximum ([] ∷ chunks) received content h e =
    let same : content ≡ received = cc in rw same h
receive-bounded maximum ((b ∷ bs) ∷ chunks) received content h e =
    elim (Bool-cases (ltb maximum (length received + length (b ∷ bs)))) [
      | inl f ↦
          let no : refuse {A = Bytes} 413 object_too_large ≡ ok content = rw f at e in absurd cc
      | inr f ↦
          let rest : receive maximum chunks (received ++ (b ∷ bs)) ≡ ok content = rw f at e in
          receive-bounded maximum chunks (received ++ (b ∷ bs)) content
            (omega (arith, ltb→le _ _ f, length-append received (b ∷ bs))) rest
    ]

unfoldable pub IsProtocol : {A : Type 0} → Result Failure A → Type 0
IsProtocol {A} r = (e : RabProtocolError) × (r ≡ err (protocol e))

-- What the part before the lock gives.
unfoldable pub IsChecked :
    RabService → Submission → Result Failure (AnalysisProfile × Bytes) → Type 0
IsChecked env s r =
    IsProtocol r ⊎ ((p : AnalysisProfile) × (c : Bytes) × (r ≡ ok (p, c)) × IsReceived env s c)

check_request-Ends :
    (env : RabService) (s : Submission)
    → IsProtocol (check_request env s) ⊎ ((p : AnalysisProfile) × (check_request env s ≡ ok p))
unfolding check_request IsProtocol
check_request-Ends env s = elim (Option-cases (env.profile_map s.profile_id)) [
  | inl e ↦
      inl (record { status_code = 422; code = unsupported_profile }, rw (check_request, e) refl)
  | inr (p, e) ↦ elim (Bool-cases (not p.enabled)) [
    | inl f ↦
        inl
          (record { status_code = 422; code = unsupported_profile }, rw (check_request, e, f) refl)
    | inr f ↦ elim (Bool-cases (is_bad_key env s.idempotency_key)) [
      | inl g ↦
          inl
            (record { status_code = 422; code = invalid_request }, rw (check_request, e, f, g) refl)
      | inr g ↦ elim (Bool-cases (is_bad_key env s.client_request_id)) [
        | inl h ↦ inl (
          record { status_code = 422; code = invalid_request },
          rw (check_request, e, f, g, h) refl,
        )
        | inr h ↦ inr (p, rw (check_request, e, f, g, h) refl)
      ]
    ]
  ]
]

receive-Ends :
    (maximum : ℕ) (chunks : List Bytes) (received : Bytes)
    → IsProtocol (receive maximum chunks received)
      ⊎ ((c : Bytes) × (receive maximum chunks received ≡ ok c))
unfolding receive IsProtocol
receive-Ends maximum [] received = inr (received, refl)
receive-Ends maximum ([] ∷ chunks) received = inr (received, refl)
receive-Ends maximum ((b ∷ bs) ∷ chunks) received =
    elim (Bool-cases (ltb maximum (length received + length (b ∷ bs)))) [
      | inl f ↦ inl (record { status_code = 413; code = object_too_large }, rw f refl)
      | inr f ↦ rw f (receive-Ends maximum chunks (received ++ (b ∷ bs)))
    ]

verify-Ends :
    (env : RabService) (s : Submission) (c : Bytes)
    → IsProtocol (verify env s c)
      ⊎ ((verify env s c ≡ ok tt) × ((env.hashes c).sha256 ≡ env.lower s.expected_sha256))
unfolding verify IsProtocol
verify-Ends env s c =
    elim (Bool-cases (str_eq (env.hashes c).sha256 (env.lower s.expected_sha256))) [
      | inl e ↦ inr (rw e refl, (eq_iff (env.hashes c).sha256 (env.lower s.expected_sha256)).0 e)
      | inr e ↦ inl (record { status_code = 422; code = object_hash_mismatch }, rw e refl)
    ]

pub receive_submission-IsChecked :
    (env : RabService) (s : Submission) → IsChecked env s (receive_submission env s)
unfolding IsChecked IsProtocol receive_submission
receive_submission-IsChecked env s = elim (check_request-Ends env s) [
  | inl (e, f) ↦ inl (e, rw f refl)
  | inr (p, f) ↦ elim (receive-Ends env.maximum_upload_bytes s.chunks []) [
    | inl (e, g) ↦ inl (e, rw (f, g) refl)
    | inr (c, g) ↦ elim (verify-Ends env s c) [
      | inl (e, h) ↦ inl (e, rw (f, g, h) refl)
      | inr (h, k) ↦ inr (
        p,
        c,
        rw (f, g, h) refl,
        record {
          profile = p;
          checked = rw (receive_submission, f, g, h) refl;
          bounded = receive-bounded env.maximum_upload_bytes s.chunks [] c (omega arith) g;
          declared = k;
        },
      )
    ]
  ]
]
