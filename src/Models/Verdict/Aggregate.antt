-- ===== src/Models/Verdict/Aggregate.antt =====
-- What the aggregate of several results says about them.
use avbox.Prelude.{ℕ, ◌≤◌, ◌≡◌, refl, ◌↔◌, Bool, true, false, ◌||◌, List, [], ◌∷◌, ◌++◌, arith}
use avbox.Models.Verdict.{
  Verdict, clean, malicious, suspicious, pua, error, has, aggregate_verdict, is_match,
}

-- Some verdict of a list is a match.
abbrev pub any_match : List Verdict → Bool
any_match vs = has malicious vs || (has pua vs || has suspicious vs)

-- How bad a verdict is, in the order in which matches win.
abbrev pub severity : Verdict → ℕ
severity malicious = 3
severity pua = 2
severity suspicious = 1
severity _ = 0

-- The aggregate is a match (MALICIOUS, PUA or SUSPICIOUS) exactly when some result is.
pub aggregate_matches : (vs : List Verdict) → is_match (aggregate_verdict vs) ≡ any_match vs
unfolding aggregate_verdict is_match
aggregate_matches vs = ground arith

-- The aggregate is CLEAN exactly when some result is, none is a match and none is an error.
pub aggregate_clean :
    (vs : List Verdict)
    → (aggregate_verdict vs ≡ clean)
      ↔ ((any_match vs ≡ false) × (has error vs ≡ false) × (has clean vs ≡ true))
unfolding aggregate_verdict
aggregate_clean vs = (λ h. ground arith, λ h. ground arith)

has-append : (v : Verdict) (xs ys : List Verdict) → has v (xs ++ ys) ≡ (has v xs || has v ys)
unfolding has
has-append v [] ys = refl
has-append v (x ∷ xs) ys = ground (arith, has-append v xs ys)

-- More results never make the aggregate less severe: a list that begins or ends with another has
-- an aggregate at least as severe.
pub severity_mono :
    (xs ys : List Verdict)
    → (severity (aggregate_verdict xs) ≤ severity (aggregate_verdict (xs ++ ys)))
      × (severity (aggregate_verdict ys) ≤ severity (aggregate_verdict (xs ++ ys)))
unfolding aggregate_verdict
severity_mono xs ys =
    ground (arith, has-append malicious xs ys, has-append pua xs ys, has-append suspicious xs ys)
