-- ===== src/Models/Verdict.antt =====
-- Verdicts (src/avbox/models/common.py) and their aggregate (`aggregate_verdict` of
-- src/avbox/application/scanning.py).
pub mod Aggregate
use avbox.Prelude.{
  str_eq, eq_iff, ℕ, zero, suc, ◌+◌, ◌-◌, ◌*◌, ◌/◌, ◌%◌, ◌^◌, ◌≤◌, ◌<◌, min, max, String, ◌≡◌, refl,
  sym, ap, ◌∙◌, fun_ext, ◌≢◌, ◌↔◌, ◌⊎◌, inl, inr, Bool, true, false, not, ◌&&◌, ◌||◌, Option, none,
  some, List, [], ◌∷◌, ◌++◌, map, arith, ltb, leb, ◌==◌, if◌then◌else◌, ltb→lt, ltb→le, leb→le,
  leb→lt, lt→ltb, le→leb, ==→eq, eq→==, ne→==, tests, Bool-cases, Option-cases, and_true, or_false,
  if_both, length, get_or, take, drop, replicate, All, any, all, select, length-append, append-nil,
  append_assoc, take-append-drop, length-take, length-drop, length-replicate, take-all, drop-nil,
  take-nil, drop-drop, take-append-take, All-append, All-take, length-map, is_member, Result, ok,
  err, ◌>>=◌, ◌>>◌, raise_if, Result-cases,
}

pub data Verdict : Type 0 where
  clean malicious suspicious pua error unsupported not_scanned unknown : Verdict

abbrev verdict_number : Verdict → ℕ
verdict_number clean = 0
verdict_number malicious = 1
verdict_number suspicious = 2
verdict_number pua = 3
verdict_number error = 4
verdict_number unsupported = 5
verdict_number not_scanned = 6
verdict_number unknown = 7

-- `v is w`
unfoldable pub is_verdict : Verdict → Verdict → Bool
is_verdict v w = verdict_number v == verdict_number w

-- `v in verdicts`
unfoldable pub has : Verdict → List Verdict → Bool
unfolding is_verdict
has v [] = false
has v (w ∷ ws) = is_verdict v w || has v ws

-- `verdicts == {Verdict.ERROR}` where ERROR is one of them.
unfoldable pub only_errors : List Verdict → Bool
only_errors [] = true
only_errors (w ∷ ws) = is_verdict error w && only_errors ws

-- The verdict of a scan, from those of its results.
unfoldable pub aggregate_verdict : List Verdict → Verdict
aggregate_verdict vs =
    if has malicious vs
    then malicious
    else if has pua vs
    then pua
    else if has suspicious vs
    then suspicious
    else if has error vs
    then (if only_errors vs then error else unknown)
    else if has clean vs
    then clean
    else if has unknown vs
    then unknown
    else if has unsupported vs
    then unsupported
    else not_scanned

-- `verdict in {MALICIOUS, SUSPICIOUS, PUA}`
unfoldable pub is_match : Verdict → Bool
is_match malicious = true
is_match suspicious = true
is_match pua = true
is_match _ = false
