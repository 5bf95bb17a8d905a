-- ===== src/Models/Job.antt =====
-- src/avbox/models/jobs.py: the states of a job and the moves that are allowed between them.
pub mod Lifecycle
use avbox.Prelude.{
  str_eq, eq_iff, ℕ, zero, suc, ◌+◌, ◌-◌, ◌*◌, ◌/◌, ◌%◌, ◌^◌, ◌≤◌, ◌<◌, min, max, String, ◌≡◌, refl,
  sym, ap, ◌∙◌, fun_ext, ◌≢◌, ◌↔◌, ◌⊎◌, inl, inr, Bool, true, false, not, ◌&&◌, ◌||◌, Option, none,
  some, List, [], ◌∷◌, ◌++◌, map, arith, ltb, leb, ◌==◌, if◌then◌else◌, ltb→lt, ltb→le, leb→le,
  leb→lt, lt→ltb, le→leb, ==→eq, eq→==, ne→==, tests, Bool-cases, Option-cases, and_true, or_false,
  if_both, length, get_or, take, drop, replicate, All, any, all, select, length-append, append-nil,
  append_assoc, take-append-drop, length-take, length-drop, length-replicate, take-all, drop-nil,
  take-nil, drop-drop, take-append-take, All-append, All-take, length-map, is_member, Result, ok,
  err, ◌>>=◌, ◌>>◌, raise_if, Result-cases,
}

pub data JobStatus : Type 0 where
  created staged queued running complete failed quarantined : JobStatus

-- `target in TRANSITIONS[status]`
unfoldable pub is_allowed : JobStatus → JobStatus → Bool
is_allowed created staged = true
is_allowed created failed = true
is_allowed staged queued = true
is_allowed staged failed = true
is_allowed staged quarantined = true
is_allowed queued running = true
is_allowed queued failed = true
is_allowed running complete = true
is_allowed running failed = true
is_allowed running quarantined = true
is_allowed complete quarantined = true
is_allowed _ _ = false
