-- ===== src/Containers/State.antt =====
-- `ExtractionBudget` and `ExtractionUsage` of src/avbox/models/analysis.py, and the steps of
-- src/avbox/analyzers/containers.py that record limits and count members.
use avbox.Prelude.{
  ℕ, suc, Bool, true, false, List, [], ◌∷◌, ◌++◌, ltb, leb, ◌==◌, if◌then◌else◌, length, take, any,
  ok,
}
use avbox.Prelude.Bytes.{Bytes}
use avbox.Models.Records.{
  LimitEvent, ScanJob, extraction_time, child_count, total_child_count, child_size, byte_budget,
  expansion_ratio, recursion, partition_materialization, total_partition_materialization,
  corrupt_container, encrypted_container, unsafe_member_path, symlink_entry,
  symlink_or_hardlink_entry, special_file_entry, corrupt_filesystem, corrupt_partition_table,
  extraction_unavailable, enumeration_failure, member_extraction_failure,
}
use avbox.Effects.{Raised, pure, raise, lift, gets, ◌>>=◌, ◌>>◌}
use avbox.Effects

-- `exceeds_ratio extracted size` is the comparison with the budget's `max_expansion_ratio`, a
-- floating-point number.
pub record ExtractionBudget : Type 0 where
  pub max_recursion_depth : ℕ
  pub max_children_per_object : ℕ
  pub max_total_children : ℕ
  pub max_single_child_bytes : ℕ
  pub max_total_extracted_bytes : ℕ
  pub exceeds_ratio : ℕ → ℕ → Bool
  pub max_member_name_bytes : ℕ
  pub max_path_depth : ℕ
  pub max_extraction_time_seconds : ℕ
  pub max_partitions_per_disk : ℕ
  pub max_materialized_partition_bytes : ℕ
  pub max_total_materialized_partition_bytes : ℕ

pub record ExtractionUsage : Type 0 where
  pub children_discovered : ℕ
  pub children_materialized : ℕ
  pub total_extracted_bytes : ℕ
  pub max_depth_reached : ℕ
  pub limit_events : List LimitEvent
  pub materialized_partition_bytes : ℕ

-- The job that is analyzed, the usage, the number of readings of the clock so far, and the files of
-- the directory for derived objects, each by its number.
pub record Work : Type 0 where
  pub job : ScanJob
  pub usage : ExtractionUsage
  pub readings : ℕ
  pub files : List (ℕ × Bytes)

abbrev pub Action {ℓ} : Type ℓ → Type ℓ
Action A = Effects.Action Work A

unfoldable pub on_usage : (ExtractionUsage → ExtractionUsage) → Action (Unit {0})
on_usage f w = (ok tt, record w { usage = f w.usage })

unfoldable pub on_job : (ScanJob → ScanJob) → Action (Unit {0})
on_job f w = (ok tt, record w { job = f w.job })

abbrev pub event_number : LimitEvent → ℕ
event_number extraction_time = 0
event_number child_count = 1
event_number total_child_count = 2
event_number child_size = 3
event_number byte_budget = 4
event_number expansion_ratio = 5
event_number recursion = 6
event_number partition_materialization = 7
event_number total_partition_materialization = 8
event_number corrupt_container = 9
event_number encrypted_container = 10
event_number unsafe_member_path = 11
event_number symlink_entry = 12
event_number symlink_or_hardlink_entry = 13
event_number special_file_entry = 14
event_number corrupt_filesystem = 15
event_number corrupt_partition_table = 16
event_number extraction_unavailable = 17
event_number enumeration_failure = 18
event_number member_extraction_failure = 19

-- `if event not in usage.limit_events: usage.limit_events.append(event)`
unfoldable pub add_event : LimitEvent → ExtractionUsage → ExtractionUsage
add_event event usage = record usage {
  limit_events =
      if any (λ e. event_number e == event_number event) usage.limit_events
      then usage.limit_events
      else usage.limit_events ++ (event ∷ []);
}

unfoldable pub limit : LimitEvent → Action (Unit {0})
limit event = on_usage (add_event event)

unfoldable pub skip : LimitEvent → Action (Unit {0})
skip event = on_usage (add_event event)

-- `time.monotonic() - started > max_extraction_time_seconds`, for the clock `elapsed`: the seconds
-- since the start at each reading, rounded up.
unfoldable pub is_late : ExtractionBudget → (ℕ → ℕ) → Action Bool
is_late budget elapsed w = (
  ok (ltb budget.max_extraction_time_seconds (elapsed w.readings)),
  record w { readings = suc w.readings },
)

unfoldable pub can_start_child : ExtractionBudget → Action Bool
unfolding limit on_usage
can_start_child budget w =
    if leb budget.max_total_children w.usage.children_materialized
    then (limit total_child_count >> pure false) w
    else (ok true, w)

unfoldable pub discover : Action (Unit {0})
discover = on_usage (λ u. record u { children_discovered = suc u.children_discovered })

-- The loop over the members of a container: each is counted, the loop stops where no further child
-- may start, and the body says whether it goes on.
unfoldable pub each_member {ℓ} :
    {A : Type ℓ} → ExtractionBudget → ℕ → List A → (ℕ → A → Action Bool) → Action (Unit {0})
each_member budget index [] body = pure tt
each_member budget index (x ∷ xs) body = do
  discover
  go ← can_start_child budget
  stay ← (if go then body index x else pure false)
  if stay then each_member budget (suc index) xs body else pure tt

-- The members up to `max_children_per_object`, with a limit event if there are more.
unfoldable pub members_of {ℓ} :
    {A : Type ℓ} → ExtractionBudget → List A → (ℕ → A → Action Bool) → Action (Unit {0})
members_of budget xs body =
    (if ltb budget.max_children_per_object (length xs) then limit child_count else pure tt)
    >> each_member budget 0 (take budget.max_children_per_object xs) body

-- A member that is left out: the event is recorded and the loop goes on.
unfoldable pub pass_over : LimitEvent → Action Bool
pass_over event = skip event >> pure true
