-- ===== src/Containers/Materialize.antt =====
-- `_materialize` of src/avbox/analyzers/containers.py.
pub mod Content
use avbox.Prelude.{
  str_eq, eq_iff, str_append, ℕ, zero, suc, ◌+◌, ◌-◌, ◌*◌, ◌/◌, ◌%◌, ◌^◌, ◌≤◌, ◌<◌, min, max,
  String, ◌≡◌, refl, sym, ap, ◌∙◌, fun_ext, ◌≢◌, ◌↔◌, ◌⊎◌, inl, inr, Bool, true, false, not, ◌&&◌,
  ◌||◌, Option, none, some, List, [], ◌∷◌, ◌++◌, map, arith, ltb, leb, ◌==◌, if◌then◌else◌, ltb→lt,
  ltb→le, leb→le, leb→lt, lt→ltb, le→leb, ==→eq, eq→==, ne→==, tests, Bool-cases, Option-cases,
  and_true, or_false, if_both, length, get_or, take, drop, replicate, All, any, all, select,
  length-append, append-nil, append_assoc, take-append-drop, length-take, length-drop,
  length-replicate, take-all, drop-nil, take-nil, drop-drop, take-append-take, All-append, All-take,
  length-map, is_member, Result, ok, err, raise_if, Result-cases,
}
use avbox.Prelude.Bytes.{Bytes}
use avbox.Models.Records.{LimitEvent, extraction_time, child_size, byte_budget, expansion_ratio}
use avbox.Effects.{Raised, pure, raise, gets, ◌>>=◌, ◌>>◌}
use avbox.Containers.State.{
  ExtractionBudget, ExtractionUsage, Work, Action, on_usage, limit, is_late,
}

-- A stream gives its chunks in turn, each of 1 MiB at most, and may then raise; an empty chunk ends
-- it.
pub record Stream : Type 0 where
  pub chunks : List Bytes
  pub failure : Option Raised

-- The first limit that a further chunk of `n` bytes meets, after `size` bytes.
unfoldable pub exceeded : ExtractionBudget → Bool → ℕ → ℕ → ℕ → ExtractionUsage → Option LimitEvent
exceeded budget late parent_size size n usage =
    if late
    then some extraction_time
    else if ltb budget.max_single_child_bytes (size + n)
    then some child_size
    else if ltb budget.max_total_extracted_bytes (usage.total_extracted_bytes + size + n)
    then some byte_budget
    else if not (parent_size == 0) && budget.exceeds_ratio (size + n) parent_size
    then some expansion_ratio
    else none

abbrev pub end_of_stream : Option Raised → Bytes → Action (Option Bytes)
end_of_stream none written = pure (some written)
end_of_stream (some e) written = raise e

abbrev pub is_empty : Bytes → Bool
is_empty [] = true
is_empty (_ ∷ _) = false

-- The loop over the chunks, after `written`; `none` where a limit stops it.
unfoldable pub copy :
    ExtractionBudget → (ℕ → ℕ) → ℕ → Option Raised → List Bytes → Bytes → Action (Option Bytes)
copy budget elapsed parent_size failure [] written = end_of_stream failure written
copy budget elapsed parent_size failure (chunk ∷ chunks) written =
    if is_empty chunk then pure (some written) else (do
      late ← is_late budget elapsed
      event ← gets (λ w. exceeded budget late parent_size (length written) (length chunk) w.usage)
      elim event [
        | some e ↦ limit e >> pure none
        | none ↦ copy budget elapsed parent_size failure chunks (written ++ chunk)
      ])

-- `target.open("xb")` for the number of a derived file. Where there is a file already, it raises, and
-- the `finally` of `_materialize` removes that file.
unfoldable pub open_new : ℕ → Action (Unit {0})
open_new number w =
    if any (λ f. f.0 == number) w.files
    then (
      err (record { kind = "FileExistsError"; text = "File exists" }),
      record w { files = select (λ f. not (f.0 == number)) w.files },
    )
    else (ok tt, w)

-- The file stays, and its bytes are charged.
unfoldable pub keep_file : ℕ → Bytes → Work → Work
keep_file number content w = record w {
  files = w.files ++ ((number, content) ∷ []);
  usage = record w.usage { total_extracted_bytes = w.usage.total_extracted_bytes + length content };
}

unfoldable pub charge : ℕ → Option Bytes → Action (Option Bytes)
charge number none w = (ok none, w)
charge number (some content) w = (ok (some content), keep_file number content w)

-- `_materialize`: a file that is not finished is removed.
unfoldable pub materialize : ExtractionBudget → (ℕ → ℕ) → Stream → ℕ → ℕ → Action (Option Bytes)
materialize budget elapsed stream number parent_size = do
  open_new number
  content ← copy budget elapsed parent_size stream.failure stream.chunks []
  charge number content
