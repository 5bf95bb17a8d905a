-- ===== src/Containers/Materialize/Content.antt =====
-- What a materialized file holds, and the limits that it is inside.
use avbox.Prelude.{
  ℕ, suc, ◌+◌, ◌≤◌, ◌≡◌, refl, sym, ap, ◌≢◌, ◌⊎◌, inl, inr, Bool, false, Option, none, some, List,
  [], ◌∷◌, ◌++◌, arith, ltb, ◌==◌, if◌then◌else◌, Bool-cases, length, any, length-append,
  append-nil, append_assoc, Result, ok, err,
}
use avbox.Prelude.Bytes.{Bytes, join}
use avbox.Models.Records.{LimitEvent}
use avbox.Effects.{Raised, pure, raise, gets, ◌>>=◌, ◌>>◌, continue}
use avbox.Containers.State.{
  ExtractionBudget, ExtractionUsage, Work, Action, on_usage, limit, is_late, add_event,
}
use avbox.Containers.Materialize.{
  Stream, exceeded, end_of_stream, is_empty, copy, open_new, keep_file, charge, materialize,
}

-- The chunks that a loop reads which ends at an empty one.
unfoldable pub until_empty : List Bytes → List Bytes
until_empty [] = []
until_empty (c ∷ cs) = if is_empty c then [] else c ∷ until_empty cs

-- The work after a further reading of the clock or a recorded limit.
unfoldable pub noted : ℕ → List LimitEvent → Work → Work
noted readings events w = record w {
  readings = readings;
  usage = record w.usage { limit_events = events };
}

-- Bytes that the limits on one child and on all together allow.
pub record Fits (budget : ExtractionBudget) (w : Work) (content : Bytes) : Type 0 where
  pub single : length content ≤ budget.max_single_child_bytes
  pub total : w.usage.total_extracted_bytes + length content ≤ budget.max_total_extracted_bytes

-- A copy changes no more than the clock and the events, and what it returns is `expected` and fits.
pub record Copied (budget : ExtractionBudget) (expected : Bytes) (w : Work)
    (result : Result Raised (Option Bytes) × Work) : Type 0 where
  pub readings : ℕ
  pub events : List LimitEvent
  pub quiet : result.1 ≡ noted readings events w
  pub content : (c : Bytes) → result.0 ≡ ok (some c) → (c ≡ expected) × Fits budget w c

exceeded-none :
    (budget : ExtractionBudget) (late : Bool) (parent_size size n : ℕ) (usage : ExtractionUsage)
    → exceeded budget late parent_size size n usage ≡ none
    → (size + n ≤ budget.max_single_child_bytes)
      × (usage.total_extracted_bytes + size + n ≤ budget.max_total_extracted_bytes)
unfolding exceeded
exceeded-none budget late parent_size size n usage h = ground arith

abbrev pub wrote : Bytes → Result Raised (Option Bytes)
wrote c = ok (some c)

same_bytes : (a b : Bytes) → wrote a ≡ wrote b → a ≡ b
same_bytes a b h = cc

finished :
    (budget : ExtractionBudget) (w : Work) (written : Bytes)
    → Fits budget w written
    → Copied budget written w (ok (some written), w)
unfolding noted
finished budget w written fits = record {
  readings = w.readings;
  events = w.usage.limit_events;
  quiet = refl;
  content = λ c h.
      let e : c ≡ written = sym (same_bytes written c h) in
      let kept : Fits budget w c = rw e fits in (e, kept);
}

stopped :
    (budget : ExtractionBudget) (expected : Bytes) (w : Work) (x : Result Raised (Option Bytes))
    (readings : ℕ) (events : List LimitEvent)
    → ((c : Bytes) → x ≢ ok (some c))
    → Copied budget expected w (x, noted readings events w)
stopped budget expected w x readings events h = record {
  readings = readings;
  events = events;
  quiet = refl;
  content = λ c e. absurd (h c e);
}

-- The limits after a further chunk, from those before it and the test that found none exceeded.
grown :
    (budget : ExtractionBudget) (w : Work) (written chunk : Bytes) (late : Bool) (parent_size : ℕ)
    → exceeded budget late parent_size (length written) (length chunk) w.usage ≡ none
    → Fits budget w (written ++ chunk)
grown budget w written chunk late p h =
    let (a, b) = exceeded-none budget late p (length written) (length chunk) w.usage h in
    record {
      single = omega (arith, length-append written chunk);
      total = omega (arith, length-append written chunk);
    }

-- A copy that follows one reading of the clock.
later :
    (budget : ExtractionBudget) (expected : Bytes) (w : Work) (readings : ℕ)
    (result : Result Raised (Option Bytes) × Work)
    → Copied budget expected (noted readings w.usage.limit_events w) result
    → Copied budget expected w result
unfolding noted
later budget expected w readings result h = record {
  readings = h.readings;
  events = h.events;
  quiet = h.quiet;
  content = λ c e.
      let (same, fits) = h.content c e in
      (same, record { single = fits.single; total = fits.total });
}

abbrev pub wrote_nothing : Result Raised (Option Bytes)
wrote_nothing = ok none

none_written : (c : Bytes) → wrote_nothing ≢ wrote c
none_written c h = cc

-- What follows the test of the limits, from what the rest of the copy does.
take_event :
    (budget : ExtractionBudget) (expected : Bytes) (w : Work) (rest : Action (Option Bytes))
    (event : Option LimitEvent)
    → (event ≡ none → Copied budget expected w (rest w))
    → Copied budget expected w (
        (elim event as (λ _. Action (Option Bytes)) [ some e ↦ limit e >> pure none | none ↦ rest ])
          w)
unfolding limit on_usage ◌>>◌ ◌>>=◌ continue pure noted add_event
take_event budget expected w rest none h = h refl
take_event budget expected w rest (some e) h =
    stopped budget expected w (ok none) w.readings (add_event e w.usage).limit_events none_written

raised_written : (e : Raised) (c : Bytes) → err e ≢ ok (some c)
raised_written e c h = cc

module _ (budget : ExtractionBudget) (elapsed : ℕ → ℕ) (parent_size : ℕ) where
  copy_end :
      (failure : Option Raised) (written : Bytes) (w : Work)
      → Fits budget w written
      → Copied budget (written ++ []) w (end_of_stream failure written w)
  unfolding pure raise noted
  copy_end none written w fits = rw (append-nil written) (finished budget w written fits)
  copy_end (some e) written w fits =
      stopped budget _ w (err e) w.readings w.usage.limit_events (raised_written e)

  copy_lem :
      (failure : Option Raised) (chunks : List Bytes) (written : Bytes) (w : Work)
      → Fits budget w written
      → Copied budget
          (written ++ join (until_empty chunks))
          w
          (copy budget elapsed parent_size failure chunks written w)
  unfolding copy until_empty join ◌>>=◌ continue is_late gets pure noted
  copy_lem failure [] written w fits = copy_end failure written w fits
  copy_lem failure (chunk ∷ chunks) written w fits = elim (Bool-cases (is_empty chunk)) [
    | inl e ↦ rw (e, append-nil written) (finished budget w written fits)
    | inr e ↦
        let w1 = noted (suc w.readings) w.usage.limit_events w in
        let late = ltb budget.max_extraction_time_seconds (elapsed w.readings) in
        rw e (
          later budget _ w (suc w.readings) _ (
            take_event budget _ w1
              (copy budget elapsed parent_size failure chunks (written ++ chunk))
              (exceeded budget late parent_size (length written) (length chunk) w.usage)
              (λ none_met.
                let fits1 = grown budget w1 written chunk late parent_size none_met in
                rw (sym (append_assoc written chunk (join (until_empty chunks))))
                  (copy_lem failure chunks (written ++ chunk) w1 fits1))))
  ]

-- A materialization either stores all of the stream under its number, where that fits, and returns
-- it, or returns no content and leaves the files and the charge as they were.
unfoldable pub Materialized :
    ExtractionBudget → Bytes → ℕ → Work → Result Raised (Option Bytes) × Work → Type 0
Materialized budget expected number w result =
    (readings : ℕ) × (events : List LimitEvent) × (((c : Bytes) × (result.0 ≡ wrote c)
        × (c ≡ expected)
        × Fits budget w c
        × (result.1 ≡ keep_file number c (noted readings events w)))
      ⊎ (((c : Bytes) → result.0 ≢ wrote c) × (result.1 ≡ noted readings events w)))

charge_lem :
    (budget : ExtractionBudget) (expected : Bytes) (number : ℕ) (w : Work)
    (x : Result Raised (Option Bytes)) (w' : Work)
    → Copied budget expected w (x, w')
    → Materialized budget expected number w (continue (charge number) x w')
unfolding Materialized continue charge
charge_lem budget expected number w (ok (some c)) w' h =
    let (same, fits) = h.content c refl in
    (h.readings, h.events, inl (c, refl, same, fits, ap (keep_file number c) h.quiet))
charge_lem budget expected number w (ok none) w' h =
    (h.readings, h.events, inr (none_written, h.quiet))
charge_lem budget expected number w (err e) w' h =
    (h.readings, h.events, inr (raised_written e, h.quiet))

empty-Fits :
    (budget : ExtractionBudget) (w : Work)
    → w.usage.total_extracted_bytes ≤ budget.max_total_extracted_bytes
    → Fits budget w []
empty-Fits budget w h = record { single = omega arith; total = omega arith }

-- Under a number that no file has, and with a charge inside the budget, the materialization of a
-- stream stores and returns exactly the chunks up to the first empty one, charges their length and
-- keeps both byte limits; or it returns no content and changes nothing but the clock and the events.
pub materialize-Materialized :
    (budget : ExtractionBudget) (elapsed : ℕ → ℕ) (stream : Stream) (number parent_size : ℕ)
    (w : Work)
    → any (λ f. f.0 == number) w.files ≡ false
    → w.usage.total_extracted_bytes ≤ budget.max_total_extracted_bytes
    → Materialized budget
        (join (until_empty stream.chunks))
        number
        w
        (materialize budget elapsed stream number parent_size w)
unfolding materialize open_new ◌>>=◌ ◌>>◌ continue
materialize-Materialized budget elapsed stream number p w fresh bound =
    let copied =
      copy_lem budget elapsed p stream.failure stream.chunks [] w (empty-Fits budget w bound) in
    rw fresh (charge_lem budget (join (until_empty stream.chunks)) number w _ _ copied)
