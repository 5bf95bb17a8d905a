-- ===== src/Containers/Limits/Steps.antt =====
-- The steps that keep the limits.
use avbox.Prelude.{
  ℕ, suc, ◌≡◌, refl, sym, ◌∙◌, Bool, true, false, List, [], ◌∷◌, leb, if_both, take, Result,
}
use avbox.Models.Records.{total_child_count, child_count, LimitEvent, ScanJob}
use avbox.Effects.{Raised}
use avbox.Containers.State.{
  ExtractionBudget, ExtractionUsage, Work, Action, on_usage, on_job, limit, skip, add_event,
  is_late, discover, can_start_child, each_member, members_of, pass_over,
}
use avbox.Effects.Keeps.{Keeps, Keeps-pure, Keeps-if, Keeps-bind, Keeps-then}
use avbox.Containers.Limits.{IsWithin}
use avbox.Containers.Materialize.Content.{noted}

-- An update of the usage, or of the job, that the invariant does not see.
pub record IsQuiet (g : ExtractionUsage → ExtractionUsage) : Type 0 where
  pub children : (u : ExtractionUsage) → (g u).children_materialized ≡ u.children_materialized
  pub bytes : (u : ExtractionUsage) → (g u).total_extracted_bytes ≡ u.total_extracted_bytes
  pub depth : (u : ExtractionUsage) → (g u).max_depth_reached ≡ u.max_depth_reached

pub record IsMild (f : ScanJob → ScanJob) : Type 0 where
  pub derived : (j : ScanJob) → (f j).derived_objects ≡ j.derived_objects
  pub related : (j : ScanJob) → (f j).relationships ≡ j.relationships

module _ (budget : ExtractionBudget) where
  pub on_usage-Keeps :
      (g : ExtractionUsage → ExtractionUsage) → IsQuiet g → Keeps (IsWithin budget) (on_usage g)
  unfolding on_usage
  on_usage-Keeps g q = record {
    at = λ w h. record {
      children = rw (q.children w.usage) h.children;
      bytes = rw (q.bytes w.usage) h.bytes;
      charged = h.charged ∙ sym (q.bytes w.usage);
      counted = h.counted ∙ sym (q.children w.usage);
      numbered = rw (q.children w.usage) h.numbered;
      single = h.single;
      depth = rw (q.depth w.usage) h.depth;
      derived = h.derived;
      related = h.related;
    };
  }

  pub on_job-Keeps : (f : ScanJob → ScanJob) → IsMild f → Keeps (IsWithin budget) (on_job f)
  unfolding on_job
  on_job-Keeps f mild = record {
    at = λ w h. record {
      children = h.children;
      bytes = h.bytes;
      charged = h.charged;
      counted = h.counted;
      numbered = h.numbered;
      single = h.single;
      depth = h.depth;
      derived = rw (mild.derived w.job) h.derived;
      related = rw (mild.derived w.job, mild.related w.job) h.related;
    };
  }

  pub noted-IsWithin :
      (readings : ℕ) (events : List LimitEvent) (w : Work)
      → IsWithin budget w
      → IsWithin budget (noted readings events w)
  unfolding noted
  noted-IsWithin readings events w h = record {
    children = h.children;
    bytes = h.bytes;
    charged = h.charged;
    counted = h.counted;
    numbered = h.numbered;
    single = h.single;
    depth = h.depth;
    derived = h.derived;
    related = h.related;
  }

  pub limit-Keeps : (event : LimitEvent) → Keeps (IsWithin budget) (limit event)
  unfolding limit add_event
  limit-Keeps event =
      on_usage-Keeps _ (record { children = λ u. refl; bytes = λ u. refl; depth = λ u. refl })

  pub skip-Keeps : (event : LimitEvent) → Keeps (IsWithin budget) (skip event)
  unfolding skip add_event
  skip-Keeps event =
      on_usage-Keeps _ (record { children = λ u. refl; bytes = λ u. refl; depth = λ u. refl })

  pub is_late-Keeps : (elapsed : ℕ → ℕ) → Keeps (IsWithin budget) (is_late budget elapsed)
  unfolding is_late noted
  is_late-Keeps elapsed = record {
    at = λ w h. noted-IsWithin (suc w.readings) w.usage.limit_events w h;
  }

  pub discover-Keeps : Keeps (IsWithin budget) discover
  unfolding discover
  discover-Keeps =
      on_usage-Keeps _ (record { children = λ u. refl; bytes = λ u. refl; depth = λ u. refl })

  pub can_start_child-Keeps : Keeps (IsWithin budget) (can_start_child budget)
  unfolding can_start_child
  can_start_child-Keeps = record {
    at = λ w h.
        if_both (λ (x : Result Raised Bool × Work). IsWithin budget x.1)
          (leb budget.max_total_children w.usage.children_materialized)
          ((Keeps-then _ _ (limit-Keeps total_child_count) (Keeps-pure false)).at w h) h;
  }

  pub each_member-Keeps {ℓ} :
      {A : Type ℓ} (index : ℕ) (xs : List A) (body : ℕ → A → Action Bool)
      → ((i : ℕ) (a : A) → Keeps (IsWithin budget) (body i a))
      → Keeps (IsWithin budget) (each_member budget index xs body)
  unfolding each_member
  each_member-Keeps index [] body kb = Keeps-pure tt
  each_member-Keeps index (x ∷ xs) body kb = Keeps-then _ _ discover-Keeps (
      Keeps-bind _ _ can_start_child-Keeps (λ go.
        Keeps-bind _ _ (Keeps-if go _ _ (kb index x) (Keeps-pure false))
          (λ stay. Keeps-if stay _ _ (each_member-Keeps (suc index) xs body kb) (Keeps-pure tt))))

  pub members_of-Keeps {ℓ} :
      {A : Type ℓ} (xs : List A) (body : ℕ → A → Action Bool)
      → ((i : ℕ) (a : A) → Keeps (IsWithin budget) (body i a))
      → Keeps (IsWithin budget) (members_of budget xs body)
  unfolding members_of
  members_of-Keeps xs body kb =
      Keeps-then _ _ (Keeps-if _ _ _ (limit-Keeps child_count) (Keeps-pure tt))
        (each_member-Keeps 0 (take budget.max_children_per_object xs) body kb)

  pub pass_over-Keeps : (event : LimitEvent) → Keeps (IsWithin budget) (pass_over event)
  unfolding pass_over
  pass_over-Keeps event = Keeps-then _ _ (skip-Keeps event) (Keeps-pure true)
