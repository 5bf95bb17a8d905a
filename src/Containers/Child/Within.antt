-- ===== src/Containers/Child/Within.antt =====
-- A child keeps the limits of the extraction.
use avbox.Prelude.{
  ℕ, suc, ◌≤◌, ◌<◌, ◌≡◌, refl, sym, ap, ◌∙◌, inl, inr, Option, none, some, List, [], ◌∷◌, ◌++◌, map,
  arith, leb, leb→lt, Bool-cases, length, All-append, Result, ok, err,
}
use avbox.Prelude.Bytes.{Bytes}
use avbox.Models.Records.{InputArtifact, ScanJob, recursion, total_child_count}
use avbox.Effects.{Raised, pure, gets, ◌>>=◌, ◌>>◌, continue}
use avbox.Effects.Keeps.{
  Keeps, Keeps-pure, Keeps-lift, Keeps-gets, Keeps-if, Keeps-bind, Keeps-then,
}
use avbox.Containers.State.{Work, Action, can_start_child}
use avbox.Containers.Materialize.{Stream, keep_file}
use avbox.Containers.Materialize.Content.{Materialized, noted, wrote, materialize-Materialized}
use avbox.Containers.Sources.{Kind, ContainerAnalyzer}
use avbox.Containers.Limits.{
  IsWithin, IsAllowed, object_edge, relationship_edge, fresh_number, counted_file,
  counted_file-IsWithin,
}
use avbox.Containers.Limits.Steps.{noted-IsWithin, limit-Keeps}
use avbox.Containers.Child.{
  Member, artifact_of, derived_of, relationship_of, record_child, count_child, write_child,
  note_recursion, finish_child, start_child, child,
}

map-snoc {ℓ κ} :
    {A : Type ℓ} {B : Type κ} (f : A → B) (xs : List A) (x : A)
    → map f (xs ++ (x ∷ [])) ≡ map f xs ++ (f x ∷ [])
map-snoc f [] x = refl
map-snoc f (y ∷ xs) x = ap (λ ys. f y ∷ ys) (map-snoc f xs x)

module _ (env : ContainerAnalyzer) where
  -- What a write leaves behind: the limits, and a content inside the limit on one child.
  Written : Result Raised (Option Bytes) × Work → Type 0
  Written result =
      IsWithin env.budget result.1
      × ((c : Bytes) → result.0 ≡ wrote c → length c ≤ env.budget.max_single_child_bytes)

  count_child_lem :
      (expected : Bytes) (w : Work) (x : Result Raised (Option Bytes)) (w' : Work)
      → w.usage.children_materialized < env.budget.max_total_children
      → IsWithin env.budget w
      → Materialized env.budget expected w.usage.children_materialized w (x, w')
      → Written (continue count_child x w')
  unfolding Written Materialized continue count_child counted_file keep_file noted
  count_child_lem expected w (ok (some b)) w' room h (r, es, inl (c, is, same, fits, after)) =
      let kept =
        counted_file-IsWithin env.budget c (noted r es w) room
          (record { single = fits.single; total = fits.total })
          (noted-IsWithin env.budget r es w h) in
      let one : b ≡ c = cc in (rw after kept, λ d k. let two : d ≡ c = cc in rw two fits.single)
  count_child_lem expected w (ok (some b)) w' room h (r, es, inr (unwritten, after)) =
      absurd (unwritten b refl)
  count_child_lem expected w (ok none) w' room h (r, es, inl (c, is, same, fits, after)) = absurd cc
  count_child_lem expected w (ok none) w' room h (r, es, inr (unwritten, after)) =
      (rw after (noted-IsWithin env.budget r es w h), λ d k. absurd cc)
  count_child_lem expected w (err e) w' room h (r, es, inl (c, is, same, fits, after)) = absurd cc
  count_child_lem expected w (err e) w' room h (r, es, inr (unwritten, after)) =
      (rw after (noted-IsWithin env.budget r es w h), λ d k. absurd cc)

  write_child_lem :
      (stream : Stream) (parent_size : ℕ) (w : Work)
      → w.usage.children_materialized < env.budget.max_total_children
      → IsWithin env.budget w
      → Written (write_child env stream w.usage.children_materialized parent_size w)
  unfolding write_child ◌>>=◌
  write_child_lem stream size w room h = count_child_lem _ w _ _ room h (
      materialize-Materialized env.budget env.elapsed stream w.usage.children_materialized size w
        (fresh_number w.usage.children_materialized w.files h.numbered) h.bytes)

  record_child-Keeps :
      (parent : InputArtifact) (depth : ℕ) (m : Member) (a : InputArtifact) (result : ScanJob)
      → 1 ≤ depth
      → depth ≤ env.budget.max_recursion_depth
      → a.byte_size ≤ env.budget.max_single_child_bytes
      → Keeps (IsWithin env.budget) (record_child env parent depth m a result)
  unfolding record_child
  record_child-Keeps parent depth m a result low high small = record {
    at = λ w h. record {
      children = h.children;
      bytes = h.bytes;
      charged = h.charged;
      counted = h.counted;
      numbered = h.numbered;
      single = h.single;
      depth = omega (arith, h.depth);
      derived =
          All-append (IsAllowed env.budget) w.job.derived_objects
            (derived_of env parent depth m a result ∷ []) h.derived
            (record { deep = low; shallow = high; small = small }, tt);
      related =
          map-snoc object_edge w.job.derived_objects (derived_of env parent depth m a result)
          ∙ (ap (λ es. es ++ (object_edge (derived_of env parent depth m a result) ∷ [])) h.related
              ∙ sym (
                  map-snoc relationship_edge w.job.relationships
                    (relationship_of env parent depth m a)));
    };
  }

  note_recursion-Keeps : (k : Option Kind) → Keeps (IsWithin env.budget) (note_recursion k)
  unfolding note_recursion
  note_recursion-Keeps none = Keeps-pure tt
  note_recursion-Keeps (some _) = limit-Keeps env.budget recursion

  module _ (descend : Bytes → InputArtifact → Action (Unit {0}))
      (deeper : (f : Bytes) (a : InputArtifact) → Keeps (IsWithin env.budget) (descend f a)) where
    finish_child-Keeps :
        (parent : InputArtifact) (depth : ℕ) (m : Member) (number : ℕ) (content : Bytes)
        → 1 ≤ depth
        → depth ≤ env.budget.max_recursion_depth
        → length content ≤ env.budget.max_single_child_bytes
        → Keeps (IsWithin env.budget) (finish_child env descend parent depth m number content)
    unfolding finish_child artifact_of
    finish_child-Keeps parent depth m number content low high small =
        Keeps-bind _ _ (Keeps-gets _) (λ requested. Keeps-bind _ _ (Keeps-lift _) (λ result.
          Keeps-then _ _ (record_child-Keeps parent depth m _ result low high small) (
            Keeps-if _ _ _ (Keeps-bind _ _ (Keeps-lift _) note_recursion-Keeps)
              (deeper content _))))

    saved_child-IsWithin :
        (parent : InputArtifact) (parent_depth : ℕ) (m : Member) (number : ℕ)
        (x : Result Raised (Option Bytes)) (w : Work)
        → parent_depth < env.budget.max_recursion_depth
        → Written (x, w)
        → IsWithin env.budget
            (continue
              (λ content. elim content as (λ _. Action (Unit {0})) [
                | none ↦ pure tt
                | some bytes ↦ finish_child env descend parent (suc parent_depth) m number bytes
              ])
              x
              w).1
    unfolding Written continue pure
    saved_child-IsWithin parent d m number (ok none) w high h = h.0
    saved_child-IsWithin parent d m number (ok (some c)) w high h =
        (finish_child-Keeps parent (suc d) m number c (omega arith) (omega arith) (h.1 c refl)).at w
          h.0
    saved_child-IsWithin parent d m number (err e) w high h = h.0

    start_child-IsWithin :
        (parent : InputArtifact) (parent_depth parent_size : ℕ) (m : Member) (w : Work)
        → parent_depth < env.budget.max_recursion_depth
        → w.usage.children_materialized < env.budget.max_total_children
        → IsWithin env.budget w
        → IsWithin env.budget (start_child env descend parent parent_depth parent_size m w).1
    unfolding start_child ◌>>=◌ continue gets
    start_child-IsWithin parent d size m w high room h =
        saved_child-IsWithin parent d m w.usage.children_materialized _ _ high
          (write_child_lem m.stream size w room h)

    -- `child` keeps the limits where its object is above the deepest level.
    pub child-Keeps :
        (parent : InputArtifact) (parent_depth parent_size : ℕ) (m : Member)
        → parent_depth < env.budget.max_recursion_depth
        → Keeps (IsWithin env.budget) (child env descend parent parent_depth parent_size m)
    unfolding child can_start_child ◌>>=◌ ◌>>◌ continue pure
    child-Keeps parent d size m high = record {
      at = λ w h.
          elim (Bool-cases (leb env.budget.max_total_children w.usage.children_materialized)) [
            | inl e ↦ rw e ((limit-Keeps env.budget total_child_count).at w h)
            | inr e ↦ rw e (start_child-IsWithin parent d size m w high (leb→lt _ _ e) h)
          ];
    }
