-- ===== src/Containers/Limits.antt =====
-- The limits of an extraction as an invariant of the work.
pub mod Steps
use avbox.Prelude.{
  str_eq, eq_iff, str_append, ℕ, zero, suc, ◌+◌, ◌-◌, ◌*◌, ◌/◌, ◌%◌, ◌^◌, ◌≤◌, ◌<◌, min, max,
  String, ◌≡◌, refl, sym, ap, ◌∙◌, fun_ext, ◌≢◌, ◌↔◌, ◌⊎◌, inl, inr, Bool, true, false, not, ◌&&◌,
  ◌||◌, Option, none, some, List, [], ◌∷◌, ◌++◌, map, arith, ltb, leb, ◌==◌, if◌then◌else◌, ltb→lt,
  ltb→le, leb→le, leb→lt, lt→ltb, le→leb, ==→eq, eq→==, ne→==, tests, Bool-cases, Option-cases,
  and_true, or_false, if_both, length, get_or, take, drop, replicate, All, any, all, select,
  length-append, append-nil, append_assoc, take-append-drop, length-take, length-drop,
  length-replicate, take-all, drop-nil, take-nil, drop-drop, take-append-take, All-append, All-take,
  length-map, is_member, Result, ok, err, raise_if, Result-cases,
}
use avbox.Prelude.Bytes.{Bytes}
use avbox.Models.Records.{LimitEvent, DerivedObject, ObjectRelationship, ScanJob}
use avbox.Effects.{Raised}
use avbox.Containers.State.{ExtractionBudget, ExtractionUsage, Work}
use avbox.Containers.Materialize.{keep_file}
use avbox.Containers.Materialize.Content.{Fits}

abbrev pub total_size : List (ℕ × Bytes) → ℕ
total_size [] = 0
total_size (f ∷ fs) = length f.1 + total_size fs

total_size-append :
    (xs ys : List (ℕ × Bytes)) → total_size (xs ++ ys) ≡ total_size xs + total_size ys
total_size-append [] ys = omega arith
total_size-append (x ∷ xs) ys = omega (arith, total_size-append xs ys)

-- What a derived object and a relationship say alike: the two digests, the name, the depth and the
-- index.
abbrev pub object_edge : DerivedObject → String × String × String × ℕ × ℕ
object_edge d = (d.parent_sha256, d.object.sha256, d.member_name, d.depth, d.member_index)

abbrev pub relationship_edge : ObjectRelationship → String × String × String × ℕ × ℕ
relationship_edge r = (r.source_sha256, r.target_sha256, r.member_name, r.depth, r.member_index)

-- A derived object of a depth and a size that the budget allows.
pub record IsAllowed (budget : ExtractionBudget) (d : DerivedObject) : Type 0 where
  pub deep : 1 ≤ d.depth
  pub shallow : d.depth ≤ budget.max_recursion_depth
  pub small : d.object.size ≤ budget.max_single_child_bytes

-- The children and the bytes are inside the budget and are those of the files, each file has a
-- number below the next one, each derived object is allowed, and the relationships are those of
-- the derived objects.
pub record IsWithin (budget : ExtractionBudget) (w : Work) : Type 0 where
  pub children : w.usage.children_materialized ≤ budget.max_total_children
  pub bytes : w.usage.total_extracted_bytes ≤ budget.max_total_extracted_bytes
  pub charged : total_size w.files ≡ w.usage.total_extracted_bytes
  pub counted : length w.files ≡ w.usage.children_materialized
  pub numbered : All (λ f. f.0 < w.usage.children_materialized) w.files
  pub single : All (λ f. length f.1 ≤ budget.max_single_child_bytes) w.files
  pub depth : w.usage.max_depth_reached ≤ budget.max_recursion_depth
  pub derived : All (IsAllowed budget) w.job.derived_objects
  pub related : map object_edge w.job.derived_objects ≡ map relationship_edge w.job.relationships

pub fresh_number :
    (n : ℕ) (fs : List (ℕ × Bytes)) → All (λ f. f.0 < n) fs → any (λ f. f.0 == n) fs ≡ false
unfolding any
fresh_number n [] h = refl
fresh_number n (f ∷ fs) h =
    rw (ne→== (f.0) n (λ e. absurd (omega (arith, h.0, e)))) (fresh_number n fs h.1)

later_number : (n : ℕ) (fs : List (ℕ × Bytes)) → All (λ f. f.0 < n) fs → All (λ f. f.0 < suc n) fs
later_number n [] h = tt
later_number n (f ∷ fs) h = (omega (arith, h.0), later_number n fs h.1)

-- A new file under the next number, with the count.
unfoldable pub counted_file : Bytes → Work → Work
counted_file content w =
    let v = keep_file w.usage.children_materialized content w in
    record v {
      usage = record v.usage { children_materialized = suc v.usage.children_materialized };
    }

pub counted_file-IsWithin :
    (budget : ExtractionBudget) (content : Bytes) (w : Work)
    → w.usage.children_materialized < budget.max_total_children
    → Fits budget w content
    → IsWithin budget w
    → IsWithin budget (counted_file content w)
unfolding counted_file keep_file
counted_file-IsWithin budget content w room fits h =
    let n = w.usage.children_materialized in
    let here : List (ℕ × Bytes) = (n, content) ∷ [] in
    record {
      children = omega arith;
      bytes = fits.total;
      charged = omega (arith, total_size-append w.files here, h.charged);
      counted = omega (arith, length-append w.files here, h.counted);
      numbered =
          All-append (λ f. f.0 < suc n) w.files here (later_number n w.files h.numbered)
            (omega arith, tt);
      single =
          All-append (λ f. length f.1 ≤ budget.max_single_child_bytes) w.files here h.single
            (fits.single, tt);
      depth = h.depth;
      derived = h.derived;
      related = h.related;
    }
