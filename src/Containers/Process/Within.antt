-- ===== src/Containers/Process/Within.antt =====
-- The limits that hold when an extraction ends.
use avbox.Prelude.{
  ℕ, zero, suc, ◌+◌, ◌≤◌, ◌≡◌, refl, ap, fun_ext, inl, inr, true, Option, none, [], arith, leb,
  leb→lt, le→leb, Bool-cases, length, Result, ok, err,
}
use avbox.Prelude.Bytes.{Bytes}
use avbox.Models.Records.{InputArtifact, ScanJob, extraction_time}
use avbox.Effects.{Raised, pure}
use avbox.Effects.Keeps.{Keeps, Keeps-pure, Keeps-raise, Keeps-if, Keeps-bind, Keeps-then}
use avbox.Containers.State.{Action}
use avbox.Containers.Sources.{Document, ContainerAnalyzer}
use avbox.Containers.Limits.{IsWithin}
use avbox.Containers.Limits.Steps.{limit-Keeps, is_late-Keeps}
use avbox.Containers.Extract.Within.{note_fault-Keeps, process_contents-Keeps}
use avbox.Containers.Process.{
  note_document_error, read_document, process_below, process_level, process_object, extract,
}

module _ (env : ContainerAnalyzer) where
  read_result-Keeps :
      (r : Result Raised (Option Document))
      → Keeps (IsWithin env.budget) (elim r as (λ _. Action (Option Document)) [
        | ok document ↦ pure document
        | err e ↦ note_document_error env e
      ])
  unfolding note_document_error
  read_result-Keeps (ok d) = Keeps-pure d
  read_result-Keeps (err e) =
      Keeps-if _ _ _ (Keeps-then _ _ (note_fault-Keeps env _) (Keeps-pure none)) (Keeps-raise e)

  read_document-Keeps : (file : Bytes) → Keeps (IsWithin env.budget) (read_document env file)
  unfolding read_document
  read_document-Keeps file =
      Keeps-if _ _ _ (read_result-Keeps (env.parse_document file)) (Keeps-pure none)

  process_object-Keeps :
      (fuel : ℕ) (file : Bytes) (a : InputArtifact) (depth : ℕ)
      → Keeps (IsWithin env.budget) (process_object env fuel file a depth)
  unfolding process_object process_level process_below
  process_object-Keeps zero file a depth =
      Keeps-bind _ _ (is_late-Keeps env.budget env.elapsed)
        (λ late. Keeps-if late _ _ (limit-Keeps env.budget extraction_time) (Keeps-pure tt))
  process_object-Keeps (suc fuel) file a depth =
      Keeps-bind _ _ (is_late-Keeps env.budget env.elapsed) (λ late.
        Keeps-if late _ _ (limit-Keeps env.budget extraction_time)
          (elim (Bool-cases (leb env.budget.max_recursion_depth depth)) [
            | inl e ↦ rw e (Keeps-pure tt)
            | inr e ↦ rw e (
                Keeps-bind _ _ (read_document-Keeps file) (
                  process_contents-Keeps env (λ f b. process_object env fuel f b (suc depth))
                    (λ f b. process_object-Keeps fuel f b (suc depth)) a depth (length file)
                    (leb→lt _ _ e) file))
          ]))

  -- When the extraction of a job that has no derived objects and relationships yet ends, whatever
  -- the containers hold: the children, all bytes and the bytes of each child are inside the budget,
  -- the charged bytes are those of the written files, of which there are as many as counted
  -- children, each derived object has a depth and a size that the budget allows, and the
  -- relationships are those of the derived objects, one for each.
  pub extract-IsWithin :
      (job : ScanJob) (file : Bytes)
      → job.derived_objects ≡ []
      → job.relationships ≡ []
      → IsWithin env.budget (extract env job file).1
  unfolding extract
  extract-IsWithin job file d r =
      (process_object-Keeps env.budget.max_recursion_depth file job.input_artifact 0).at _ (record {
        children = omega arith;
        bytes = omega arith;
        charged = refl;
        counted = refl;
        numbered = tt;
        single = tt;
        depth = omega arith;
        derived = rw d tt;
        related = rw (d, r) refl;
      })

  -- Fuel of as many levels as are left gives the same as any more fuel.
  pub process_object-enough :
      (fuel : ℕ) (file : Bytes) (a : InputArtifact) (depth : ℕ)
      → env.budget.max_recursion_depth ≤ depth + fuel
      → process_object env fuel file a depth ≡ process_object env (suc fuel) file a depth
  unfolding process_object process_level process_below
  process_object-enough zero file a depth h =
      let e : leb env.budget.max_recursion_depth depth ≡ true = le→leb _ _ (omega (arith, h)) in
      rw e refl
  process_object-enough (suc fuel) file a depth h =
      let same : Path (Bytes → InputArtifact → Action (Unit {0}))
          (λ f b. process_object env fuel f b (suc depth))
          (λ f b. process_object env (suc fuel) f b (suc depth)) =
        fun_ext
          (λ f. fun_ext (λ b. process_object-enough fuel f b (suc depth) (omega (arith, h)))) in
      ap (λ g. process_level env g file a (depth)) same
