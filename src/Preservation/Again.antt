-- ===== src/Preservation/Again.antt =====
-- A second admission of an object.
use avbox.Prelude.{◌≡◌, sym, ap, ◌∙◌, inl, inr, true, false, none, Bool-cases, ok, err}
use avbox.Models.Verdict.{Verdict}
use avbox.Models.Records.{InputArtifact}
use avbox.Effects.{Raised, pure, raise, gets, continue, ◌>>=◌, ◌>>◌}
use avbox.Effects.Triples.{Leads-ok, Leads-err}
use avbox.Preservation.{
  Place, Quarantine, Source, quarantine_path, is_admissible, file_exists, raise_some, is_there,
  is_present, open_exclusive, admit_new, admit,
}
use avbox.Preservation.Admitted.{apart, IsDone, admit-IsDone, admit_new-IsLeft}

module _ (artifact : InputArtifact) (q q' : Quarantine) where
  done-present :
      (source : Source) (verdict : Verdict) (place : Place)
      → IsDone q artifact source verdict place q'
      → (place ≡ quarantine_path artifact) × (is_present (quarantine_path artifact) q' ≡ true)
  unfolding IsDone
  done-present source verdict place (_, p, inl (there, same)) = (p, rw same there)
  done-present source verdict place (_, p, inr (_, stored)) = (p, ap is_there stored.stored)

  -- An object that was admitted stays as it is: a later admission, whatever its source holds by then,
  -- returns the same path and changes nothing.
  pub admit-again :
      (source later : Source) (verdict verdict' : Verdict) (place : Place)
      → admit source artifact verdict q ≡ (ok place, q')
      → is_admissible verdict' ≡ true
      → admit later artifact verdict' q' ≡ (ok place, q')
  unfolding admit ◌>>=◌ gets continue pure
  admit-again source later verdict verdict' place e fit =
      let (p, there) =
        done-present source verdict place
          (Leads-ok place q' (admit-IsDone q artifact source verdict) e) in
      rw (fit, there, p)

  -- An admission of an admissible verdict that fails, although the directory was made and the
  -- temporary file could be opened, leaves that file. So the next admission of the object fails with
  -- FileExistsError and changes nothing, for every admissible verdict and every source, when the
  -- directory can be made and opening a file meets no other fault.
  pub admit-stuck :
      (source later : Source) (verdict verdict' : Verdict) (e : Raised)
      → is_admissible verdict ≡ true
      → is_admissible verdict' ≡ true
      → source.mkdir_fault ≡ none
      → source.open_fault ≡ none
      → later.mkdir_fault ≡ none
      → later.open_fault ≡ none
      → admit source artifact verdict q ≡ (err e, q')
      → admit later artifact verdict' q' ≡ (err file_exists, q')
  unfolding admit admit_new open_exclusive raise_some ◌>>=◌ ◌>>◌ gets continue pure raise
  admit-stuck source later verdict verdict' e fit fit' made opened made' opened' failed =
      elim (Bool-cases (is_present (quarantine_path artifact) q)) [
        | inl there ↦
            let returned : admit source artifact verdict q ≡ (ok (quarantine_path artifact), q) =
              rw (fit, there) in
            let bad = ap (λ x. x.0) (sym returned ∙ failed) in absurd cc
        | inr absent ↦
            let new : admit_new source artifact q ≡ (err e, q') = rw (fit, absent) at failed in
            let (same, (entry, left_over)) =
              Leads-err e q' (admit_new-IsLeft q artifact source made opened) new in
            let absent' : is_present (quarantine_path artifact) q' ≡ false =
              ap is_there (same (quarantine_path artifact) (apart _ _)) ∙ absent in
            rw (fit', absent', made', opened', ap is_there left_over)
      ]
