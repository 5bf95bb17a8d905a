-- ===== src/Structural/Reports.antt =====
-- `_result` of src/avbox/analyzers/structural.py: what is reported of the findings.
use avbox.Prelude.{
  str_eq, eq_iff, String, ◌≡◌, refl, sym, ◌∙◌, ◌↔◌, inl, inr, Bool, true, false, ◌||◌, Option, List,
  [], ◌∷◌, arith, if◌then◌else◌, Bool-cases,
}
use avbox.Structural.Types.{
  StructuralState, valid, valid_with_warnings, damaged, corrupt, truncated, non_standard, partial,
  unsupported, unknown, Finding, text_of, contains, unique_from, Observation, Assessment,
}
use avbox.Structural.Results.{is_valid, result}

-- No code occurs twice.
pub Once : List Finding → Type 0
Once [] = Unit
Once (f ∷ fs) = (contains f fs ≡ false) × Once fs

contains-same :
    (f g : Finding) (xs : List Finding) → text_of f ≡ text_of g → contains f xs ≡ contains g xs
unfolding contains
contains-same f g [] e = refl
contains-same f g (x ∷ xs) e = rw (e, contains-same f g xs e) refl

same_text : (f g : Finding) → str_eq (text_of f) (text_of g) ≡ true → text_of f ≡ text_of g
same_text f g h = (eq_iff (text_of f) (text_of g)).0 h

text_eq : (f : Finding) → str_eq (text_of f) (text_of f) ≡ true
text_eq f = (eq_iff (text_of f) (text_of f)).1 refl

contains_known :
    (f g : Finding) (seen : List Finding)
    → str_eq (text_of g) (text_of f) ≡ true
    → contains f seen ≡ contains g seen
contains_known f g seen h = sym (contains-same g f seen (same_text g f h))

-- A code is kept or has come before exactly where it is there or has come before.
unique-contains :
    (f : Finding) (seen fs : List Finding)
    → (contains f (unique_from seen fs) || contains f seen) ≡ (contains f fs || contains f seen)
unfolding unique_from contains
unique-contains f seen [] = refl
unique-contains f seen (g ∷ fs) =
    let same = str_eq (text_of g) (text_of f) in
    elim (Bool-cases (contains g seen)) [
      | inl old ↦ rw old (elim (Bool-cases same) [
        | inl e ↦
            let before : contains f seen ≡ true = contains_known f g seen e ∙ old in
            ground (arith, before)
        | inr e ↦ let rest = unique-contains f seen fs in ground (arith, e, rest)
      ])
      | inr new ↦ rw new (let rest = unique-contains f (g ∷ seen) fs in ground (arith, rest))
    ]

-- What has come before is not kept again.
unique-absent :
    (f : Finding) (seen fs : List Finding)
    → contains f seen ≡ true
    → contains f (unique_from seen fs) ≡ false
unfolding unique_from contains
unique-absent f seen [] h = refl
unique-absent f seen (g ∷ fs) h = elim (Bool-cases (contains g seen)) [
  | inl old ↦ rw old (unique-absent f seen fs h)
  | inr new ↦ rw new (elim (Bool-cases (str_eq (text_of g) (text_of f))) [
    | inl e ↦ let no : true ≡ false = sym h ∙ contains_known f g seen e ∙ new in absurd cc
    | inr e ↦
        let before : contains f (g ∷ seen) ≡ true = ground (arith, h) in
        let rest = unique-absent f (g ∷ seen) fs before in ground (arith, e, rest)
  ])
]

unique-Once : (seen fs : List Finding) → Once (unique_from seen fs)
unfolding unique_from contains Once
unique-Once seen [] = tt
unique-Once seen (g ∷ fs) = elim (Bool-cases (contains g seen)) [
  | inl old ↦ rw old (unique-Once seen fs)
  | inr new ↦
      let here : contains g (g ∷ seen) ≡ true = let e = text_eq g in ground (arith, e) in
      rw new (unique-absent g (g ∷ seen) fs here, unique-Once (g ∷ seen) fs)
]

or_nil : (a : Bool) → (a || false) ≡ a
or_nil a = ground arith

-- What a validation reports of the findings: each code once, no other code and none left out, and an
-- assessment exactly if the state is not VALID.
pub result-Once :
    (sha256 format : String) (variant : Option String) (state : StructuralState)
    (observations : List Observation) (findings : List Finding) (completeness : String)
    → Once (result sha256 format variant state observations findings completeness).findings
      × ((f : Finding)
          → contains f
              (result sha256 format variant state observations findings completeness).findings
            ≡ contains f findings)
      × (((result sha256 format variant state observations findings completeness).assessments ≡ [])
          ↔ (state ≡ valid))
unfolding result contains
result-Once sha256 format variant state observations findings completeness = (
  unique-Once [] findings,
  (λ f. sym (or_nil _) ∙ unique-contains f [] findings ∙ or_nil _),
  assessed state _,
)
  where
    assessed :
        (s : StructuralState) (a : Assessment)
        → ((if is_valid s then [] else (a ∷ [])) ≡ []) ↔ (s ≡ valid)
    assessed valid a = ((λ _. refl), (λ _. refl))
    assessed valid_with_warnings a = ((λ e. absurd cc), (λ e. absurd cc))
    assessed damaged a = ((λ e. absurd cc), (λ e. absurd cc))
    assessed corrupt a = ((λ e. absurd cc), (λ e. absurd cc))
    assessed truncated a = ((λ e. absurd cc), (λ e. absurd cc))
    assessed non_standard a = ((λ e. absurd cc), (λ e. absurd cc))
    assessed partial a = ((λ e. absurd cc), (λ e. absurd cc))
    assessed unsupported a = ((λ e. absurd cc), (λ e. absurd cc))
    assessed unknown a = ((λ e. absurd cc), (λ e. absurd cc))
