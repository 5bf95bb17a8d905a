-- ===== src/Structural/Facts.antt =====
-- Lemmas that the proofs about src/avbox/analyzers/structural.py share.
use avbox.Prelude.{
  ℕ, ◌≡◌, refl, ◌≢◌, Bool, true, false, not, List, [], ◌∷◌, ◌++◌, arith, ◌==◌, if◌then◌else◌,
}
use avbox.Structural.Types.{StructuralState, valid, Finding}
use avbox.Structural.Results.{state_of}

pub snoc_apart : (xs : List Finding) (x : Finding) → xs ++ (x ∷ []) ≢ []
snoc_apart [] x h = cc
snoc_apart (y ∷ ys) x h = cc

pub nil_parts : (xs ys : List Finding) → xs ++ ys ≡ [] → (xs ≡ []) × (ys ≡ [])
nil_parts [] ys h = (refl, h)
nil_parts (x ∷ xs) ys h = absurd cc

pub same_number : (a b : ℕ) → not (a == b) ≡ false → a ≡ b
same_number a b h = ground arith

pub not-false : (b : Bool) → not b ≡ false → b ≡ true
not-false true h = refl
not-false false h = absurd cc

-- Code that says VALID only without findings, under a test that leads to another state.
pub state_of-nil :
    (test : Bool) (other : StructuralState) (fs : List Finding)
    → other ≢ valid
    → (if test then other else state_of fs) ≡ valid
    → fs ≡ []
unfolding state_of
state_of-nil true other fs apart h = absurd (apart h)
state_of-nil false other [] apart h = refl
state_of-nil false other (f ∷ fs) apart h = absurd cc
