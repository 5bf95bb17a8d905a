-- ===== src/Registry/Words.antt =====
-- Words inside a text, and tests on every entry of a list, as Registry checks them.
use avbox.Prelude.{
  ℕ, suc, ◌≡◌, refl, ap, inl, inr, Bool, true, false, not, List, [], ◌∷◌, ◌++◌, arith, ◌==◌, ==→eq,
  eq→==, Bool-cases, and_true, length, All, select, Result, ok,
}
use avbox.Prelude.Results.{then-ok}
use avbox.Prelude.Bytes.{starts_with}
use avbox.Registry.{
  platform_id, product_id, scanner_release_id, detector_release_id, definition_set_id,
  runtime_profile_id, worker_profile_id, RegistryError, contains, check_each,
}

-- The words stand in the text one after the other.
abbrev pub Within : List ℕ → List ℕ → Type 0
Within needle hay = (before : List ℕ) × (after : List ℕ) × (hay ≡ before ++ (needle ++ after))

-- `contains` finds a word where one stands, and only there.
starts_with-ok :
    (needle hay : List ℕ)
    → starts_with needle hay ≡ true
    → (after : List ℕ) × (hay ≡ needle ++ after)
unfolding starts_with
starts_with-ok [] hay e = (hay, refl)
starts_with-ok (n ∷ needle) [] e = absurd cc
starts_with-ok (n ∷ needle) (c ∷ hay) e =
    let (same, rest) = and_true (c == n) (starts_with needle hay) e in
    let (after, content) = starts_with-ok needle hay rest in (after, rw (==→eq c n same, content))

starts_with-append : (needle after : List ℕ) → starts_with needle (needle ++ after) ≡ true
unfolding starts_with
starts_with-append [] after = refl
starts_with-append (n ∷ needle) after = rw (eq→== n n refl) (starts_with-append needle after)

pub contains-Within : (needle hay : List ℕ) → contains needle hay ≡ true → Within needle hay
unfolding contains
contains-Within needle [] e =
    let (after, content) = starts_with-ok needle [] e in ([], after, content)
contains-Within needle (c ∷ hay) e = elim (Bool-cases (starts_with needle (c ∷ hay))) [
  | inl first ↦ let (after, content) = starts_with-ok needle (c ∷ hay) first in ([], after, content)
  | inr later ↦
      let (before, after, content) = contains-Within needle hay (rw later at e) in
      (c ∷ before, after, ap (λ r. c ∷ r) content)
]

contains-here : (needle after : List ℕ) → contains needle (needle ++ after) ≡ true
unfolding contains starts_with
contains-here [] [] = refl
contains-here [] (c ∷ after) = refl
contains-here (n ∷ needle) after = rw (eq→== n n refl, starts_with-append needle after)

pub contains-append :
    (needle before after : List ℕ) → contains needle (before ++ (needle ++ after)) ≡ true
unfolding contains
contains-append needle [] after = contains-here needle after
contains-append needle (c ∷ before) after = rw (contains-append needle before after) (ground arith)

pub check_each-ok :
    {A : Type 0} (check : A → Result RegistryError (Unit {0})) (P : A → Type 0)
    (f : (x : A) → check x ≡ ok tt → P x) (xs : List A)
    → check_each check xs ≡ ok tt
    → All P xs
unfolding check_each
check_each-ok check P f [] e = tt
check_each-ok check P f (x ∷ xs) e =
    let (here, rest) = then-ok (check x) (check_each check xs) tt e in
    (f x here, check_each-ok check P f xs rest)

pub All-check_each :
    {A : Type 0} (check : A → Result RegistryError (Unit {0})) (P : A → Type 0)
    (f : (x : A) → P x → check x ≡ ok tt) (xs : List A)
    → All P xs
    → check_each check xs ≡ ok tt
unfolding check_each
All-check_each check P f [] e = refl
All-check_each check P f (x ∷ xs) e = rw (f x e.0) (All-check_each check P f xs e.1)

pub untrue_negation : (b : Bool) → not b ≡ false → b ≡ true
untrue_negation true h = refl
untrue_negation false h = absurd cc

pub select-none :
    {A : Type 0} (f : A → Bool) (xs : List A)
    → (length (select f xs) == 0) ≡ true
    → All (λ x. f x ≡ false) xs
select-none f [] h = tt
select-none f (x ∷ xs) h = elim (Bool-cases (f x)) [
  | inl kept ↦
      let bad : (suc (length (select f xs)) == 0) ≡ true = rw kept at h in absurd (ground arith)
  | inr left_out ↦ (left_out, select-none f xs (rw left_out at h))
]

pub none-select :
    {A : Type 0} (f : A → Bool) (xs : List A) → All (λ x. f x ≡ false) xs → select f xs ≡ []
none-select f [] h = refl
none-select f (x ∷ xs) h = rw h.0 (none-select f xs h.1)
