-- ===== src/Containers/Names/Joined.antt =====
-- The parts of names that are joined with "/".
use avbox.Prelude.{
  ◌≡◌, refl, inl, inr, Bool, true, false, ◌||◌, List, [], ◌∷◌, ◌++◌, if◌then◌else◌, Bool-cases,
  or_false, any, select,
}
use avbox.Containers.Names.{Name, is_separator, add_to_first, split, is_part, parts, is_up}

split_cons : (name : Name) → (p : Name) × (ps : List Name) × (split name ≡ p ∷ ps)
unfolding split add_to_first
split_cons [] = ([], [], refl)
split_cons (c ∷ cs) =
    let (p, ps, e) = split_cons cs in
    elim (Bool-cases (is_separator c)) [
      | inl s ↦ ([], split cs, rw s refl)
      | inr s ↦ (c ∷ p, ps, rw (s, e) refl)
    ]

split-join : (a b : Name) → split (a ++ (47 ∷ b)) ≡ split a ++ split b
unfolding split add_to_first
split-join [] b = refl
split-join (c ∷ cs) b = elim (Bool-cases (is_separator c)) [
  | inl s ↦ rw (s, split-join cs b) refl
  | inr s ↦ let (p, ps, e) = split_cons cs in rw (s, split-join cs b, e) refl
]

split-plain : (name : Name) → any is_separator name ≡ false → split name ≡ name ∷ []
unfolding split add_to_first any
split-plain [] h = refl
split-plain (c ∷ cs) h =
    let (here, there) = or_false (is_separator c) _ h in rw (here, split-plain cs there) refl

any-select-append :
    (xs ys : List Name)
    → any is_up (select is_part xs) ≡ false
    → any is_up (select is_part ys) ≡ false
    → any is_up (select is_part (xs ++ ys)) ≡ false
unfolding any
any-select-append [] ys h k = k
any-select-append (x ∷ xs) ys h k = elim (Bool-cases (is_part x)) [
  | inl e ↦
      let whole : (is_up x || any is_up (select is_part xs)) ≡ false = rw e at h in
      let (here, there) = or_false (is_up x) _ whole in
      rw (e, here) (any-select-append xs ys there k)
  | inr e ↦
      let rest : any is_up (select is_part xs) ≡ false = rw e at h in
      rw e (any-select-append xs ys rest k)
]

-- No part of the name is "..".
abbrev pub StaysDown : Name → Type 0
StaysDown name = any is_up (parts name) ≡ false

pub join-StaysDown : (a b : Name) → StaysDown a → StaysDown b → StaysDown (a ++ (47 ∷ b))
unfolding parts
join-StaysDown a b h k = rw (split-join a b) (any-select-append (split a) (split b) h k)

pub plain-StaysDown :
    (name : Name) → any is_separator name ≡ false → is_up name ≡ false → StaysDown name
unfolding parts any
plain-StaysDown name h k = rw (split-plain name h) (ends (is_part name))
  where
    ends : (b : Bool) → any is_up (if b then name ∷ [] else []) ≡ false
    ends true = rw k refl
    ends false = refl

pub empty-StaysDown : StaysDown []
unfolding parts any split is_up
empty-StaysDown = refl
