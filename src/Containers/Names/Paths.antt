-- ===== src/Containers/Names/Paths.antt =====
-- Accepted names stay under the directory that they are joined to.
use avbox.Prelude.{
  ℕ, ◌+◌, ◌≤◌, ◌≡◌, refl, sym, ap, ◌∙◌, inl, inr, Bool, true, false, not, ◌||◌, List, [], ◌∷◌, ◌++◌,
  arith, ltb, leb, ◌==◌, if◌then◌else◌, leb→le, Bool-cases, and_true, or_false, length, any,
  length-append, append_assoc, is_member,
}
use avbox.Containers.Names.{Name, encoded_length, parts, is_up, is_rooted, has_drive, safe_name}

-- `part == "."`
unfoldable pub is_here : Name → Bool
is_here (a ∷ []) = a == 46
is_here _ = false

abbrev pub parent_of : List Name → List Name
parent_of [] = []
parent_of (_ ∷ above) = above

-- The directory that one part of a path leads to, as the names from the innermost outwards.
unfoldable pub step_into : List Name → Name → List Name
step_into here part =
    if is_up part then parent_of here else if is_here part then here else part ∷ here

-- The place that a relative path leads to.
unfoldable pub resolve : List Name → List Name → List Name
resolve here [] = here
resolve here (part ∷ path) = resolve (step_into here part) path

-- A member of that name, joined to the directory `base`, is `below` levels of names under it, at most
-- `max_path_depth`, and the name is neither absolute nor has a drive.
pub record StaysUnder (max_path_depth : ℕ) (base : List Name) (name : Name) : Type 0 where
  pub below : List Name
  pub place : resolve base (parts name) ≡ below ++ base
  pub depth : length below ≤ max_path_depth
  pub relative : (is_rooted name || has_drive name) ≡ false

-- The inner directory is under the outer one, by at most `n` names.
Under : ℕ → List Name → List Name → Type 0
Under n inner outer = (below : List Name) × (inner ≡ below ++ outer) × (length below ≤ n)

step_into-Under :
    (here : List Name) (part : Name) → is_up part ≡ false → Under 1 (step_into here part) here
unfolding step_into Under
step_into-Under here part h =
    let k = Bool-cases (is_here part) in
    elim k [
      | inl e ↦ rw (h, e) ([], refl, omega arith)
      | inr e ↦ rw (h, e) (part ∷ [], refl, omega arith)
    ]

Under-trans : (n m : ℕ) (a b c : List Name) → Under n a b → Under m b c → Under (n + m) a c
unfolding Under
Under-trans n m a b c (p, e, k) (q, f, l) =
    (p ++ q, e ∙ (ap (λ x. p ++ x) f ∙ sym (append_assoc p q c)), omega (arith, length-append p q))

resolve-Under :
    (here : List Name) (path : List Name)
    → any is_up path ≡ false
    → Under (length path) (resolve here path) here
unfolding resolve any Under
resolve-Under here [] h = ([], refl, omega arith)
resolve-Under here (part ∷ path) h =
    let (first, rest) = or_false (is_up part) (any is_up path) h in
    let (below, e, k) =
      Under-trans (length path) 1 _ _ here (resolve-Under (step_into here part) path rest)
        (step_into-Under here part first) in
    (below, e, omega arith)

not-true : (b : Bool) → not b ≡ true → b ≡ false
not-true true h = sym h
not-true false h = refl

neither : (a b : Bool) → a ≡ false → b ≡ false → (a || b) ≡ false
neither a b h k = rw (h, k) refl

-- A name that is accepted stays under every directory that it is joined to, by at most
-- `max_path_depth` names, and is neither absolute nor has a drive.
pub safe_name-StaysUnder :
    (max_member_name_bytes max_path_depth : ℕ) (name : Name) (base : List Name)
    → safe_name max_member_name_bytes max_path_depth name ≡ true
    → StaysUnder max_path_depth base name
unfolding safe_name Under
safe_name-StaysUnder m d name base h =
    let (_, h1) = and_true (not (ltb m (encoded_length name))) _ h in
    let (r, h2) = and_true (not (is_member 0 name || is_rooted name)) _ h1 in
    let (v, h3) = and_true (not (has_drive name)) _ h2 in
    let (few, ups) = and_true (leb (length (parts name)) d) _ h3 in
    let (below, place, k) = resolve-Under base (parts name) (not-true _ ups) in
    let bound = leb→le (length (parts name)) d few in
    record {
      below = below;
      place = place;
      depth = omega arith;
      relative =
          neither (is_rooted name) (has_drive name) (or_false (is_member 0 name) _ (not-true _ r)).1
            (not-true _ v);
    }
