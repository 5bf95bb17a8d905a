-- ===== src/Registry/Keys.antt =====
-- The keys of `_unique`: which there are, and when it raises nothing.
use avbox.Prelude.{
  str_eq, eq_iff, String, ◌≡◌, refl, sym, ap, ◌∙◌, ◌≢◌, inl, inr, true, false, ◌||◌, List, [], ◌∷◌,
  ◌++◌, map, arith, Bool-cases, or_false, All, append-nil, append_assoc, All-mono, Result, ok, err,
}
use avbox.Prelude.Results.{◌>>=◌, bind-ok}
use avbox.Registry.{
  HasId, platform_id, product_id, scanner_release_id, detector_release_id, definition_set_id,
  runtime_profile_id, worker_profile_id, RegistryError, Dict, has_key, unique_from, unique,
  entries_of, duplicate_id,
}

-- An item has the ID.
pub data Known {A : Type 0} ⦃h : HasId A⦄ (key : String) : List A → Type 0 where
  here : {x : A} {xs : List A} → h.id_of x ≡ key → Known key (x ∷ xs)
  there : {x : A} {xs : List A} → Known key xs → Known key (x ∷ xs)

-- No two items have the same ID.
abbrev pub Unique : {A : Type 0} ⦃h : HasId A⦄ → List A → Type 0
Unique [] = Unit
Unique ⦃h⦄ (x ∷ xs) = All (λ y. h.id_of x ≢ h.id_of y) xs × Unique xs

module _ {A : Type 0} ⦃h : HasId A⦄ where
  abbrev pub entry_of : A → String × A
  entry_of x = (h.id_of x, x)

  pub has_key-Known :
      (key : String) (xs : List A) → has_key key (map entry_of xs) ≡ true → Known key xs
  unfolding has_key
  has_key-Known key [] e = absurd cc
  has_key-Known key (x ∷ xs) e = elim (Bool-cases (str_eq (h.id_of x) key)) [
    | inl same ↦ here ((eq_iff (h.id_of x) key).0 same)
    | inr other ↦ there (has_key-Known key xs (rw other at e))
  ]

  pub Known-has_key :
      (key : String) (xs : List A) → Known key xs → has_key key (map entry_of xs) ≡ true
  unfolding has_key
  Known-has_key key [] k = elim k [ ]
  Known-has_key key (x ∷ xs) (here e) = rw ((eq_iff (h.id_of x) key).1 e)
  Known-has_key key (x ∷ xs) (there k) = rw (Known-has_key key xs k) (ground arith)

  has_key-append :
      (key : String) (xs ys : Dict A) → has_key key (xs ++ ys) ≡ (has_key key xs || has_key key ys)
  unfolding has_key
  has_key-append key [] ys = refl
  has_key-append key (x ∷ xs) ys = rw (has_key-append key xs ys) (ground arith)

  abbrev Fresh : Dict A → List A → Type 0
  Fresh result xs = All (λ y. has_key (h.id_of y) result ≡ false) xs

  -- Fresh after one more entry: fresh before, and another ID than that of the entry.
  Fresh-snoc :
      (result : Dict A) (x y : A)
      → has_key (h.id_of y) (result ++ (entry_of x ∷ [])) ≡ false
      → (has_key (h.id_of y) result ≡ false) × (h.id_of x ≢ h.id_of y)
  unfolding has_key
  Fresh-snoc result x y e =
      let e' : (has_key (h.id_of y) result || (str_eq (h.id_of x) (h.id_of y) || false)) ≡ false =
        sym (has_key-append (h.id_of y) result (entry_of x ∷ [])) ∙ e in
      let (old, new) = or_false (has_key (h.id_of y) result) _ e' in
      (
        old,
        λ same.
            let yes = (eq_iff (h.id_of x) (h.id_of y)).1 same in
            let (off, _) = or_false _ false new in cc,
      )

  snoc-Fresh :
      (result : Dict A) (x y : A)
      → has_key (h.id_of y) result ≡ false
      → h.id_of x ≢ h.id_of y
      → has_key (h.id_of y) (result ++ (entry_of x ∷ [])) ≡ false
  unfolding has_key
  snoc-Fresh result x y old new = elim (Bool-cases (str_eq (h.id_of x) (h.id_of y))) [
    | inl e ↦ absurd (new ((eq_iff (h.id_of x) (h.id_of y)).0 e))
    | inr e ↦ rw (has_key-append (h.id_of y) result (entry_of x ∷ []), old, e)
  ]

  All-both : (P Q : A → Type 0) (xs : List A) → All P xs → All Q xs → All (λ a. P a × Q a) xs
  All-both P Q [] p q = tt
  All-both P Q (x ∷ xs) p q = ((p.0, q.0), All-both P Q xs p.1 q.1)

  unique_from-ok :
      (kind : String) (xs : List A) (result d : Dict A)
      → unique_from kind xs result ≡ ok d
      → (d ≡ result ++ map entry_of xs) × Fresh result xs × Unique xs
  unfolding unique_from
  unique_from-ok kind [] result d e =
      let same : d ≡ result = cc in (same ∙ sym (append-nil result), tt, tt)
  unique_from-ok kind (x ∷ xs) result d e = elim (Bool-cases (has_key (h.id_of x) result)) [
    | inl old ↦ let no : err (duplicate_id kind (h.id_of x)) ≡ ok d = rw old at e in absurd cc
    | inr new ↦
        let (content, fresh, unique_rest) =
          unique_from-ok kind xs (result ++ (entry_of x ∷ [])) d (rw new at e) in
        let both = All-mono (Fresh-snoc result x) xs fresh in
        (
          content ∙ append_assoc result (entry_of x ∷ []) (map entry_of xs),
          (new, All-mono (λ y p. p.0) xs both),
          (All-mono (λ y p. p.1) xs both, unique_rest),
        )
  ]

  Unique-unique_from :
      (kind : String) (xs : List A) (result : Dict A)
      → Fresh result xs
      → Unique xs
      → unique_from kind xs result ≡ ok (result ++ map entry_of xs)
  unfolding unique_from
  Unique-unique_from kind [] result fresh u = ap ok (sym (append-nil result))
  Unique-unique_from kind (x ∷ xs) result fresh u =
      rw (fresh.0, sym (append_assoc result (entry_of x ∷ []) (map entry_of xs)))
        (Unique-unique_from kind xs (result ++ (entry_of x ∷ []))
          (All-mono (λ y p. snoc-Fresh result x y p.0 p.1) xs (All-both _ _ xs fresh.1 u.0)) u.1)

  pub unique-ok :
      (xs : List A) (kind : String) (d : Dict A)
      → unique xs kind ≡ ok d
      → (d ≡ map entry_of xs) × Unique xs
  unfolding unique
  unique-ok xs kind d e = let (content, _, u) = unique_from-ok kind xs [] d e in (content, u)

  pub Unique-unique :
      (xs : List A) (kind : String) → Unique xs → unique xs kind ≡ ok (map entry_of xs)
  unfolding unique has_key
  Unique-unique xs kind u = Unique-unique_from kind xs [] (none_used xs) u
    where
      none_used : (ys : List A) → Fresh [] ys
      none_used [] = tt
      none_used (y ∷ ys) = (refl, none_used ys)

  pub entries_of-map : (xs : List A) → entries_of (map entry_of xs) ≡ xs
  entries_of-map [] = refl
  entries_of-map (x ∷ xs) = ap (λ r. x ∷ r) (entries_of-map xs)

  -- A step of the service that makes a dictionary.
  pub unique-step :
      (xs : List A) (kind : String) (f : Dict A → Result RegistryError (Unit {0}))
      → (unique xs kind >>= f) ≡ ok tt
      → Unique xs × (f (map entry_of xs) ≡ ok tt)
  unique-step xs kind f e =
      let (d, made, rest) = bind-ok (unique xs kind) f tt e in
      let (content, u) = unique-ok xs kind d made in (u, rw (sym content) rest)
