-- ===== src/Preservation/Admitted.antt =====
-- What an admission leaves in the quarantine.
use avbox.Prelude.{
  eq_iff, ℕ, zero, suc, ◌+◌, ◌<◌, String, ◌≡◌, refl, sym, ap, ◌∙◌, ◌⊎◌, inl, inr, Bool, true, false,
  Option, none, some, [], ◌∷◌, ◌++◌, arith, ◌==◌, ==→eq, Option-cases, length, take, drop,
  append-nil, append_assoc, take-append-drop, length-take, length-drop,
}
use avbox.Prelude.Bytes.{Bytes}
use avbox.Models.Verdict.{Verdict}
use avbox.Models.Records.{InputArtifact}
use avbox.Effects.{Raised, pure, ◌>>◌}
use avbox.Effects.Triples.{
  Outcome, Leads, Leads-pure, Leads-raise, Leads-gets, Leads-mono, Leads-if, Leads-bind, Leads-then,
}
use avbox.Preservation.{
  Place, admitted, incoming, Entry, Quarantine, same_place, put, Source, quarantine_path,
  incoming_path, is_admissible, value_error, file_exists, raise_some, is_there, is_present, store,
  open_exclusive, append_chunk, chunk_size, copy, set_mode, replace, admit_new, admit,
}

same_place_refl : (p : Place) → same_place p p ≡ true
unfolding same_place
same_place_refl (admitted a) = (eq_iff a a).1 refl
same_place_refl (incoming a) = (eq_iff a a).1 refl

put-same : (p : Place) (e : Option Entry) (q : Quarantine) → (put p e q).files p ≡ e
unfolding put
put-same p e q = rw (same_place_refl p)

put-other :
    (p r : Place) (e : Option Entry) (q : Quarantine)
    → same_place r p ≡ false
    → (put p e q).files r ≡ q.files r
unfolding put
put-other p r e q h = rw h

pub apart : (a b : String) → same_place (admitted a) (incoming b) ≡ false
unfolding same_place
apart a b = refl

apart' : (a b : String) → same_place (incoming a) (admitted b) ≡ false
unfolding same_place
apart' a b = refl

module _ (q : Quarantine) (artifact : InputArtifact) where
  -- Every file but the temporary one of the object is as it was in `q`.
  abbrev pub IsUntouched : Quarantine → Type 0
  IsUntouched s =
      (p : Place) → same_place p (incoming_path artifact) ≡ false → s.files p ≡ q.files p

  -- The object is there, whole and read-only, its temporary file is gone, and every other file is as
  -- it was in `q`.
  pub record IsStored (content : Bytes) (s : Quarantine) : Type 0 where
    pub stored :
        s.files (quarantine_path artifact) ≡ some (record { content = content; read_only = true })
    pub moved : s.files (incoming_path artifact) ≡ none
    pub others :
        (p : Place)
        → same_place p (incoming_path artifact) ≡ false
        → same_place p (quarantine_path artifact) ≡ false
        → s.files p ≡ q.files p

  -- The temporary file has the bytes.
  abbrev Holds : Bytes → Bool → Quarantine → Type 0
  Holds content mode s =
      IsUntouched s
      × (s.files (incoming_path artifact) ≡ some (record { content = content; read_only = mode }))

  -- There is a temporary file.
  abbrev pub IsLeft : Quarantine → Type 0
  IsLeft s = IsUntouched s × ((entry : Entry) × (s.files (incoming_path artifact) ≡ some entry))

  raise_some-Leads :
      (P E : Quarantine → Type 0) (fault : Option Raised) (s : Quarantine)
      → P s
      → E s
      → Leads (λ _. P) E (raise_some fault) s
  unfolding raise_some
  raise_some-Leads P E none s h k = Leads-pure _ _ tt s h
  raise_some-Leads P E (some e) s h k = Leads-raise _ _ e s k

  store-Leads :
      (P E : Quarantine → Type 0) (p : Place) (entry : Option Entry) (s : Quarantine)
      → P (put p entry s)
      → Leads (λ _. P) E (store p entry) s
  unfolding store Outcome
  store-Leads P E p entry s h = record { outcome = h }

  put-IsUntouched :
      (e : Option Entry) (s : Quarantine)
      → IsUntouched s
      → IsUntouched (put (incoming_path artifact) e s)
  put-IsUntouched e s h p k = put-other (incoming_path artifact) p e s k ∙ h p k

  append_chunk-Holds :
      (before chunk : Bytes) (s : Quarantine)
      → Holds before false s
      → Leads
          (λ _. Holds (before ++ chunk) false)
          IsLeft
          (append_chunk (incoming_path artifact) chunk)
          s
  unfolding append_chunk
  append_chunk-Holds before chunk s (same, here) =
      Leads-bind {Q = λ entry s'. (entry ≡ s.files (incoming_path artifact)) × (s' ≡ s)} _ s
        (Leads-gets _ _ _ s (refl, refl))
        (λ entry s' (e, f).
          rw (e, here, f) (store-Leads _ _ _ _ s (put-IsUntouched _ s same, put-same _ _ s)))

  copy-Holds :
      (fault : ℕ → Option Raised) (fuel round : ℕ) (before rest : Bytes) (s : Quarantine)
      → length rest < fuel
      → Holds before false s
      → Leads
          (λ _. Holds (before ++ rest) false)
          IsLeft
          (copy fault (incoming_path artifact) fuel round rest)
          s
  unfolding copy
  copy-Holds fault zero round before rest s enough h = absurd (omega arith)
  copy-Holds fault (suc fuel) round before rest s enough h =
      Leads-then _ s
        (raise_some-Leads (Holds before false) IsLeft (fault round) s h (h.0, (_, h.1)))
        (λ s1 h1.
          Leads-if {Q = λ _. Holds (before ++ rest) false} {E = IsLeft} _
            (λ e. Leads-pure _ _ tt s1 (rw (no_bytes rest (==→eq _ 0 e), append-nil before) h1))
            (λ e. Leads-then _ s1 (append_chunk-Holds before (take chunk_size rest) s1 h1) (λ s2 h2.
              let content : (before ++ take chunk_size rest) ++ drop chunk_size rest
                  ≡ before ++ rest =
                append_assoc before _ _
                ∙ ap (λ r. before ++ r) (take-append-drop chunk_size rest) in
              rw (sym content) (
                copy-Holds fault fuel (round + 1) (before ++ take chunk_size rest)
                  (drop chunk_size rest) s2 (omega (arith, enough, shorter rest e)) h2))))
    where
      no_bytes : (xs : Bytes) → length (take chunk_size xs) ≡ 0 → xs ≡ []
      no_bytes [] k = refl
      no_bytes (x ∷ xs) k = absurd (omega (arith, k, length-take chunk_size (x ∷ xs)))

      shorter :
          (xs : Bytes)
          → (length (take chunk_size xs) == 0) ≡ false
          → length (drop chunk_size xs) < length xs
      shorter [] k = absurd cc
      shorter (x ∷ xs) k = omega (arith, length-drop chunk_size (x ∷ xs))

  open_exclusive-Holds :
      (s : Quarantine)
      → IsUntouched s
      → Leads (λ _. Holds [] false) IsLeft (open_exclusive (incoming_path artifact)) s
  unfolding open_exclusive
  open_exclusive-Holds s h =
      Leads-bind {Q = λ taken s'. (taken ≡ is_present (incoming_path artifact) s) × (s' ≡ s)} _ s
        (Leads-gets _ _ _ s (refl, refl))
        (λ taken s' (e, f). elim (Option-cases (s.files (incoming_path artifact))) [
          | inl absent ↦
              rw (e, ap is_there absent, f)
                (store-Leads _ _ _ _ s (put-IsUntouched _ s h, put-same _ _ s))
          | inr (old, there) ↦
              rw (e, ap is_there there, f) (Leads-raise _ _ file_exists s (h, (old, there)))
        ])

  set_mode-Holds :
      (content : Bytes) (s : Quarantine)
      → Holds content false s
      → Leads (λ _. Holds content true) IsLeft (set_mode (incoming_path artifact)) s
  unfolding set_mode
  set_mode-Holds content s (same, here) =
      Leads-bind {Q = λ entry s'. (entry ≡ s.files (incoming_path artifact)) × (s' ≡ s)} _ s
        (Leads-gets _ _ _ s (refl, refl))
        (λ entry s' (e, f).
          rw (e, here, f) (store-Leads _ _ _ _ s (put-IsUntouched _ s same, put-same _ _ s)))

  put-IsStored :
      (content : Bytes) (s : Quarantine)
      → IsUntouched s
      → IsStored content (
          put (incoming_path artifact) none (
            put
              (quarantine_path artifact)
              (some (record { content = content; read_only = true }))
              s))
  put-IsStored content s same = record {
    stored =
        put-other (incoming_path artifact) (quarantine_path artifact) none _ (apart _ _)
        ∙ put-same (quarantine_path artifact) _ s;
    moved = put-same (incoming_path artifact) none _;
    others = λ p k l.
        put-other (incoming_path artifact) p none _ k
        ∙ (put-other (quarantine_path artifact) p _ s l ∙ same p k);
  }

  replace-IsStored :
      (content : Bytes) (s : Quarantine)
      → Holds content true s
      → Leads
          (λ _. IsStored content)
          IsLeft
          (replace (incoming_path artifact) (quarantine_path artifact))
          s
  unfolding replace
  replace-IsStored content s (same, here) =
      Leads-bind {Q = λ entry s'. (entry ≡ s.files (incoming_path artifact)) × (s' ≡ s)} _ s
        (Leads-gets _ _ _ s (refl, refl))
        (λ entry s' (e, f).
          rw (e, here, f)
            (Leads-then
              {Q = λ s''.
                s''
                ≡ put (quarantine_path artifact)
                    (some (record { content = content; read_only = true })) s}
              _ s (store-Leads _ _ _ _ s refl)
              (λ s'' g. rw g (store-Leads _ _ _ _ _ (put-IsStored content s same)))))

  abbrev IsAdmitted : Source → Place → Quarantine → Type 0
  IsAdmitted source place s = (place ≡ quarantine_path artifact) × IsStored source.content s

  copied-IsAdmitted :
      (source : Source) (s : Quarantine)
      → Holds [] false s
      → Leads
          (IsAdmitted source)
          IsLeft
          (copy source.copy_fault
              (incoming_path artifact)
              (length source.content + 1)
              0
              source.content
            >> (raise_some source.sync_fault
                >> (raise_some source.chmod_fault
                    >> (set_mode (incoming_path artifact)
                        >> (raise_some source.replace_fault
                            >> (replace (incoming_path artifact) (quarantine_path artifact)
                                >> pure (quarantine_path artifact)))))))
          s
  copied-IsAdmitted source s h =
      Leads-then _ s
        (copy-Holds source.copy_fault (length source.content + 1) 0 [] source.content s
          (omega arith) h)
        (λ s1 h1.
          Leads-then _ s1
            (raise_some-Leads (Holds source.content false) IsLeft source.sync_fault s1 h1
              (h1.0, (_, h1.1)))
            (λ s2 h2.
              Leads-then _ s2
                (raise_some-Leads (Holds source.content false) IsLeft source.chmod_fault s2 h2
                  (h2.0, (_, h2.1)))
                (λ s3 h3. Leads-then _ s3 (set_mode-Holds source.content s3 h3) (λ s4 h4.
                  Leads-then _ s4
                    (raise_some-Leads (Holds source.content true) IsLeft source.replace_fault s4 h4
                      (h4.0, (_, h4.1)))
                    (λ s5 h5.
                      Leads-then _ s5 (replace-IsStored source.content s5 h5)
                        (λ s6 h6. Leads-pure _ _ _ s6 (refl, h6)))))))

  opened-IsAdmitted :
      (source : Source) (s : Quarantine)
      → IsUntouched s
      → Leads
          (IsAdmitted source)
          IsLeft
          (open_exclusive (incoming_path artifact)
            >> (copy source.copy_fault
                  (incoming_path artifact)
                  (length source.content + 1)
                  0
                  source.content
                >> (raise_some source.sync_fault
                    >> (raise_some source.chmod_fault
                        >> (set_mode (incoming_path artifact)
                            >> (raise_some source.replace_fault
                                >> (replace (incoming_path artifact) (quarantine_path artifact)
                                    >> pure (quarantine_path artifact))))))))
          s
  opened-IsAdmitted source s h =
      Leads-then _ s (open_exclusive-Holds s h) (copied-IsAdmitted source)

  none-Leads :
      (P E : Quarantine → Type 0) (s : Quarantine) → P s → Leads (λ _. P) E (raise_some none) s
  unfolding raise_some
  none-Leads P E s h = Leads-pure _ _ tt s h

  pub admit_new-IsLeft :
      (source : Source)
      → source.mkdir_fault ≡ none
      → source.open_fault ≡ none
      → Leads (IsAdmitted source) IsLeft (admit_new source artifact) q
  unfolding admit_new
  admit_new-IsLeft source made opened =
      rw (made, opened)
        (Leads-then {Q = λ s. s ≡ q} _ q (none-Leads _ _ q refl) (λ s1 e1.
          Leads-then {Q = λ s. s ≡ q} _ s1 (none-Leads _ _ s1 e1)
            (λ s2 e2. rw e2 (opened-IsAdmitted source q (λ p k. refl)))))

  admit_new-IsAdmitted :
      (source : Source) → Leads (IsAdmitted source) IsUntouched (admit_new source artifact) q
  unfolding admit_new
  admit_new-IsAdmitted source =
      Leads-then {Q = λ s. s ≡ q} _ q (raise_some-Leads _ _ source.mkdir_fault q refl (λ p k. refl))
        (λ s1 e1. rw e1 (
          Leads-then {Q = λ s. s ≡ q} _ q
            (raise_some-Leads _ _ source.open_fault q refl (λ p k. refl))
            (λ s2 e2. rw e2 (
              Leads-mono (opened-IsAdmitted source q (λ p k. refl)) (λ place s h. h)
                (λ s h. h.0)))))

  -- What an admission that raises nothing leads to: the object was there and nothing changed, or it is
  -- stored.
  unfoldable pub IsDone : Source → Verdict → Place → Quarantine → Type 0
  IsDone source verdict place s =
      (is_admissible verdict ≡ true)
      × (place ≡ quarantine_path artifact)
      × (((is_present (quarantine_path artifact) q ≡ true) × (s ≡ q))
          ⊎ ((is_present (quarantine_path artifact) q ≡ false) × IsStored source.content s))

  -- An admission returns the path of the object, for a malicious, suspicious or PUA verdict only. An
  -- object that was there is left as it is, with all other files; another is there afterwards,
  -- complete and read-only, its temporary file is gone, and no other file has changed. Where the
  -- admission raises, no file but the temporary one of the object has changed: no part of an object
  -- is ever found under its path.
  pub admit-IsDone :
      (source : Source) (verdict : Verdict)
      → Leads (IsDone source verdict) IsUntouched (admit source artifact verdict) q
  unfolding admit IsDone
  admit-IsDone source verdict =
      Leads-if {Q = IsDone source verdict} {E = IsUntouched} (is_admissible verdict)
        (λ fit.
          Leads-bind {Q = λ exists s. (exists ≡ is_present (quarantine_path artifact) q) × (s ≡ q)}
            _ q (Leads-gets _ _ _ q (refl, refl))
            (λ exists s (e, f). rw f (
              Leads-if {Q = IsDone source verdict} {E = IsUntouched} exists
                (λ there. Leads-pure _ _ _ q (fit, refl, inl (sym e ∙ there, refl)))
                (λ absent.
                  Leads-mono (admit_new-IsAdmitted source)
                    (λ place s' h. (fit, h.0, inr (sym e ∙ absent, h.1))) (λ s' h. h)))))
        (λ unfit. Leads-raise _ _ value_error q (λ p k. refl))
