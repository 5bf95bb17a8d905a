-- ===== src/Structural/Lha/Archive.antt =====
-- The loop of `_lha` of src/avbox/analyzers/structural.py ends, and finds nothing exactly in an archive.
use avbox.Prelude.{
  ℕ, zero, suc, ◌+◌, ◌≤◌, ◌<◌, String, ◌≡◌, refl, sym, ◌∙◌, ◌≢◌, ◌↔◌, ◌⊎◌, inl, inr, true, false,
  some, [], arith, Bool-cases, length,
}
use avbox.Prelude.Bytes.{Bytes, byte}
use avbox.Structural.Types.{valid, truncated, contains, StructuralValidation}
use avbox.Structural.Results.{result, state_of}
use avbox.Structural.Facts.{state_of-nil}
use avbox.Structural.Lha.{
  Scan, Step, leave, next, check_member, goes_on, scan_members, scan_start, validate_lha,
  lha_result,
}
use avbox.Structural.Lha.Members.{IsNext, Passes, check_member-Passes, check_member-next}

-- `n` members one behind the other, from `p` to `q`.
pub data IsRun (file : Bytes) : ℕ → ℕ → ℕ → Type 0 where
  stop : {p : ℕ} → IsRun file 0 p p
  step : {n p q r : ℕ} → IsNext file p r → IsRun file n r q → IsRun file (suc n) p q

-- The file ends at `q`, or has the byte 0 there.
abbrev pub IsEnd : Bytes → ℕ → Type 0
IsEnd file q = (length file ≤ q) ⊎ (byte file q ≡ 0)

-- Members up to the end, or up to the limit.
abbrev pub IsArchive : ℕ → Bytes → Type 0
IsArchive max_nodes file =
    (n : ℕ) × (q : ℕ) × IsRun file n 0 q × (n ≤ max_nodes) × (IsEnd file q ⊎ (n ≡ max_nodes))

Step-cases : (r : Step) → ((t : Scan) × (r ≡ leave t)) ⊎ ((t : Scan) × (r ≡ next t))
Step-cases (leave t) = inl (t, refl)
Step-cases (next t) = inr (t, refl)

stops_at :
    (max_nodes : ℕ) (file : Bytes) (s : Scan)
    → goes_on max_nodes file s ≡ false
    → IsEnd file s.position ⊎ (max_nodes ≤ s.members)
stops_at m file s h = ground (arith, h)

goes-true :
    (max_nodes : ℕ) (file : Bytes) (s : Scan)
    → s.position < length file
    → byte file s.position ≢ 0
    → s.members < max_nodes
    → goes_on max_nodes file s ≡ true
goes-true m file s a b c = ground (arith, a, b, c)

same_end : {A : Type 0} (a b : ℕ) {m : ℕ} → a ≡ b → A ⊎ (a ≡ m) → A ⊎ (b ≡ m)
same_end a b e (inl h) = inl h
same_end a b e (inr h) = inr (sym e ∙ h)

goes-below :
    (max_nodes : ℕ) (file : Bytes) (s : Scan)
    → goes_on max_nodes file s ≡ true
    → s.members < max_nodes
goes-below m file s h = ground (arith, h)

goes-false :
    (max_nodes : ℕ) (file : Bytes) (s : Scan)
    → IsEnd file s.position ⊎ (0 + s.members ≡ max_nodes)
    → goes_on max_nodes file s ≡ false
goes-false m file s h = ground (arith, h)

module _ (max_nodes : ℕ) (file : Bytes) where
  -- What the loop from `s` on ends with.
  Clean : Scan → Scan → Type 0
  Clean s t =
      t.findings ≡ []
      → (s.findings ≡ [])
        × ((n : ℕ) × IsRun file n s.position t.position
            × (t.members ≡ n + s.members)
            × (s.members ≤ max_nodes → t.members ≤ max_nodes)
            × (IsEnd file t.position ⊎ (max_nodes ≤ t.members)))

  Clean-next :
      (s u t : Scan) → s.members < max_nodes → Passes file s (next u) → Clean u t → Clean s t
  unfolding Clean Passes
  Clean-next s u t below (_, _, count, passed) rest e =
      let (empty, (n, run, total, bound, end)) = rest e in
      let (before, member) = passed empty in
      (
        before,
        (
          suc n,
          step member run,
          omega (arith, total, count),
          (λ _. bound (omega (arith, count, below))),
          end,
        ),
      )

  scan_members_lem :
      (fuel : ℕ) (s : Scan)
      → s.position ≤ length file
      → length file + 1 ≤ fuel + s.position
      → (t : Scan) × (scan_members max_nodes file fuel s ≡ some t) × Clean s t
  unfolding scan_members Clean Passes
  scan_members_lem zero s within enough = absurd (omega arith)
  scan_members_lem (suc fuel) s within enough = elim (Bool-cases (goes_on max_nodes file s)) [
    | inl on ↦ elim (Step-cases (check_member file s)) [
      | inl (t, left) ↦
          let found : t.findings ≢ [] = rw left at (check_member-Passes file s) in
          (t, rw (on, left, scan_members) refl, λ e. absurd (found e))
      | inr (u, went) ↦
          let passes : Passes file s (next u) = rw went at (check_member-Passes file s) in
          let (t, runs, clean) =
            scan_members_lem fuel u passes.1 (omega (arith, enough, passes.0)) in
          (
            t,
            rw (on, went, scan_members) runs,
            Clean-next s u t (goes-below max_nodes file s on) passes clean,
          )
    ]
    | inr off ↦ (
      s,
      rw (off, scan_members) refl,
      λ e. (e, (0, stop, omega arith, (λ h. h), stops_at max_nodes file s off)),
    )
  ]

  scan_members-run :
      (fuel n : ℕ) (s : Scan) (q : ℕ)
      → IsRun file n s.position q
      → s.findings ≡ []
      → n + s.members ≤ max_nodes
      → IsEnd file q ⊎ (n + s.members ≡ max_nodes)
      → (t : Scan) × (scan_members max_nodes file fuel s ≡ some t)
      → (t : Scan) × (scan_members max_nodes file fuel s ≡ some t) × (t.findings ≡ [])
  unfolding scan_members
  scan_members-run zero n s q run empty few end (t, runs) = absurd cc
  scan_members-run (suc fuel) zero s q stop empty few end (t, runs) =
      (s, rw (goes-false max_nodes file s end, scan_members) refl, empty)
  scan_members-run (suc fuel) (suc n) s q (step (header, m, at) run) empty few end (t, runs) =
      let (u, went, place, count, found) = check_member-next file s header m empty in
      let some_byte : byte file s.position ≢ 0 = λ e. omega (arith, m.sized, e) in
      let on = goes-true max_nodes file s (omega (arith, m.whole)) some_byte (omega (arith, few)) in
      let there : u.position ≡ _ = place ∙ sym at in
      let (v, ends, clean) =
        scan_members-run fuel n u q (rw there run) found (omega (arith, few, count))
          (same_end (suc n + s.members) (n + u.members) (omega (arith, count)) end)
          (t, rw (on, went, scan_members) at runs) in
      (v, rw (on, went, scan_members) ends, clean)

-- `_lha` ends on every file, and calls it VALID exactly if stored members follow one another from
-- its start up to the byte 0 or to the end of the file, or up to `max_nodes` of them: each with its
-- header inside the file, the sum of the header and the CRC of the content as the header says.
pub validate_lha-IsArchive :
    (max_nodes : ℕ) (sha256 : String) (file : Bytes)
    → (v : StructuralValidation) × (validate_lha max_nodes sha256 file ≡ some v)
      × ((v.state ≡ valid) ↔ IsArchive max_nodes file)
unfolding validate_lha lha_result Clean result contains state_of
validate_lha-IsArchive m sha256 file =
    let (t, runs, clean) =
      scan_members_lem m file (length file + 1) scan_start (omega arith) (omega arith) in
    (
      lha_result sha256 t,
      rw (runs, validate_lha) refl,
      (
        λ h.
            let (_, (n, run, total, bound, end)) =
              clean (state_of-nil _ truncated t.findings (λ e. cc) h) in
            let count : t.members ≡ n = omega (arith, total) in
            let few = bound (omega arith) in
            (n, t.position, run, rw count at few, ground (arith, end, few, count)),
        λ (n, q, run, few, end).
            let (u, same, empty) =
              scan_members-run m file (length file + 1) n scan_start q run refl (omega (arith, few))
                (same_end n (n + 0) (omega arith) end) (t, runs) in
            let one : u ≡ t = cc in
            let none_found : t.findings ≡ [] = rw one at empty in rw none_found refl,
      ),
    )
