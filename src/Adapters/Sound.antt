-- ===== src/Adapters/Sound.antt =====
-- What a verdict of an adapter rests on.
use avbox.Prelude.{
  String, ◌≡◌, refl, ap, ◌≢◌, ◌⊎◌, inl, inr, Bool, true, false, not, ◌&&◌, ◌||◌, Option, none, some,
  List, [], ◌∷◌, ◌++◌, arith, if◌then◌else◌,
}
use avbox.Prelude.{if_by}
use avbox.Models.Verdict.{clean, malicious, suspicious}
use avbox.Adapters.Output.{Text, is_blank}
use avbox.Adapters.Command.{CommandResult}
use avbox.Adapters.Normalize.{
  FindingKind, operational_error, Adapter, clamav, loki, maldet, yara, yara_x, rkhunter, chkrootkit,
  Patterns, Normalized, is_code, failure, no_match, normalize_clamav, yara_verdict, has_failed,
  normalize_yara, normalize_loki, maldet_verdict, normalize_maldet, normalize_rootkit, normalize,
}

-- The command came to an end with exit code 0 or 1, and inside `bwrap` where that matters.
abbrev pub ran_well : Adapter → CommandResult → Bool
ran_well rkhunter native = not (has_failed native)
ran_well chkrootkit native = not (has_failed native)
ran_well _ native = not native.isolation_failed && not (has_failed native)

-- A report for a command that ran well or not.
pub data Reports (well : Bool) : Normalized → Type 0 where
  failed : (reason : String) → well ≡ false → Reports well (failure reason)
  matched_nothing : (native : String) → well ≡ true → Reports well (no_match native)
  matched :
      {n : Normalized} (kind : FindingKind)
      → well ≡ true
      → (n.verdict ≡ malicious) ⊎ (n.verdict ≡ suspicious)
      → n.kind ≡ some kind
      → kind ≢ operational_error
      → Reports well n

-- The common start of the adapters for files.
file_Reports :
    (native : CommandResult) (n : Normalized)
    → ((not native.isolation_failed && not (has_failed native)) ≡ true
        → Reports (not native.isolation_failed && not (has_failed native)) n)
    → Reports (not native.isolation_failed && not (has_failed native)) (
        if native.isolation_failed
        then failure "isolation-failed"
        else if has_failed native
        then failure "scanner-error"
        else n)
file_Reports native n h =
    if_by (Reports _) native.isolation_failed (λ bad. failed "isolation-failed" (rw bad))
      (λ inside.
        if_by (Reports _) (has_failed native) (λ bad. failed "scanner-error" (ground arith))
          (λ fine. h (rw (inside, fine))))

yara-Reports : (b : Bool) (rules : List Text) → b ≡ true → Reports b (yara_verdict rules)
yara-Reports b [] h = matched_nothing "no-match" h
yara-Reports b (r ∷ rs) h = matched _ h (inr refl) refl (λ e. cc)

maldet-Reports : (b : Bool) (hits : Option Text) → b ≡ true → Reports b (maldet_verdict hits)
maldet-Reports b none h = matched_nothing "no-hits" h
maldet-Reports b (some n) h = matched _ h (inl refl) refl (λ e. cc)

clamav-Reports :
    (native : CommandResult)
    → Reports (not native.isolation_failed && not (has_failed native)) (normalize_clamav native)
unfolding normalize_clamav
clamav-Reports native =
    if_by (Reports _) native.isolation_failed (λ bad. failed "isolation-failed" (rw bad))
      (λ inside.
        if_by (Reports _) native.timed_out (λ late. failed "timeout" (rw (inside, late)))
          (λ ended.
            if_by (Reports _) (is_code 0 native.exit_code)
              (λ zero_code. matched_nothing "clean" (rw (inside, ended, zero_code)))
              (λ other.
                if_by (Reports _) (is_code 1 native.exit_code)
                  (λ one. matched _ (rw (inside, ended, other, one)) (inl refl) refl (λ e. cc))
                  (λ strange. failed "scanner-error" (rw (inside, ended, other, strange))))))

loki-Reports :
    (patterns : Patterns) (native : CommandResult)
    → Reports
        (not native.isolation_failed && not (has_failed native))
        (normalize_loki patterns native)
unfolding normalize_loki
loki-Reports patterns native = file_Reports native _ (λ well.
    if_by (Reports _) (patterns.has_alert (native.stdout ++ native.stderr))
      (λ _. matched _ well (inl refl) refl (λ e. cc))
      (λ _.
        if_by (Reports _) (patterns.has_warning (native.stdout ++ native.stderr))
          (λ _. matched _ well (inr refl) refl (λ e. cc)) (λ _. matched_nothing "clean" well)))

rootkit-Reports :
    (native : CommandResult) → Reports (not (has_failed native)) (normalize_rootkit native)
unfolding normalize_rootkit
rootkit-Reports native =
    if_by (Reports _) (has_failed native) (λ bad. failed "error" (ap not bad))
      (λ fine.
        if_by (Reports _)
          (not (is_blank (native.stdout ++ native.stderr)) || is_code 1 native.exit_code)
          (λ _. matched _ (ap not fine) (inr refl) refl (λ e. cc))
          (λ _. matched_nothing "clean" (ap not fine)))

pub normalize-Reports :
    (patterns : Patterns) (adapter : Adapter) (native : CommandResult)
    → Reports (ran_well adapter native) (normalize patterns adapter native)
unfolding normalize normalize_yara normalize_maldet
normalize-Reports patterns clamav native = clamav-Reports native
normalize-Reports patterns loki native = loki-Reports patterns native
normalize-Reports patterns maldet native = file_Reports native _ (maldet-Reports _ _)
normalize-Reports patterns (yara _) native = file_Reports native _ (yara-Reports _ _)
normalize-Reports patterns (yara_x _) native = file_Reports native _ (yara-Reports _ _)
normalize-Reports patterns rkhunter native = rootkit-Reports native
normalize-Reports patterns chkrootkit native = rootkit-Reports native

pub Reports-clean : (b : Bool) (n : Normalized) → Reports b n → n.verdict ≡ clean → b ≡ true
Reports-clean b n (failed reason h) e = absurd cc
Reports-clean b n (matched_nothing native h) e = h
Reports-clean b n (matched kind h which k l) e = h

well_completed :
    (adapter : Adapter) (native : CommandResult)
    → ran_well adapter native ≡ true
    → has_failed native ≡ false
well_completed clamav native h = ground arith
well_completed loki native h = ground arith
well_completed maldet native h = ground arith
well_completed (yara _) native h = ground arith
well_completed (yara_x _) native h = ground arith
well_completed rkhunter native h = ground arith
well_completed chkrootkit native h = ground arith
