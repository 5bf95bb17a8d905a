-- ===== src/Adapters/Normalize.antt =====
-- `command` and `normalize` of the adapters in src/avbox/scanners/adapters.py. The regular expressions
-- are parameters.
use avbox.Prelude.{
  ℕ, String, Bool, false, not, ◌||◌, Option, none, some, List, [], ◌∷◌, ◌++◌, map, ◌==◌,
  if◌then◌else◌, select, Result, ok, err,
}
use avbox.Prelude.Results.{◌>>=◌}
use avbox.Prelude.Int.{ℤ, pos, negsuc}
use avbox.Effects.{Raised}
use avbox.Models.Verdict.{Verdict, clean, malicious, suspicious, error}
use avbox.Adapters.Output.{
  Text, is_blank, splitlines, first_word, ends_with, remove_suffix, last_part, join_commas,
}
use avbox.Adapters.Command.{CommandResult, Host, run}

pub data FindingKind : Type 0 where
  signature_match ioc_match rule_match heuristic_warning integrity_warning rootkit_warning
        operational_error :
      FindingKind

-- The adapters: those for files, YARA and YARA-X with the path of the rules, and the two for a host.
pub data Adapter : Type 0 where
  clamav loki maldet : Adapter
  yara yara_x : Option String → Adapter
  rkhunter chkrootkit : Adapter

-- `re.search` for the words ALERT and WARNING, and for a number of hits that is not 0.
pub record Patterns : Type 0 where
  pub has_alert : Text → Bool
  pub has_warning : Text → Bool
  pub hits : Text → Option Text

-- The verdict with what the result says of it.
pub record Normalized : Type 0 where
  pub verdict : Verdict
  pub native_verdict : String
  pub detection : Option Text
  pub kind : Option FindingKind

abbrev pub no_rules : Raised
no_rules = record { kind = "ValueError"; text = "rules path is not configured" }

-- `command`, for the adapters of files, and the arguments of `system_scan`.
unfoldable pub command_of : Adapter → String → Result Raised (List String)
command_of clamav path = ok ("clamscan" ∷ "--no-summary" ∷ "--infected" ∷ "--" ∷ path ∷ [])
command_of loki path =
    ok ("loki.py" ∷ "--path" ∷ path ∷ "--noprocscan" ∷ "--dontwait" ∷ "--noindicator" ∷ [])
command_of maldet path = ok ("maldet" ∷ "--scan-all" ∷ path ∷ [])
command_of (yara none) path = err no_rules
command_of (yara (some rules)) path = ok ("yara" ∷ "--no-warnings" ∷ rules ∷ path ∷ [])
command_of (yara_x none) path = err no_rules
command_of (yara_x (some rules)) path = ok ("yr" ∷ "scan" ∷ rules ∷ path ∷ [])
command_of rkhunter path =
    ok ("rkhunter" ∷ "--check" ∷ "--skip-keypress" ∷ "--report-warnings-only" ∷ "--nocolors" ∷ [])
command_of chkrootkit path = ok ("chkrootkit" ∷ "-q" ∷ [])

abbrev pub is_code : ℕ → ℤ → Bool
is_code n (pos m) = m == n
is_code n (negsuc m) = false

-- `native.exit_code not in {0, 1}`, negated.
abbrev pub is_zero_or_one : ℤ → Bool
is_zero_or_one code = is_code 0 code || is_code 1 code

abbrev pub failure : String → Normalized
failure reason = record {
  verdict = error;
  native_verdict = reason;
  detection = none;
  kind = some operational_error;
}

abbrev pub no_match : String → Normalized
no_match native = record { verdict = clean; native_verdict = native; detection = none; kind = none }

abbrev pub non_empty : Text → Option Text
non_empty [] = none
non_empty (c ∷ cs) = some (c ∷ cs)

-- " FOUND"
abbrev pub found : Text
found = 32 ∷ 70 ∷ 79 ∷ 85 ∷ 78 ∷ 68 ∷ []

-- The first line that ends with the mark, or an empty one.
unfoldable pub found_line : List Text → Text
found_line [] = []
found_line (l ∷ ls) = let rest = found_line ls in if ends_with found l then l else rest

unfoldable pub normalize_clamav : CommandResult → Normalized
normalize_clamav native =
    if native.isolation_failed
    then failure "isolation-failed"
    else if native.timed_out
    then failure "timeout"
    else if is_code 0 native.exit_code
    then no_match "clean"
    else if is_code 1 native.exit_code
    then (record {
      verdict = malicious;
      native_verdict = "FOUND";
      detection =
          non_empty (remove_suffix found (last_part (found_line (splitlines native.stdout))));
      kind = some signature_match;
    })
    else failure "scanner-error"

-- The rules that matched: the first word of each line that is not blank.
unfoldable pub rules_of : List Text → List Text
rules_of ls = map first_word (select (λ l. not (is_blank l)) ls)

abbrev pub yara_verdict : List Text → Normalized
yara_verdict [] = no_match "no-match"
yara_verdict (r ∷ rs) = record {
  verdict = suspicious;
  native_verdict = "rule-match";
  detection = some (join_commas (r ∷ rs));
  kind = some rule_match;
}

-- `if native.timed_out or native.exit_code not in {0, 1}`
abbrev pub has_failed : CommandResult → Bool
has_failed native = native.timed_out || not (is_zero_or_one native.exit_code)

unfoldable pub normalize_yara : CommandResult → Normalized
normalize_yara native =
    if native.isolation_failed
    then failure "isolation-failed"
    else if has_failed native
    then failure "scanner-error"
    else yara_verdict (rules_of (splitlines native.stdout))

unfoldable pub normalize_loki : Patterns → CommandResult → Normalized
normalize_loki patterns native =
    if native.isolation_failed
    then failure "isolation-failed"
    else if has_failed native
    then failure "scanner-error"
    else if patterns.has_alert (native.stdout ++ native.stderr)
    then (record {
      verdict = malicious;
      native_verdict = "ALERT";
      detection = none;
      kind = some ioc_match;
    })
    else if patterns.has_warning (native.stdout ++ native.stderr)
    then (record {
      verdict = suspicious;
      native_verdict = "WARNING";
      detection = none;
      kind = some heuristic_warning;
    })
    else no_match "clean"

abbrev pub maldet_verdict : Option Text → Normalized
maldet_verdict none = no_match "no-hits"
maldet_verdict (some n) = record {
  verdict = malicious;
  native_verdict = "hits";
  detection = some n;
  kind = some signature_match;
}

unfoldable pub normalize_maldet : Patterns → CommandResult → Normalized
normalize_maldet patterns native =
    if native.isolation_failed
    then failure "isolation-failed"
    else if has_failed native
    then failure "scanner-error"
    else maldet_verdict (patterns.hits (native.stdout ++ native.stderr))

-- `RootkitAdapter.normalize`
unfoldable pub normalize_rootkit : CommandResult → Normalized
normalize_rootkit native =
    if has_failed native
    then failure "error"
    else if not (is_blank (native.stdout ++ native.stderr)) || is_code 1 native.exit_code
    then (record {
      verdict = suspicious;
      native_verdict = "warning";
      detection = none;
      kind = some rootkit_warning;
    })
    else no_match "clean"

-- `normalize`
unfoldable pub normalize : Patterns → Adapter → CommandResult → Normalized
normalize patterns clamav native = normalize_clamav native
normalize patterns loki native = normalize_loki patterns native
normalize patterns maldet native = normalize_maldet patterns native
normalize patterns (yara _) native = normalize_yara native
normalize patterns (yara_x _) native = normalize_yara native
normalize patterns rkhunter native = normalize_rootkit native
normalize patterns chkrootkit native = normalize_rootkit native

-- The tools for a host run without `bwrap`, the others where it is set.
abbrev pub isolates : Adapter → Bool → Bool
isolates rkhunter use_bwrap = false
isolates chkrootkit use_bwrap = false
isolates _ use_bwrap = use_bwrap

-- `run_prepared`, or `normalize(system_scan())`, in a directory.
unfoldable pub run_prepared :
    Patterns → Bool → Host → Adapter → String → String → Result Raised Normalized
run_prepared patterns use_bwrap host adapter path cwd = do
  argv ← command_of adapter path
  native ← run (isolates adapter use_bwrap) host argv cwd
  ok (normalize patterns adapter native)
