-- ===== src/Tests/Adapters.antt =====
-- Runs of external engines.
use avbox.Prelude.{String, ◌≡◌, refl, true, false, none, some, List, [], ◌∷◌, any, ok, err}
use avbox.Prelude.Int.{pos, negsuc}
use avbox.Models.Verdict.{clean}
use avbox.Adapters.Output.{
  is_space, lstrip, is_blank, is_break, lines_from, splitlines, until_space, first_word, ends_with,
  remove_suffix, after_colon, last_part, join_commas,
}
use avbox.Adapters.Command.{
  CommandResult, completed, Host, is_remediation, result_of, run, read_only_policy,
}
use avbox.Adapters.Normalize.{
  clamav, yara, Patterns, command_of, failure, found_line, normalize_clamav, rules_of,
  normalize_yara, normalize, run_prepared,
}
use avbox.Adapters.Clean.{IsCleanRun, run_prepared-clean}
use avbox.Prelude.Bytes.{starts_with}

abbrev patterns : Patterns
patterns = record { has_alert = λ _. false; has_warning = λ _. false; hits = λ _. none }

-- "a: X FOUND"
abbrev infected : CommandResult
infected = record {
  argv = [];
  exit_code = pos 1;
  stdout = 97 ∷ 58 ∷ 32 ∷ 88 ∷ 32 ∷ 70 ∷ 79 ∷ 85 ∷ 78 ∷ 68 ∷ 10 ∷ [];
  stderr = [];
  timed_out = false;
  isolated = true;
  isolation_failed = false;
}

detected : (normalize patterns clamav infected).detection ≡ some (88 ∷ [])
unfolding normalize normalize_clamav found_line splitlines lines_from is_break ends_with starts_with
    last_part after_colon remove_suffix
detected = refl

killed :
    normalize patterns (yara none) (record infected { exit_code = negsuc 8 })
    ≡ failure "scanner-error"
unfolding normalize normalize_yara
killed = refl

-- "r f" and a blank line
one_rule :
    (normalize patterns
      (yara none)
      (record infected { stdout = 114 ∷ 32 ∷ 102 ∷ 10 ∷ 32 ∷ 10 ∷ [] })).detection
    ≡ some (114 ∷ [])
unfolding normalize normalize_yara rules_of splitlines lines_from is_break is_blank lstrip is_space
    first_word until_space join_commas
one_rule = refl

abbrev host : Host
host = record { has_bwrap = true; start = λ _ _. completed (pos 0) [] [] }

forbidden : run true host ("maldet" ∷ "--clean" ∷ []) "/tmp" ≡ err read_only_policy
unfolding run any
forbidden = refl

run_prepared-clean_example :
    (argv : List String) × (command_of clamav "/w/object" ≡ ok argv)
    × (any is_remediation argv ≡ false)
    × IsCleanRun clamav true host argv "/w"
unfolding run_prepared run command_of result_of normalize normalize_clamav any lstrip starts_with
run_prepared-clean_example =
    run_prepared-clean patterns true host clamav "/w/object" "/w"
      (record { verdict = clean; native_verdict = "clean"; detection = none; kind = none }) refl
      refl
