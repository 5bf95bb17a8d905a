-- ===== src/Adapters/Clean.antt =====
-- How the command behind a CLEAN verdict of an adapter was run: src/avbox/scanners/command.py and
-- src/avbox/scanners/adapters.py.
use avbox.Prelude.{
  String, ◌≡◌, refl, sym, ap, ◌∙◌, ◌⊎◌, inl, inr, Bool, true, false, not, ◌&&◌, ◌||◌, List, [], ◌∷◌,
  ◌++◌, arith, ◌==◌, if◌then◌else◌, Bool-cases, or_false, length, any, Result, ok, err,
}
use avbox.Prelude.{ℕ, ==→eq}
use avbox.Prelude.Bytes.{starts_with}
use avbox.Prelude.Results.{bind-ok}
use avbox.Prelude.Int.{ℤ, pos, negsuc}
use avbox.Effects.{Raised}
use avbox.Models.Verdict.{clean}
use avbox.Adapters.Output.{Text, lstrip}
use avbox.Adapters.Command.{
  CommandResult, Process, completed, expired, not_started, Host, is_remediation, read_only_policy,
  sandbox_of, is_zero, bwrap_mark, result_of, run,
}
use avbox.Adapters.Normalize.{
  Adapter, clamav, loki, maldet, yara, yara_x, rkhunter, chkrootkit, Patterns, Normalized,
  command_of, is_code, is_zero_or_one, has_failed, normalize, isolates, run_prepared,
}
use avbox.Adapters.Sound.{ran_well, Reports-clean, normalize-Reports}

well_completed :
    (adapter : Adapter) (native : CommandResult)
    → ran_well adapter native ≡ true
    → has_failed native ≡ false
well_completed clamav native h = ground arith
well_completed loki native h = ground arith
well_completed maldet native h = ground arith
well_completed (yara _) native h = ground arith
well_completed (yara_x _) native h = ground arith
well_completed rkhunter native h = ground arith
well_completed chkrootkit native h = ground arith

-- The adapters that look at a file.
pub is_for_file : Adapter → Bool
is_for_file rkhunter = false
is_for_file chkrootkit = false
is_for_file _ = true

-- How the command `argv` of an adapter is started in `cwd`, with the exit code and the error output it
-- ends with: in a sandbox without a network, in which the host can only be read, and which did not
-- itself fail; or as it is, for an adapter of the host, where no sandbox is wanted, and where
-- `bwrap` is not installed.
pub data IsStarted (adapter : Adapter) (use_bwrap : Bool) (host : Host) (argv : List String)
    (cwd : String) (code : ℤ) (err_out : Text) : List String → Type 0 where
  sandboxed :
      is_for_file adapter ≡ true
      → use_bwrap ≡ true
      → host.has_bwrap ≡ true
      → (code ≡ pos 0)
        ⊎ (starts_with (98 ∷ 119 ∷ 114 ∷ 97 ∷ 112 ∷ 58 ∷ []) (lstrip err_out) ≡ false)
      → IsStarted adapter use_bwrap host argv cwd code err_out (
          "bwrap" ∷ "--die-with-parent" ∷ "--new-session" ∷ "--unshare-net" ∷ "--ro-bind" ∷ "/"
          ∷ "/" ∷ "--dev" ∷ "/dev" ∷ "--proc" ∷ "/proc" ∷ "--tmpfs" ∷ "/tmp" ∷ "--chdir" ∷ cwd
          ∷ "--" ∷ argv)
  bare :
      (is_for_file adapter ≡ false) ⊎ ((use_bwrap ≡ false) ⊎ (host.has_bwrap ≡ false))
      → IsStarted adapter use_bwrap host argv cwd code err_out argv

-- The command was started in that way and came to its end with exit code 0 or 1.
pub record IsCleanRun (adapter : Adapter) (use_bwrap : Bool) (host : Host) (argv : List String)
    (cwd : String) : Type 0 where
  pub command : List String
  pub code : ℤ
  pub out : Text
  pub err_out : Text
  pub ended : host.start command cwd ≡ completed code out err_out
  pub zero_or_one : (code ≡ pos 0) ⊎ (code ≡ pos 1)
  pub started : IsStarted adapter use_bwrap host argv cwd code err_out command

well_inside :
    (adapter : Adapter) (native : CommandResult)
    → is_for_file adapter ≡ true
    → ran_well adapter native ≡ true
    → native.isolation_failed ≡ false
unfolding is_for_file
well_inside clamav native h w = ground arith
well_inside loki native h w = ground arith
well_inside maldet native h w = ground arith
well_inside (yara _) native h w = ground arith
well_inside (yara_x _) native h w = ground arith
well_inside rkhunter native h w = absurd cc
well_inside chkrootkit native h w = absurd cc

isolates_lem : (adapter : Adapter) (b : Bool) → isolates adapter b ≡ is_for_file adapter && b
unfolding is_for_file
isolates_lem clamav b = refl
isolates_lem loki b = refl
isolates_lem maldet b = refl
isolates_lem (yara _) b = refl
isolates_lem (yara_x _) b = refl
isolates_lem rkhunter b = refl
isolates_lem chkrootkit b = refl

is_code-eq : (n : ℕ) (code : ℤ) → is_code n code ≡ true → code ≡ pos n
is_code-eq n (pos m) h = ap pos (==→eq m n h)
is_code-eq n (negsuc m) h = absurd cc

zero-eq : (code : ℤ) → is_zero code ≡ true → code ≡ pos 0
zero-eq (pos m) h = ap pos (==→eq m 0 h)
zero-eq (negsuc m) h = absurd cc

zero_or_one-cases : (code : ℤ) → is_zero_or_one code ≡ true → (code ≡ pos 0) ⊎ (code ≡ pos 1)
zero_or_one-cases code h = elim (Bool-cases (is_code 0 code)) [
  | inl e ↦ inl (is_code-eq 0 code e)
  | inr e ↦ let one : is_code 1 code ≡ true = ground arith in inr (is_code-eq 1 code one)
]

-- What the sandbox made of the exit code and the error output.
abbrev broke : Bool → ℤ → Text → Bool
broke isolated code err_out =
    isolated && (not (is_zero code) && starts_with bwrap_mark (lstrip err_out))

of_result : {A : Type 0} → (CommandResult → A) → A → Result Raised CommandResult → A
of_result f default (ok native) = f native
of_result f default (err e) = default

result_of-ended :
    (argv : List String) (isolated : Bool) (p : Process) (native : CommandResult)
    → result_of argv isolated p ≡ ok native
    → has_failed native ≡ false
    → (code : ℤ) × (out : Text) × (err_out : Text) × (p ≡ completed code out err_out)
      × (is_zero_or_one code ≡ true)
      × (native.isolation_failed ≡ broke isolated code err_out)
unfolding result_of of_result
result_of-ended argv isolated (completed code out err_out) native e h = (
  code,
  out,
  err_out,
  refl,
  let fine = ap (of_result has_failed true) e ∙ h in ground arith,
  sym (ap (of_result (λ x. x.isolation_failed) true) e),
)
result_of-ended argv isolated (expired out err_out) native e h =
    let bad = ap (of_result has_failed false) e ∙ h in absurd cc
result_of-ended argv isolated (not_started raised) native e h = absurd cc

not_broke :
    (code : ℤ) (err_out : Text)
    → broke true code err_out ≡ false
    → (code ≡ pos 0) ⊎ (starts_with bwrap_mark (lstrip err_out) ≡ false)
not_broke code err_out h = elim (Bool-cases (is_zero code)) [
  | inl e ↦ inl (zero-eq code e)
  | inr e ↦ inr (rw e at h)
]

wanted : (a b c : Bool) → ((a && b) && c) ≡ true → (a ≡ true) × (b ≡ true) × (c ≡ true)
wanted a b c h = ground arith

unwanted : (a b c : Bool) → ((a && b) && c) ≡ false → (a ≡ false) ⊎ ((b ≡ false) ⊎ (c ≡ false))
unwanted false b c h = inl refl
unwanted true false c h = inr (inl refl)
unwanted true true c h = inr (inr h)

ended-IsCleanRun :
    (adapter : Adapter) (use_bwrap : Bool) (host : Host) (argv : List String) (cwd : String)
    (native : CommandResult) (isolated : Bool)
    → ((is_for_file adapter && use_bwrap) && host.has_bwrap) ≡ isolated
    → result_of argv isolated (host.start (if isolated then sandbox_of cwd ++ argv else argv) cwd)
      ≡ ok native
    → ran_well adapter native ≡ true
    → IsCleanRun adapter use_bwrap host argv cwd
ended-IsCleanRun adapter use_bwrap host argv cwd native true which e well =
    let (code, out, err_out, ended, fine, inside) =
      result_of-ended argv true _ native e (well_completed adapter native well) in
    let (for_file, on, there) = wanted _ _ _ which in
    record {
      command = sandbox_of cwd ++ argv;
      code = code;
      out = out;
      err_out = err_out;
      ended = ended;
      zero_or_one = zero_or_one-cases code fine;
      started =
          sandboxed for_file on there
            (not_broke code err_out (sym inside ∙ well_inside adapter native for_file well));
    }
ended-IsCleanRun adapter use_bwrap host argv cwd native false which e well =
    let (code, out, err_out, ended, fine, inside) =
      result_of-ended argv false _ native e (well_completed adapter native well) in
    record {
      command = argv;
      code = code;
      out = out;
      err_out = err_out;
      ended = ended;
      zero_or_one = zero_or_one-cases code fine;
      started = bare (unwanted _ _ _ which);
    }

run-ok :
    (use_bwrap : Bool) (host : Host) (argv : List String) (cwd : String) (native : CommandResult)
    → run use_bwrap host argv cwd ≡ ok native
    → (any is_remediation argv ≡ false)
      × (result_of argv
            (use_bwrap && host.has_bwrap)
            (host.start (if use_bwrap && host.has_bwrap then sandbox_of cwd ++ argv else argv) cwd)
          ≡ ok native)
unfolding run
run-ok use_bwrap host argv cwd native e =
    elim (Bool-cases (length argv == 0 || any is_remediation argv)) [
      | inl refused ↦ let no : err read_only_policy ≡ ok native = rw refused at e in absurd cc
      | inr fine ↦ ((or_false _ _ fine).1, rw fine at e)
    ]

-- A file, or the host, is reported as CLEAN only if the command of the adapter, without an option
-- that changes files, was run to its end, with exit code 0 or 1. For an adapter of files, where
-- `bwrap` is wanted and installed, the command was started by `bwrap`, with no network, the host
-- bound read-only and nothing bound to be written, and a code other than 0 does not come with an
-- error output that begins with "bwrap:". Everywhere else it was started as it is.
pub run_prepared-clean :
    (patterns : Patterns) (use_bwrap : Bool) (host : Host) (adapter : Adapter) (path cwd : String)
    (n : Normalized)
    → run_prepared patterns use_bwrap host adapter path cwd ≡ ok n
    → n.verdict ≡ clean
    → (argv : List String) × (command_of adapter path ≡ ok argv)
      × (any is_remediation argv ≡ false)
      × IsCleanRun adapter use_bwrap host argv cwd
unfolding run_prepared
run_prepared-clean patterns use_bwrap host adapter path cwd n e c =
    let (argv, made, e1) = bind-ok (command_of adapter path) _ n e in
    let (native, ran, normal) = bind-ok (run (isolates adapter use_bwrap) host argv cwd) _ n e1 in
    let same : normalize patterns adapter native ≡ n = cc in
    let well = Reports-clean _ _ (normalize-Reports patterns adapter native) (rw same c) in
    let (harmless, answered) = run-ok (isolates adapter use_bwrap) host argv cwd native ran in
    let which = ap (λ b. b && host.has_bwrap) (isolates_lem adapter use_bwrap) in
    (
      argv,
      made,
      harmless,
      ended-IsCleanRun adapter use_bwrap host argv cwd native _ (sym which) answered well,
    )
