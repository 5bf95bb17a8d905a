-- ===== src/Adapters/Command.antt =====
-- src/avbox/scanners/command.py: IsolatedCommandRunner. The host, which starts processes, is a
-- parameter; the time a command took is left out.
use avbox.Prelude.{
  str_eq, String, Bool, true, false, not, ◌&&◌, ◌||◌, Option, none, some, List, [], ◌∷◌, ◌++◌, ◌==◌,
  if◌then◌else◌, length, any, Result, ok, err,
}
use avbox.Prelude.Int.{ℤ, pos, negsuc}
use avbox.Prelude.Bytes.{starts_with}
use avbox.Effects.{Raised}
use avbox.Adapters.Output.{Text, lstrip}

pub record CommandResult : Type 0 where
  pub argv : List String
  pub exit_code : ℤ
  pub stdout : Text
  pub stderr : Text
  pub timed_out : Bool
  pub isolated : Bool
  pub isolation_failed : Bool

-- What `subprocess.run` does: it returns an exit code with the output, raises TimeoutExpired with the
-- output so far, or raises something else.
pub data Process : Type 0 where
  completed : ℤ → Text → Text → Process
  expired : Option Text → Option Text → Process
  not_started : Raised → Process

-- The host: whether `bwrap` is installed, and the run of a command in a directory.
pub record Host : Type 0 where
  pub has_bwrap : Bool
  pub start : List String → String → Process

abbrev pub is_remediation : String → Bool
is_remediation arg =
    str_eq arg "--remove"
    || str_eq arg "--move"
    || str_eq arg "--copy"
    || str_eq arg "--delete"
    || str_eq arg "--clean"

abbrev pub read_only_policy : Raised
read_only_policy = record {
  kind = "ValueError";
  text = "remediation options are forbidden by READ_ONLY policy";
}

-- The options of `bwrap`: no network, the host read-only, a new /tmp.
abbrev pub sandbox_of : String → List String
sandbox_of cwd =
    "bwrap" ∷ "--die-with-parent" ∷ "--new-session" ∷ "--unshare-net" ∷ "--ro-bind" ∷ "/" ∷ "/"
    ∷ "--dev" ∷ "/dev" ∷ "--proc" ∷ "/proc" ∷ "--tmpfs" ∷ "/tmp" ∷ "--chdir" ∷ cwd ∷ "--" ∷ []

abbrev pub text_or : Option Text → Text
text_or none = []
text_or (some t) = t

abbrev pub is_zero : ℤ → Bool
is_zero (pos n) = n == 0
is_zero (negsuc n) = false

-- "bwrap:"
abbrev pub bwrap_mark : Text
bwrap_mark = 98 ∷ 119 ∷ 114 ∷ 97 ∷ 112 ∷ 58 ∷ []

unfoldable pub result_of : List String → Bool → Process → Result Raised CommandResult
result_of argv isolated (completed code stdout stderr) = ok (record {
  argv = argv;
  exit_code = code;
  stdout = stdout;
  stderr = stderr;
  timed_out = false;
  isolated = isolated;
  isolation_failed = isolated && (not (is_zero code) && starts_with bwrap_mark (lstrip stderr));
})
result_of argv isolated (expired stdout stderr) = ok (record {
  argv = argv;
  exit_code = pos 124;
  stdout = text_or stdout;
  stderr = text_or stderr;
  timed_out = true;
  isolated = isolated;
  isolation_failed = false;
})
result_of argv isolated (not_started e) = err e

-- `run`, with the setting `use_bwrap`.
unfoldable pub run : Bool → Host → List String → String → Result Raised CommandResult
run use_bwrap host argv cwd =
    let isolated = use_bwrap && host.has_bwrap in
    let command = if isolated then sandbox_of cwd ++ argv else argv in
    if length argv == 0 || any is_remediation argv
    then err read_only_policy
    else result_of argv isolated (host.start command cwd)
