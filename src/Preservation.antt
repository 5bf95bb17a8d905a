-- ===== src/Preservation.antt =====
-- src/avbox/preservation/service.py: the admission of an object to quarantine.
pub mod Admitted
pub mod Again
use avbox.Prelude.{
  str_eq, eq_iff, str_append, ℕ, zero, suc, ◌+◌, ◌-◌, ◌*◌, ◌/◌, ◌%◌, ◌^◌, ◌≤◌, ◌<◌, min, max,
  String, ◌≡◌, refl, sym, ap, ◌∙◌, fun_ext, ◌≢◌, ◌↔◌, ◌⊎◌, inl, inr, Bool, true, false, not, ◌&&◌,
  ◌||◌, Option, none, some, List, [], ◌∷◌, ◌++◌, map, arith, ltb, leb, ◌==◌, if◌then◌else◌, ltb→lt,
  ltb→le, leb→le, leb→lt, lt→ltb, le→leb, ==→eq, eq→==, ne→==, tests, Bool-cases, Option-cases,
  and_true, or_false, if_both, length, get_or, take, drop, replicate, All, any, all, select,
  length-append, append-nil, append_assoc, take-append-drop, length-take, length-drop,
  length-replicate, take-all, drop-nil, take-nil, drop-drop, take-append-take, All-append, All-take,
  length-map, is_member, Result, ok, err, raise_if, Result-cases,
}
use avbox.Prelude.Bytes.{Bytes}
use avbox.Models.Verdict.{Verdict, malicious, suspicious, pua}
use avbox.Models.Records.{InputArtifact}
use avbox.Effects.{Raised, Action, pure, raise, gets, continue, ◌>>=◌, ◌>>◌}

-- Below the root of the quarantine, the path of an object, `sha256/<first two digits>/<SHA-256>`, and
-- the same with the suffix ".incoming". Both are known from the SHA-256.
pub data Place : Type 0 where
  admitted incoming : String → Place

pub record Entry : Type 0 where
  pub content : Bytes
  pub read_only : Bool

-- The files of the quarantine.
pub record Quarantine : Type 0 where
  pub files : Place → Option Entry

unfoldable pub same_place : Place → Place → Bool
same_place (admitted a) (admitted b) = str_eq a b
same_place (incoming a) (incoming b) = str_eq a b
same_place _ _ = false

unfoldable pub put : Place → Option Entry → Quarantine → Quarantine
put place entry q = record { files = λ p. if same_place p place then entry else q.files p }

-- The source and what the operating system may raise on the way: a fault for each round of the copy,
-- on reading or on writing, and one for each of the other calls.
pub record Source : Type 0 where
  pub content : Bytes
  pub copy_fault : ℕ → Option Raised
  pub mkdir_fault : Option Raised
  pub open_fault : Option Raised
  pub sync_fault : Option Raised
  pub chmod_fault : Option Raised
  pub replace_fault : Option Raised

-- `quarantine_path`
abbrev pub quarantine_path : InputArtifact → Place
quarantine_path artifact = admitted artifact.hashes.sha256

abbrev pub incoming_path : InputArtifact → Place
incoming_path artifact = incoming artifact.hashes.sha256

-- `verdict not in {...}`, negated.
unfoldable pub is_admissible : Verdict → Bool
is_admissible malicious = true
is_admissible suspicious = true
is_admissible pua = true
is_admissible _ = false

abbrev pub value_error : Raised
value_error = record {
  kind = "ValueError";
  text = "only malicious, suspicious, or PUA objects may enter quarantine";
}

abbrev pub file_exists : Raised
file_exists = record { kind = "FileExistsError"; text = "File exists" }

unfoldable pub raise_some : Option Raised → Action Quarantine (Unit {0})
raise_some none = pure tt
raise_some (some e) = raise e

abbrev pub is_there : Option Entry → Bool
is_there none = false
is_there (some entry) = true

-- `path.exists()`
abbrev pub is_present : Place → Quarantine → Bool
is_present place q = is_there (q.files place)

unfoldable pub store : Place → Option Entry → Action Quarantine (Unit {0})
store place entry q = (ok tt, put place entry q)

-- `temporary.open("xb")`
unfoldable pub open_exclusive : Place → Action Quarantine (Unit {0})
open_exclusive place = do
  taken ← gets (is_present place)
  if taken
      then raise file_exists
      else store place (some (record { content = []; read_only = false }))

-- `dst.write(chunk)`
unfoldable pub append_chunk : Place → Bytes → Action Quarantine (Unit {0})
append_chunk place chunk = do
  entry ← gets (λ q. q.files place)
  elim entry [
    | none ↦ pure tt
    | some e ↦ store place (some (record e { content = e.content ++ chunk }))
  ]

abbrev pub chunk_size : ℕ
chunk_size = 1048576

-- `while chunk := src.read(1024 * 1024)` from the rest of the source on. Each round but the last
-- takes a byte at least.
unfoldable pub copy : (ℕ → Option Raised) → Place → ℕ → ℕ → Bytes → Action Quarantine (Unit {0})
copy fault place zero round rest = pure tt
copy fault place (suc fuel) round rest = do
  raise_some (fault round)
  if length (take chunk_size rest) == 0 then pure tt else (do
    append_chunk place (take chunk_size rest)
    copy fault place fuel (round + 1) (drop chunk_size rest))

-- `os.chmod(temporary, 0o400)`
unfoldable pub set_mode : Place → Action Quarantine (Unit {0})
set_mode place = do
  entry ← gets (λ q. q.files place)
  elim entry [ none ↦ pure tt | some e ↦ store place (some (record e { read_only = true })) ]

-- `os.replace(temporary, destination)`
unfoldable pub replace : Place → Place → Action Quarantine (Unit {0})
replace temporary destination = do
  entry ← gets (λ q. q.files temporary)
  store destination entry
  store temporary none

-- `admit` where the destination does not exist.
unfoldable pub admit_new : Source → InputArtifact → Action Quarantine Place
admit_new source artifact = do
  raise_some source.mkdir_fault
  raise_some source.open_fault
  open_exclusive (incoming_path artifact)
  copy source.copy_fault (incoming_path artifact) (length source.content + 1) 0 source.content
  raise_some source.sync_fault
  raise_some source.chmod_fault
  set_mode (incoming_path artifact)
  raise_some source.replace_fault
  replace (incoming_path artifact) (quarantine_path artifact)
  pure (quarantine_path artifact)

-- `admit`
unfoldable pub admit : Source → InputArtifact → Verdict → Action Quarantine Place
admit source artifact verdict =
    if is_admissible verdict
    then (do
      exists ← gets (is_present (quarantine_path artifact))
      if exists then pure (quarantine_path artifact) else admit_new source artifact)
    else raise value_error
