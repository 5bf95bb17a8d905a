-- ===== src/Tests/Preservation.antt =====
-- Admissions to a quarantine.
use avbox.Prelude.{◌≡◌, refl, true, none, some, [], ◌∷◌, ◌==◌, if◌then◌else◌, ok, err}
use avbox.Models.Verdict.{malicious, pua}
use avbox.Models.Records.{InputArtifact}
use avbox.Effects.{Raised, pure, raise, gets, continue, ◌>>=◌, ◌>>◌}
use avbox.Effects.Triples.{Leads}
use avbox.Preservation.{
  admitted, Quarantine, same_place, put, Source, is_admissible, file_exists, raise_some, store,
  open_exclusive, append_chunk, copy, set_mode, replace, admit_new, admit,
}
use avbox.Preservation.Admitted.{IsDone, IsUntouched, admit-IsDone}
use avbox.Preservation.Again.{admit-again, admit-stuck}

abbrev artifact : InputArtifact
artifact = record {
  hashes = record { sha256 = "ab12"; blake3 = ""; sha1 = ""; md5 = "" };
  byte_size = 3;
  filename = "virus.exe";
  submitted_filename = none;
  media_type = "application/octet-stream";
  source = "cli";
}

abbrev empty : Quarantine
empty = record { files = λ _. none }

abbrev source : Source
source = record {
  content = 1 ∷ 2 ∷ 3 ∷ [];
  copy_fault = λ _. none;
  mkdir_fault = none;
  open_fault = none;
  sync_fault = none;
  chmod_fault = none;
  replace_fault = none;
}

abbrev disk_full : Raised
disk_full = record { kind = "OSError"; text = "No space left on device" }

-- A disk that is full when the first chunk is written.
abbrev failing : Source
failing = record source { copy_fault = λ n. if n == 0 then some disk_full else none }

abbrev other : Source
other = record source { content = [] }

admit-IsDone_example :
    Leads
      (IsDone empty artifact source malicious)
      (IsUntouched empty artifact)
      (admit source artifact malicious)
      empty
admit-IsDone_example = admit-IsDone empty artifact source malicious

abbrev after : Quarantine
unfolding admit admit_new is_admissible raise_some open_exclusive append_chunk copy set_mode replace
    store put same_place gets continue pure raise ◌>>=◌ ◌>>◌
after = (admit source artifact malicious empty).1

abbrev after_failure : Quarantine
unfolding admit admit_new is_admissible raise_some open_exclusive append_chunk copy set_mode replace
    store put same_place gets continue pure raise ◌>>=◌ ◌>>◌
after_failure = (admit failing artifact malicious empty).1

stored :
    after.files (admitted "ab12") ≡ some (record { content = 1 ∷ 2 ∷ 3 ∷ []; read_only = true })
unfolding admit admit_new is_admissible raise_some open_exclusive append_chunk copy set_mode replace
    store put same_place gets continue pure raise ◌>>=◌ ◌>>◌ after
stored = refl

admit-again_example : admit other artifact pua after ≡ (ok (admitted "ab12"), after)
unfolding admit admit_new is_admissible raise_some open_exclusive append_chunk copy set_mode replace
    store put same_place gets continue pure raise ◌>>=◌ ◌>>◌ after
admit-again_example =
    admit-again artifact empty after source other malicious pua (admitted "ab12") refl refl

admit-stuck_example : admit source artifact pua after_failure ≡ (err file_exists, after_failure)
unfolding admit admit_new is_admissible raise_some open_exclusive append_chunk copy set_mode replace
    store put same_place gets continue pure raise ◌>>=◌ ◌>>◌ after_failure
admit-stuck_example =
    admit-stuck artifact empty after_failure failing source malicious pua disk_full refl refl refl
      refl refl refl refl
