-- ===== src/Tests/Registry.antt =====
-- Registries that are accepted or not.
use avbox.Prelude.{◌≡◌, refl, ◌↔◌, true, some, [], ◌∷◌, ok, err}
use avbox.Prelude.Bytes.{starts_with}
use avbox.Registry.{
  Platform, ScannerRelease, Registry, final_historical, contains, check_historical, check_each,
  has_key, unique_from, unique, incomplete, check_names, check_release, check_definition,
  validate_cross_references, load, duplicate_id, unknown_worker, no_qualification,
}
use avbox.Registry.Consistent.{IsConsistent, load-IsConsistent}

abbrev amiga : Platform
amiga = record { id = "amiga-m68k"; label = "Amiga"; family = "amiga"; historical = true }

abbrev checker : ScannerRelease
checker = record {
  id = "virusz-1.04";
  product_id = "virusz";
  platform_ids = "amiga-m68k" ∷ [];
  runtime_profile_id = "fs-uae";
  worker_profile_id = "amiga-worker";
  historical_mode = some final_historical;
  qualification_status = 45 ∷ incomplete;
}

abbrev small : Registry
small = record {
  platforms = amiga ∷ [];
  products = record { id = "virusz"; vendor = "G. Hormann"; product = "VirusZ" } ∷ [];
  scanner_releases = checker ∷ [];
  detector_releases = [];
  definition_sets =
      record { id = "none"; product_id = "virusz"; compatible_engine_versions = [] } ∷ [];
  runtime_profiles =
      record {
        id = "fs-uae";
        mechanism = "emulator";
        platform_id = "amiga-m68k";
        network_policy = "none";
      }
      ∷ [];
  worker_profiles = record { id = "amiga-worker"; adapter = "virusz"; isolation = "emulator" } ∷ [];
}

-- The platform of a runtime profile is not looked up.
abbrev misplaced : Registry
misplaced = record small {
  runtime_profiles =
      record {
        id = "fs-uae";
        mechanism = "emulator";
        platform_id = "nowhere";
        network_policy = "none";
      }
      ∷ [];
}

misplaced-accepted : load misplaced ≡ ok misplaced
unfolding load contains check_historical check_each has_key unique_from unique check_names
    check_release check_definition validate_cross_references starts_with
misplaced-accepted = refl

load-IsConsistent_example : (load small ≡ ok small) ↔ IsConsistent small
load-IsConsistent_example = load-IsConsistent small

small_accepted : load small ≡ ok small
unfolding load contains check_historical check_each has_key unique_from unique check_names
    check_release check_definition validate_cross_references starts_with
small_accepted = refl

small-IsConsistent : IsConsistent small
small-IsConsistent = (load-IsConsistent small).0 small_accepted

same_twice :
    load (record small { platforms = amiga ∷ (amiga ∷ []) })
    ≡ err (duplicate_id "platform" "amiga-m68k")
unfolding load contains check_historical check_each has_key unique_from unique check_names
    check_release check_definition validate_cross_references starts_with
same_twice = refl

no_worker :
    load (record small { worker_profiles = [] }) ≡ err (unknown_worker "virusz-1.04" "amiga-worker")
unfolding load contains check_historical check_each has_key unique_from unique check_names
    check_release check_definition validate_cross_references starts_with
no_worker = refl

unqualified :
    load (record small { scanner_releases = record checker { qualification_status = [] } ∷ [] })
    ≡ err (no_qualification "virusz-1.04")
unfolding load contains check_historical check_each has_key unique_from unique check_names
    check_release check_definition validate_cross_references starts_with
unqualified = refl
