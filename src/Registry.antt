-- ===== src/Registry.antt =====
-- src/avbox/registry: the documents of registry/models.py and RegistryService of
-- registry/service.py. Reading the YAML file is left to its library.
pub mod Words
pub mod Keys
pub mod Consistent
use avbox.Prelude.{
  str_eq, eq_iff, str_append, ℕ, zero, suc, ◌+◌, ◌-◌, ◌*◌, ◌/◌, ◌%◌, ◌^◌, ◌≤◌, ◌<◌, min, max,
  String, ◌≡◌, refl, sym, ap, ◌∙◌, fun_ext, ◌≢◌, ◌↔◌, ◌⊎◌, inl, inr, Bool, true, false, not, ◌&&◌,
  ◌||◌, Option, none, some, List, [], ◌∷◌, ◌++◌, map, arith, ltb, leb, ◌==◌, if◌then◌else◌, ltb→lt,
  ltb→le, leb→le, leb→lt, lt→ltb, le→leb, ==→eq, eq→==, ne→==, tests, Bool-cases, Option-cases,
  and_true, or_false, if_both, length, get_or, take, drop, replicate, All, any, all, select,
  length-append, append-nil, append_assoc, take-append-drop, length-take, length-drop,
  length-replicate, take-all, drop-nil, take-nil, drop-drop, take-append-take, All-append, All-take,
  length-map, is_member, Result, ok, err, raise_if, Result-cases,
}
use avbox.Prelude.Results.{◌>>=◌, ◌>>◌}
use avbox.Prelude.Bytes.{Bytes, starts_with}

-- `HasID`
pub record HasId (A : Type 0) : Type 0 where
  pub id_of : A → String

pub data HistoricalMode : Type 0 where
  period_correct final_historical maximum_retro : HistoricalMode

pub record Platform : Type 0 where
  pub id : String
  pub label : String
  pub family : String
  pub historical : Bool

pub record ScannerProduct : Type 0 where
  pub id : String
  pub vendor : String
  pub product : String

-- The status is text, as code points, for the search in it.
pub record ScannerRelease : Type 0 where
  pub id : String
  pub product_id : String
  pub platform_ids : List String
  pub runtime_profile_id : String
  pub worker_profile_id : String
  pub historical_mode : Option HistoricalMode
  pub qualification_status : List ℕ

pub record DetectorRelease : Type 0 where
  pub id : String
  pub product_id : String
  pub platform_ids : List String
  pub runtime_profile_id : String
  pub worker_profile_id : String

pub record DefinitionSet : Type 0 where
  pub id : String
  pub product_id : String
  pub compatible_engine_versions : List String

pub record RuntimeProfile : Type 0 where
  pub id : String
  pub mechanism : String
  pub platform_id : String
  pub network_policy : String

pub record WorkerProfile : Type 0 where
  pub id : String
  pub adapter : String
  pub isolation : String

pub record Registry : Type 0 where
  pub platforms : List Platform
  pub products : List ScannerProduct
  pub scanner_releases : List ScannerRelease
  pub detector_releases : List DetectorRelease
  pub definition_sets : List DefinitionSet
  pub runtime_profiles : List RuntimeProfile
  pub worker_profiles : List WorkerProfile

-- `ScannerRelease | DetectorRelease`, as far as the service reads them.
pub data Release : Type 0 where
  scanner : ScannerRelease → Release
  detector : DetectorRelease → Release

instance abbrev pub platform_id : HasId Platform
platform_id = record { id_of = λ x. x.id }

instance abbrev pub product_id : HasId ScannerProduct
product_id = record { id_of = λ x. x.id }

instance abbrev pub scanner_release_id : HasId ScannerRelease
scanner_release_id = record { id_of = λ x. x.id }

instance abbrev pub detector_release_id : HasId DetectorRelease
detector_release_id = record { id_of = λ x. x.id }

instance abbrev pub definition_set_id : HasId DefinitionSet
definition_set_id = record { id_of = λ x. x.id }

instance abbrev pub runtime_profile_id : HasId RuntimeProfile
runtime_profile_id = record { id_of = λ x. x.id }

instance abbrev pub worker_profile_id : HasId WorkerProfile
worker_profile_id = record { id_of = λ x. x.id }

-- `RegistryError`, and the ValueError of the check of a release.
pub data RegistryError : Type 0 where
  duplicate_id : String → String → RegistryError
  unknown_product unknown_runtime unknown_worker : String → String → RegistryError
  unknown_platforms : String → List String → RegistryError
  no_qualification : String → RegistryError

-- `needle in hay`
unfoldable pub contains : List ℕ → List ℕ → Bool
contains needle [] = starts_with needle []
contains needle (c ∷ hay) = starts_with needle (c ∷ hay) || contains needle hay

-- "incomplete" and "qualified"
abbrev pub incomplete : List ℕ
incomplete = 105 ∷ 110 ∷ 99 ∷ 111 ∷ 109 ∷ 112 ∷ 108 ∷ 101 ∷ 116 ∷ 101 ∷ []

abbrev pub qualified : List ℕ
qualified = 113 ∷ 117 ∷ 97 ∷ 108 ∷ 105 ∷ 102 ∷ 105 ∷ 101 ∷ 100 ∷ []

abbrev pub is_historical : Option HistoricalMode → Bool
is_historical none = false
is_historical (some mode) = true

-- `historical_mode_requires_historical_qualification`
unfoldable pub check_historical : ScannerRelease → Result RegistryError (Unit {0})
check_historical release =
    raise_if
      (is_historical release.historical_mode
        && (not (contains incomplete release.qualification_status)
            && not (contains qualified release.qualification_status)))
      (no_qualification release.id)

-- `for item in items: check(item)`
unfoldable pub check_each :
    {A : Type 0} → (A → Result RegistryError (Unit {0})) → List A → Result RegistryError (Unit {0})
check_each check [] = ok tt
check_each check (x ∷ xs) = check x >> check_each check xs

-- A dictionary, in the order of insertion.
abbrev pub Dict : Type 0 → Type 0
Dict A = List (String × A)

unfoldable pub has_key : {A : Type 0} → String → Dict A → Bool
has_key key [] = false
has_key key (entry ∷ entries) = str_eq entry.0 key || has_key key entries

-- The loop of `_unique`.
unfoldable pub unique_from :
    {A : Type 0} ⦃h : HasId A⦄ → String → List A → Dict A → Result RegistryError (Dict A)
unique_from kind [] result = ok result
unique_from ⦃h⦄ kind (item ∷ items) result =
    let rest = unique_from kind items (result ++ ((h.id_of item, item) ∷ [])) in
    if has_key (h.id_of item) result then err (duplicate_id kind (h.id_of item)) else rest

-- `_unique`
unfoldable pub unique : {A : Type 0} ⦃h : HasId A⦄ → List A → String → Result RegistryError (Dict A)
unique items kind = unique_from kind items []

-- What the names of a release are looked up in.
pub record Names : Type 0 where
  pub platforms : Dict Platform
  pub products : Dict ScannerProduct
  pub runtimes : Dict RuntimeProfile
  pub workers : Dict WorkerProfile

-- The body of the loop over the releases, on the fields that both kinds have.
unfoldable pub check_names :
    Names → String → String → List String → String → String → Result RegistryError (Unit {0})
check_names names id product platforms runtime worker =
    let missing = select (λ p. not (has_key p names.platforms)) platforms in
    raise_if (not (has_key product names.products)) (unknown_product id product)
    >> (raise_if (not (length missing == 0)) (unknown_platforms id missing)
        >> (raise_if (not (has_key runtime names.runtimes)) (unknown_runtime id runtime)
            >> raise_if (not (has_key worker names.workers)) (unknown_worker id worker)))

unfoldable pub check_release : Names → Release → Result RegistryError (Unit {0})
check_release names (scanner r) =
    check_names names r.id r.product_id r.platform_ids r.runtime_profile_id r.worker_profile_id
check_release names (detector r) =
    check_names names r.id r.product_id r.platform_ids r.runtime_profile_id r.worker_profile_id

unfoldable pub check_definition : Names → DefinitionSet → Result RegistryError (Unit {0})
check_definition names d =
    raise_if (not (has_key d.product_id names.products)) (unknown_product d.id d.product_id)

abbrev pub entries_of : {A : Type 0} → Dict A → List A
entries_of d = map (λ entry. entry.1) d

-- `validate_cross_references`
unfoldable pub validate_cross_references : Registry → Result RegistryError (Unit {0})
validate_cross_references r = do
  platforms ← unique r.platforms "platform"
  products ← unique r.products "product"
  runtimes ← unique r.runtime_profiles "runtime profile"
  workers ← unique r.worker_profiles "worker profile"
  releases ← unique r.scanner_releases "scanner release"
  detectors ← unique r.detector_releases "detector release"
  _ ← unique r.definition_sets "definition set"
  let names : Names = record {
    platforms = platforms;
    products = products;
    runtimes = runtimes;
    workers = workers;
  }
  check_each (check_release names)
      (map scanner (entries_of releases) ++ map detector (entries_of detectors))
  check_each (check_definition names) r.definition_sets

-- `RegistryService(path)` on the document that was read.
unfoldable pub load : Registry → Result RegistryError Registry
load r = do check_each check_historical r.scanner_releases; validate_cross_references r; ok r
