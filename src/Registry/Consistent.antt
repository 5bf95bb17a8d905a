-- ===== src/Registry/Consistent.antt =====
-- When a registry is accepted.
use avbox.Prelude.{
  String, ◌≡◌, ap, ◌↔◌, ◌⊎◌, inl, inr, false, not, none, List, ◌++◌, map, arith, Bool-cases,
  Option-cases, All, All-append, All-mono, All-map-to, All-map-from, All-left, ok,
}
use avbox.Prelude.Results.{bind-ok, then-ok, raise_if-ok, raise_if-false}
use avbox.Registry.Keys.{
  Known, Unique, entry_of, has_key-Known, Known-has_key, Unique-unique, entries_of-map, unique-step,
}
use avbox.Registry.{
  ScannerRelease, DetectorRelease, DefinitionSet, Registry, platform_id, product_id,
  scanner_release_id, detector_release_id, definition_set_id, runtime_profile_id, worker_profile_id,
  Release, scanner, detector, contains, incomplete, qualified, check_historical, check_each,
  has_key, Names, check_names, check_release, check_definition, validate_cross_references, load,
}
use avbox.Registry.Words.{
  Within, contains-Within, contains-append, check_each-ok, All-check_each, untrue_negation,
  select-none, none-select,
}

-- What a release names is in the registry.
pub record IsResolved (r : Registry) (product : String) (platforms : List String)
    (runtime worker : String) : Type 0 where
  pub product_known : Known product r.products
  pub platforms_known : All (λ p. Known p r.platforms) platforms
  pub runtime_known : Known runtime r.runtime_profiles
  pub worker_known : Known worker r.worker_profiles

abbrev pub HasQualification : ScannerRelease → Type 0
HasQualification s =
    (s.historical_mode ≡ none)
    ⊎ (Within incomplete s.qualification_status ⊎ Within qualified s.qualification_status)

pub record IsConsistent (r : Registry) : Type 0 where
  pub platforms : Unique r.platforms
  pub products : Unique r.products
  pub runtimes : Unique r.runtime_profiles
  pub workers : Unique r.worker_profiles
  pub scanners : Unique r.scanner_releases
  pub detectors : Unique r.detector_releases
  pub definitions : Unique r.definition_sets
  pub qualifications : All HasQualification r.scanner_releases
  pub scanners_resolved :
      All
        (λ (s : ScannerRelease).
          IsResolved r s.product_id s.platform_ids s.runtime_profile_id s.worker_profile_id)
        r.scanner_releases
  pub detectors_resolved :
      All
        (λ (s : DetectorRelease).
          IsResolved r s.product_id s.platform_ids s.runtime_profile_id s.worker_profile_id)
        r.detector_releases
  pub definitions_resolved :
      All (λ (d : DefinitionSet). Known d.product_id r.products) r.definition_sets

module _ (r : Registry) where
  -- The dictionaries of a registry without duplicates.
  abbrev names_of : Names
  names_of = record {
    platforms = map entry_of r.platforms;
    products = map entry_of r.products;
    runtimes = map entry_of r.runtime_profiles;
    workers = map entry_of r.worker_profiles;
  }

  check_names-IsResolved :
      (id product : String) (platforms : List String) (runtime worker : String)
      → check_names names_of id product platforms runtime worker ≡ ok tt
      → IsResolved r product platforms runtime worker
  unfolding check_names
  check_names-IsResolved id product platforms runtime worker e =
      let (p, e1) = then-ok _ _ tt e in
      let (q, e2) = then-ok _ _ tt e1 in
      let (s, t) = then-ok _ _ tt e2 in
      record {
        product_known = has_key-Known product r.products (untrue_negation _ (raise_if-ok _ _ p));
        platforms_known =
            All-mono (λ n k. has_key-Known n r.platforms (untrue_negation _ k)) platforms
              (select-none _ platforms (untrue_negation _ (raise_if-ok _ _ q)));
        runtime_known =
            has_key-Known runtime r.runtime_profiles (untrue_negation _ (raise_if-ok _ _ s));
        worker_known =
            has_key-Known worker r.worker_profiles (untrue_negation _ (raise_if-ok _ _ t));
      }

  IsResolved-check_names :
      (id product : String) (platforms : List String) (runtime worker : String)
      → IsResolved r product platforms runtime worker
      → check_names names_of id product platforms runtime worker ≡ ok tt
  unfolding check_names
  IsResolved-check_names id product platforms runtime worker h =
      let none_missing =
        none-select (λ p. not (has_key p names_of.platforms)) platforms
          (All-mono (λ n k. ap not (Known-has_key n r.platforms k)) platforms h.platforms_known) in
      rw (
        Known-has_key product r.products h.product_known,
        none_missing,
        Known-has_key runtime r.runtime_profiles h.runtime_known,
        Known-has_key worker r.worker_profiles h.worker_known,
      )

  abbrev IsResolvedRelease : Release → Type 0
  IsResolvedRelease (scanner s) =
      IsResolved r s.product_id s.platform_ids s.runtime_profile_id s.worker_profile_id
  IsResolvedRelease (detector s) =
      IsResolved r s.product_id s.platform_ids s.runtime_profile_id s.worker_profile_id

  release-ok :
      (release : Release) → check_release names_of release ≡ ok tt → IsResolvedRelease release
  unfolding check_release
  release-ok (scanner s) e = check_names-IsResolved s.id _ _ _ _ e
  release-ok (detector s) e = check_names-IsResolved s.id _ _ _ _ e

  ok-release :
      (release : Release) → IsResolvedRelease release → check_release names_of release ≡ ok tt
  unfolding check_release
  ok-release (scanner s) h = IsResolved-check_names s.id _ _ _ _ h
  ok-release (detector s) h = IsResolved-check_names s.id _ _ _ _ h

  historical-ok : (s : ScannerRelease) → check_historical s ≡ ok tt → HasQualification s
  unfolding check_historical
  historical-ok s e = elim (Option-cases s.historical_mode) [
    | inl absent ↦ inl absent
    | inr (mode, present) ↦ elim (Bool-cases (contains incomplete s.qualification_status)) [
      | inl found ↦ inr (inl (contains-Within incomplete s.qualification_status found))
      | inr without ↦
          let raised = raise_if-ok _ _ e in
          let rest : not (contains qualified s.qualification_status) ≡ false =
            rw (present, without) at raised in
          inr (inr (contains-Within qualified s.qualification_status (untrue_negation _ rest)))
    ]
  ]

  ok-historical : (s : ScannerRelease) → HasQualification s → check_historical s ≡ ok tt
  unfolding check_historical
  ok-historical s (inl e) = rw e
  ok-historical s (inr (inl (before, after, e))) =
      rw (e, contains-append incomplete before after) (raise_if-false _ _ (ground arith))
  ok-historical s (inr (inr (before, after, e))) =
      rw (e, contains-append qualified before after) (raise_if-false _ _ (ground arith))

  abbrev releases_of : List Release
  releases_of = map scanner r.scanner_releases ++ map detector r.detector_releases

  definition-ok :
      (d : DefinitionSet) → check_definition names_of d ≡ ok tt → Known d.product_id r.products
  unfolding check_definition
  definition-ok d e = has_key-Known d.product_id r.products (untrue_negation _ (raise_if-ok _ _ e))

  ok-definition :
      (d : DefinitionSet) → Known d.product_id r.products → check_definition names_of d ≡ ok tt
  unfolding check_definition
  ok-definition d k = rw (Known-has_key d.product_id r.products k)

-- A registry is accepted exactly when the IDs of each kind differ, each release names a product,
-- platforms, a runtime profile and a worker profile that are there, each definition set names a
-- product that is there, and a release with a historical mode has "incomplete" or "qualified" in its
-- qualification status. The platform that a runtime profile names need not be there. What is accepted
-- is the registry itself.
pub load-IsConsistent : (r : Registry) → (load r ≡ ok r) ↔ IsConsistent r
unfolding load validate_cross_references
load-IsConsistent r = (to, from)
  where
    to : load r ≡ ok r → IsConsistent r
    to e =
        let (_, q, e1) = bind-ok (check_each check_historical r.scanner_releases) _ r e in
        let (_, v, _) = bind-ok (validate_cross_references r) _ r e1 in
        let (u1, k1) = unique-step r.platforms "platform" _ v in
        let (u2, k2) = unique-step r.products "product" _ k1 in
        let (u3, k3) = unique-step r.runtime_profiles "runtime profile" _ k2 in
        let (u4, k4) = unique-step r.worker_profiles "worker profile" _ k3 in
        let (u5, k5) = unique-step r.scanner_releases "scanner release" _ k4 in
        let (u6, k6) = unique-step r.detector_releases "detector release" _ k5 in
        let (u7, k7) = unique-step r.definition_sets "definition set" _ k6 in
        let (_, a, b) = bind-ok (check_each (check_release (names_of r)) _) _ tt k7 in
        let a' : check_each (check_release (names_of r)) (releases_of r) ≡ ok tt =
          rw (entries_of-map r.scanner_releases, entries_of-map r.detector_releases) at a in
        let (resolved, resolved') =
          All-left _ (map scanner r.scanner_releases) _
            (check_each-ok (check_release (names_of r)) _ (release-ok r) (releases_of r) a') in
        record {
          platforms = u1;
          products = u2;
          runtimes = u3;
          workers = u4;
          scanners = u5;
          detectors = u6;
          definitions = u7;
          qualifications = check_each-ok check_historical _ (historical-ok r) r.scanner_releases q;
          scanners_resolved = All-map-to _ scanner r.scanner_releases resolved;
          detectors_resolved = All-map-to _ detector r.detector_releases resolved';
          definitions_resolved =
              check_each-ok (check_definition (names_of r)) _ (definition-ok r) r.definition_sets b;
        }

    from : IsConsistent r → load r ≡ ok r
    from h =
        let releases =
          All-check_each (check_release (names_of r)) _ (ok-release r) (releases_of r) (
            All-append _ (map scanner r.scanner_releases) _
              (All-map-from _ scanner _ h.scanners_resolved)
              (All-map-from _ detector _ h.detectors_resolved)) in
        let definitions =
          All-check_each (check_definition (names_of r)) _ (ok-definition r) r.definition_sets
            h.definitions_resolved in
        rw (
          All-check_each check_historical _ (ok-historical r) r.scanner_releases h.qualifications,
          Unique-unique r.platforms "platform" h.platforms,
          Unique-unique r.products "product" h.products,
          Unique-unique r.runtime_profiles "runtime profile" h.runtimes,
          Unique-unique r.worker_profiles "worker profile" h.workers,
          Unique-unique r.scanner_releases "scanner release" h.scanners,
          Unique-unique r.detector_releases "detector release" h.detectors,
          Unique-unique r.definition_sets "definition set" h.definitions,
          entries_of-map r.scanner_releases,
          entries_of-map r.detector_releases,
          releases,
          definitions,
        )
