-- ===== src/Structural/Fat/Directories.antt =====
-- `_fat_directory` of src/avbox/analyzers/structural.py: it ends, and without a finding the clusters that
-- it reaches belong to entries of the image.
use avbox.Prelude.{
  ℕ, zero, suc, ◌+◌, ◌-◌, ◌*◌, ◌≤◌, ◌<◌, ◌≡◌, refl, ap, ◌∙◌, ◌≢◌, ◌⊎◌, inl, inr, false, not, ◌&&◌,
  ◌||◌, Option, none, some, List, [], ◌∷◌, ◌++◌, arith, ltb, ◌==◌, ltb→le, or_false, length, drop,
  All, length-drop, drop-drop, is_member,
}
use avbox.Prelude.{if_by}
use mathlib.Core.List.{Memᴰ}
use avbox.Prelude.Bytes.{Bytes, byte, slice, le32}
use avbox.Prelude.Distinct.{Distinct, length-Distinct}
use avbox.Prelude.Fueled.{Fueled}
use avbox.Prelude.Stops.{Stops, gives, Stops-mono, Stops-if, Stops-bind}
use avbox.DiskImages.Types.{Text, Codecs}
use avbox.DiskImages.Fat.{Geometry, is_fat32}
use avbox.DiskImages.Fat.Tree.{rows, start_of, has_bit, is_skipped}
use avbox.Structural.Types.{Finding}
use avbox.Structural.Facts.{snoc_apart}
use avbox.Structural.Iso.Directories.{IsoError}
use avbox.Structural.Fat.{root_owner, fat_root}
use avbox.Structural.Fat.Directory.{
  RowKind, last, skipped, entry, row_kind, fat_entry, fat_rows, fat_directory,
}
use avbox.Structural.Fat.Chain.{Track, note_track}
use avbox.Structural.Fat.Owned.{
  IsEntry, IsDirectory, root_area, root_chain, inner, IsStart, of_root, of_entry, IsOwned,
}
use avbox.Structural.Fat.Chains.{Follows, fat_chain-Follows}

-- A number that is not among the second is not among the first.
unfoldable pub Within : List ℕ → List ℕ → Type 0
Within xs ys = (d : ℕ) → is_member d ys ≡ false → is_member d xs ≡ false

-- There is a level of fuel for each cluster at which no directory has begun yet, and two more.
unfoldable pub HasFuel : Geometry → ℕ → List ℕ → Type 0
HasFuel g fuel dirs =
    (begun : List ℕ) × Distinct begun
    × All (λ c. c < g.clusters + 2) begun
    × Within begun dirs
    × (g.clusters + 4 ≤ fuel + length begun)

HasFuel-Within :
    (g : Geometry) (fuel : ℕ) (xs ys : List ℕ)
    → Within xs ys
    → HasFuel g fuel xs
    → HasFuel g fuel ys
unfolding HasFuel Within
HasFuel-Within g fuel xs ys more (begun, apart, low, inside, enough) =
    (begun, apart, low, (λ d absent. inside d (more d absent)), enough)

HasFuel-some : (g : Geometry) (fuel : ℕ) (dirs : List ℕ) → HasFuel g fuel dirs → 2 ≤ fuel
unfolding HasFuel
HasFuel-some g fuel dirs (begun, apart, low, inside, enough) =
    omega (arith, enough, length-Distinct (g.clusters + 2) begun apart low)

HasFuel-begin :
    (g : Geometry) (fuel start : ℕ) (dirs : List ℕ)
    → (2 ≤ start) × (start < g.clusters + 2)
    → is_member start dirs ≡ false
    → HasFuel g (suc fuel) dirs
    → HasFuel g fuel (start ∷ dirs)
unfolding HasFuel Within is_member
HasFuel-begin g fuel start dirs there new (begun, apart, low, inside, enough) = (
  start ∷ begun,
  (inside start new, apart),
  (there.1, low),
  (λ d absent. let (other, old) = or_false (start == d) _ absent in rw (other, inside d old) refl),
  omega (arith, enough),
)

RowKind-cases : (k : RowKind) → (k ≡ last) ⊎ (k ≡ skipped) ⊎ ((name : Text) × (k ≡ entry name))
RowKind-cases last = inl refl
RowKind-cases skipped = inr (inl refl)
RowKind-cases (entry name) = inr (inr (name, refl))

rows-nil : (n : ℕ) → rows n [] ≡ []
unfolding rows
rows-nil zero = refl
rows-nil (suc n) = refl

-- A row of 32 bytes, at a multiple of 32.
IsRowOf : Bytes → Bytes → Type 0
IsRowOf d row =
    (place : ℕ) × (row ≡ slice d (32 * place) (32 * place + 32)) × (32 * place + 32 ≤ length d)

rows-IsRowOf : (n place : ℕ) (d : Bytes) → All (IsRowOf d) (rows n (drop (32 * place) d))
unfolding rows IsRowOf slice
rows-IsRowOf zero place d = tt
rows-IsRowOf (suc n) place d =
    let size = length-drop (32 * place) d in
    let next : drop 32 (drop (32 * place) d) ≡ drop (32 * (place + 1)) d =
      drop-drop 32 (32 * place) d ∙ ap (λ k. drop k d) (omega arith) in
    let width : 32 * place + 32 - 32 * place ≡ 32 = omega arith in
    if_by (All (IsRowOf d)) (ltb (length (drop (32 * place) d)) 32) (λ _. tt)
      (λ long. (
        (place, rw width refl, omega (arith, size, ltb→le _ _ long)),
        rw next (rows-IsRowOf n (place + 1) d),
      ))

-- What the tests on a row have shown where it is an entry.
Kept : Bytes → RowKind → Type 0
Kept row (entry name) = (byte row 0 ≢ 0) × (byte row 0 ≢ 0xE5) × (has_bit (byte row 11) 8 ≡ false)
Kept row _ = Unit

row_kind-Kept : (codecs : Codecs) (row : Bytes) → Kept row (row_kind codecs row)
unfolding row_kind Kept
row_kind-Kept codecs row =
    let name = codecs.strip (codecs.ascii (slice row 0 11)) in
    if_by (Kept row) (byte row 0 == 0) (λ _. tt)
      (λ some_byte.
        if_by (Kept row) (byte row 0 == 0xE5 || (byte row 11 == 0x0F || has_bit (byte row 11) 8))
          (λ _. tt)
          (λ used.
            let (kept, rest) = or_false (byte row 0 == 0xE5) _ used in
            let (_, no_label) = or_false (byte row 11 == 0x0F) _ rest in
            if_by (Kept row) (is_skipped name && not (length name == 0)) (λ _. tt)
              (λ _.
                ((λ e. ground (arith, some_byte, e)), (λ e. ground (arith, kept, e)), no_label))))

module _ (codecs : Codecs) (max_nodes : ℕ) (g : Geometry) (file fat : Bytes) where
  -- Code after which there is no finding has come to clusters of entries, and to no others.
  unfoldable pub Clean : Track → Track → Type 0
  Clean t u =
      u.findings ≡ []
      → (t.findings ≡ [])
        × ((c : ℕ) → Memᴰ c u.reachable → IsOwned g file fat c ⊎ Memᴰ c t.reachable)

  Clean-refl : (t : Track) → Clean t t
  unfolding Clean
  Clean-refl t e = (e, λ c m. inr m)

  pub Clean-trans : (t u v : Track) → Clean t u → Clean u v → Clean t v
  unfolding Clean
  Clean-trans t u v a b e =
      let (e1, later) = b e in
      let (e2, before) = a e1 in
      (e2, λ c m. elim (later c m) [ inl own ↦ inl own | inr old ↦ before c old ])

  Clean-note : (t u : Track) (f : Finding) → Clean t (note_track f u)
  unfolding Clean
  Clean-note t u f e = absurd (snoc_apart u.findings f e)

  -- The chain of an entry belongs to it.
  Follows-Clean :
      (wanted : Option ℕ) (start : ℕ) (t u : Track) (owner : Text) (content : Bytes)
      → (t.findings ≡ [] → IsStart g file fat start)
      → Follows max_nodes g file fat owner wanted start t (content, u)
      → Clean t u
  unfolding Clean Follows
  Follows-Clean wanted start t u owner content begins (_, clean, _) e =
      let (before, (cs, chain, _, adds)) = clean e in
      (
        before,
        λ c m. elim (adds c m) [
          | inl on ↦ inl (start, begins before, (cs, chain, on))
          | inr old ↦ inr old
        ],
      )

  unfoldable pub Runs : Track → Track → Type 0
  Runs t u = Within t.dirs u.dirs × Clean t u

  Runs-trans : (t u v : Track) → Runs t u → Runs u v → Runs t v
  unfolding Runs Within
  Runs-trans t u v (a, clean1) (b, clean2) =
      ((λ d absent. a d (b d absent)), Clean-trans t u v clean1 clean2)

  Runs-same : (t u : Track) → u.dirs ≡ t.dirs → Clean t u → Runs t u
  unfolding Runs Within
  Runs-same t u same clean = ((λ d absent. rw same at absent), clean)

  module _ (fuel : ℕ) (descend : Bytes → Text → Track → Fueled IsoError Track)
      (deeper : (content : Bytes) (path : Text) (t : Track)
        → (t.findings ≡ [] → IsDirectory g file fat content)
        → ((content ≡ []) × (1 ≤ fuel)) ⊎ HasFuel g fuel t.dirs
        → Stops (Runs t) (λ _. ⊥) (descend content path t)) where
    fat_entry-Runs :
        (d : Bytes) (owner : Text) (row : Bytes) (t : Track)
        → (t.findings ≡ [] → IsDirectory g file fat d)
        → IsEntry g file fat d row
        → HasFuel g (suc fuel) t.dirs
        → Stops (Runs t) (λ _. ⊥) (fat_entry descend max_nodes g file fat owner row t)
    unfolding fat_entry Follows Runs Within is_member Clean
    fat_entry-Runs d owner row t is_dir is_entry enough =
        let start = start_of row in
        Stops-if (has_bit (byte row 11) 16)
          (λ dir.
            Stops-if (is_member start t.dirs) (λ _. gives ((λ k absent. absent), Clean-note t t _))
              (λ new.
                let t0 : Track = record t { dirs = start ∷ t.dirs } in
                Stops-bind _ (fat_chain-Follows max_nodes g file fat owner start none t0)
                  (λ (content, t1) (same, clean, there).
                    let ready : ((content ≡ []) × (1 ≤ fuel)) ⊎ HasFuel g fuel t1.dirs =
                      elim there [
                        | inl empty ↦
                            inl (empty, omega (arith, HasFuel-some g (suc fuel) t.dirs enough))
                        | inr cluster ↦
                            inr (rw same (HasFuel-begin g fuel start t.dirs cluster new enough))
                      ] in
                    let child : t1.findings ≡ [] → IsDirectory g file fat content = λ e.
                      (let (before, (cs, chain, read, _)) = clean e in
                        rw (read refl) (inner (is_dir before) is_entry dir chain)) in
                    let first : Clean t t1 =
                      Follows-Clean none start t0 t1 owner content
                        (λ e. of_entry (is_dir e) is_entry) (same, clean, there) in
                    Stops-mono (deeper content owner t1 child ready) (λ u (more, clean1). (
                      (λ k absent.
                          let absent1 : is_member k (start ∷ t.dirs) ≡ false =
                            rw same at (more k absent) in
                          (or_false (start == k) _ absent1).1),
                      Clean-trans t t1 u first clean1,
                    )))))
          (λ _.
            Stops-bind _ (fat_chain-Follows max_nodes g file fat owner start (some (le32 row 28)) t)
              (λ (content, u) follows. gives (
                Runs-same t u follows.0 (
                  Follows-Clean (some (le32 row 28)) start t u owner content
                    (λ e. of_entry (is_dir e) is_entry) follows))))

    fat_rows-Runs :
        (d : Bytes) (prefix : Text) (rs : List Bytes) (t : Track)
        → All (IsRowOf d) rs
        → (t.findings ≡ [] → IsDirectory g file fat d)
        → HasFuel g (suc fuel) t.dirs
        → Stops (Runs t) (λ _. ⊥) (fat_rows codecs descend max_nodes g file fat prefix rs t)
    unfolding fat_rows Runs Clean IsRowOf Kept
    fat_rows-Runs d prefix [] t places is_dir enough = gives (Runs-same t t refl (Clean-refl t))
    fat_rows-Runs d prefix (row ∷ rest) t ((place, at, whole), places) is_dir enough =
        elim (RowKind-cases (row_kind codecs row)) [
          | inl e ↦ rw (e, fat_rows) (gives (Runs-same t t refl (Clean-refl t)))
          | inr (inl e) ↦ rw (e, fat_rows) (fat_rows-Runs d prefix rest t places is_dir enough)
          | inr (inr (name, e)) ↦
              let (some_byte, kept, no_label) : Kept row (entry name) =
                rw e at (row_kind-Kept codecs row) in
              let is_entry : IsEntry g file fat d row = record {
                place = place;
                row_at = at;
                whole = whole;
                used = (some_byte, kept);
                no_label = no_label;
              } in
              rw (e, fat_rows)
                (Stops-bind _
                  (fat_entry-Runs d (prefix ++ (47 ∷ name)) row t is_dir is_entry enough)
                  (λ u first.
                    Stops-mono
                      (fat_rows-Runs d prefix rest u places (λ clean. is_dir (first.1 clean).0)
                        (HasFuel-Within g (suc fuel) _ _ first.0 enough))
                      (λ v later. Runs-trans t u v first later)))
        ]

  pub fat_directory-Runs :
      (fuel : ℕ) (directory : Bytes) (prefix : Text) (t : Track)
      → (t.findings ≡ [] → IsDirectory g file fat directory)
      → ((directory ≡ []) × (1 ≤ fuel)) ⊎ HasFuel g fuel t.dirs
      → Stops (Runs t) (λ _. ⊥) (fat_directory codecs max_nodes g file fat fuel directory prefix t)
  unfolding fat_directory fat_rows
  fat_directory-Runs zero directory prefix t is_dir (inl (_, some_fuel)) =
      absurd (omega (arith, some_fuel))
  fat_directory-Runs zero directory prefix t is_dir (inr enough) =
      absurd (omega (arith, HasFuel-some g zero t.dirs enough))
  fat_directory-Runs (suc fuel) directory prefix t is_dir (inl (empty, _)) =
      rw (empty, rows-nil max_nodes, fat_directory) (gives (Runs-same t t refl (Clean-refl t)))
  fat_directory-Runs (suc fuel) directory prefix t is_dir (inr enough) =
      fat_rows-Runs fuel (fat_directory codecs max_nodes g file fat fuel) (fat_directory-Runs fuel)
        directory prefix (rows max_nodes directory) t (rows-IsRowOf max_nodes 0 directory) is_dir
        enough

  pub fat_root-Runs :
      (t : Track)
      → Stops
          (λ r. Clean t r.1 × (r.1.findings ≡ [] → IsDirectory g file fat r.0))
          (λ _. ⊥)
          (fat_root max_nodes g file fat t)
  unfolding fat_root Follows
  fat_root-Runs t =
      Stops-if (is_fat32 g.variant)
        (λ large.
          Stops-mono (fat_chain-Follows max_nodes g file fat root_owner (le32 file 44) none t)
            (λ (content, u) follows. (
              Follows-Clean none (le32 file 44) t u root_owner content (λ _. of_root large) follows,
              λ e.
                  let (_, (cs, chain, read, _)) = follows.1 e in
                  rw (read refl) (root_chain large chain),
            )))
        (λ small. gives (Clean-refl t, λ _. root_area small))
