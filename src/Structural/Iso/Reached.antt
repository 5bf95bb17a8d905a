-- ===== src/Structural/Iso/Reached.antt =====
-- The outer loop of `_iso_directories` of src/avbox/analyzers/structural.py: it ends, and without a
-- finding it has read every directory that the root leads to.
use avbox.Prelude.{
  ℕ, zero, suc, ◌+◌, ◌≤◌, ◌≡◌, refl, ◌≢◌, ◌⊎◌, inl, inr, true, false, not, List, [], ◌∷◌, ◌++◌,
  arith, ltb, ◌==◌, ltb→lt, eq→==, Bool-cases, or_false, length,
}
use mathlib.Core.List.{Memᴰ}
use mathlib.Core.List.Memᴰ.{head, tail}
use avbox.Prelude.Bytes.{Bytes, le32}
use avbox.Prelude.Stops.{Stops, gives, Stops-mono, Stops-if, Stops-bind, Stops-List, Stops-Bool}
use avbox.Structural.Types.{Finding, iso_directory_node_limit}
use avbox.Structural.Facts.{snoc_apart}
use avbox.Structural.Iso.Directories.{
  Walk, is_seen, is_outside, is_directory, directory_of, visit, walk, is_limited, iso_directories,
}
use avbox.Structural.Iso.Rows.{RowAt, IsInside, IsRow, inside, Scans, read_rows-Scans}

-- The directories that the root leads to.
pub data Reaches (block_size : ℕ) (file root : Bytes) : Bytes → Type 0 where
  start : Reaches block_size file root root
  leads :
      {d row : Bytes}
      → Reaches block_size file root d
      → RowAt block_size (directory_of file block_size d) 0 row
      → is_directory row ≡ true
      → Reaches block_size file root row

-- A directory that lies inside the image, with whole rows that name extents inside it.
abbrev pub IsReadable : ℕ → Bytes → Bytes → Type 0
IsReadable block_size file d =
    IsInside block_size (length file) d
    × ((row : Bytes)
        → RowAt block_size (directory_of file block_size d) 0 row
        → IsRow block_size (length file) row)

module _ (block_size : ℕ) (file : Bytes) where
  IsSeen : Walk → Bytes → Type 0
  IsSeen w d = is_seen (le32 d 2) (le32 d 10) w.seen ≡ true

  -- It has been read, or waits.
  IsKnown : Walk → Bytes → Type 0
  IsKnown w d = IsSeen w d ⊎ Memᴰ d w.pending

  -- What has been read leads only to what is known.
  IsClosed : Walk → Type 0
  IsClosed w =
      (d : Bytes)
      → IsSeen w d
      → IsReadable block_size file d
        × ((row : Bytes)
            → RowAt block_size (directory_of file block_size d) 0 row
            → is_directory row ≡ true
            → IsKnown w row)

  Goes : Walk → Walk → Type 0
  Goes w t =
      t.findings ≡ []
      → (w.findings ≡ []) × (IsClosed w → IsClosed t) × ((d : Bytes) → IsKnown w d → IsKnown t d)

  Goes-trans : (w t u : Walk) → Goes w t → Goes t u → Goes w u
  unfolding Goes
  Goes-trans w t u first second clean =
      let (clean1, closed1, known1) = second clean in
      let (clean2, closed2, known2) = first clean1 in
      (clean2, (λ c. closed1 (closed2 c)), (λ d k. known1 d (known2 d k)))

  Goes-found : (w t : Walk) → t.findings ≢ [] → Goes w t
  unfolding Goes
  Goes-found w t h clean = absurd (h clean)

  add_seen :
      (a b : ℕ) (ks : List (ℕ × ℕ)) (e l : ℕ)
      → is_seen e l ks ≡ true
      → is_seen e l ((a, b) ∷ ks) ≡ true
  unfolding is_seen
  add_seen a b ks e l h = ground (arith, h)

  seen_now : (a b : ℕ) (ks : List (ℕ × ℕ)) → is_seen a b ((a, b) ∷ ks) ≡ true
  unfolding is_seen
  seen_now a b ks = let e = eq→== a a refl in let f = eq→== b b refl in rw (e, f) refl

  seen_cases :
      (a b : ℕ) (ks : List (ℕ × ℕ)) (e l : ℕ)
      → is_seen e l ((a, b) ∷ ks) ≡ true
      → ((e ≡ a) × (l ≡ b)) ⊎ (is_seen e l ks ≡ true)
  unfolding is_seen
  seen_cases a b ks e l h = ground (arith, h)

  -- The record that comes from the stack, with its directory read in full.
  module _ (w : Walk) (row : Bytes) (rest : List Bytes) (waits : w.pending ≡ row ∷ rest) where
    popped : Walk
    popped = record w { pending = rest }

    known : Walk
    known = record w { pending = rest; seen = (le32 row 2, le32 row 10) ∷ w.seen }

    pending_cases : (d : Bytes) → Memᴰ d w.pending → (d ≡ row) ⊎ Memᴰ d rest
    pending_cases d m = cases (rw waits at m)
      where
        cases : Memᴰ d (row ∷ rest) → (d ≡ row) ⊎ Memᴰ d rest
        cases (head e) = inl e
        cases (tail later) = inr later

    again-Goes : is_seen (le32 row 2) (le32 row 10) w.seen ≡ true → Goes w popped
    unfolding Goes IsClosed IsKnown IsSeen popped
    again-Goes seen clean =
        let keep : (d : Bytes) → IsKnown w d → IsKnown popped d = λ d k. elim k [
          | inl old ↦ inl old
          | inr m ↦ elim (pending_cases d m) [ inl e ↦ inl (rw e seen) | inr later ↦ inr later ]
        ] in
        (clean, (λ closed d s. ((closed d s).0, λ r at so. keep r ((closed d s).1 r at so))), keep)

    read-Goes :
        (t : Walk)
        → is_outside block_size (length file) row ≡ false
        → Scans block_size (length file) (directory_of file block_size row) 0 known t
        → Goes w t
    unfolding Goes IsClosed IsKnown IsSeen known Scans
    read-Goes t within (same, _, found) clean =
        let (clean0, keeps, read) = found clean in
        let keep : (d : Bytes) → IsKnown w d → IsKnown t d = λ d k. elim k [
          | inl old ↦ inl (rw same (add_seen _ _ w.seen _ _ old))
          | inr m ↦ elim (pending_cases d m) [
            | inl e ↦ inl (rw (same, e) (seen_now _ _ w.seen))
            | inr later ↦ inr (keeps d later)
          ]
        ] in
        (
          clean0,
          (λ closed d s. elim (seen_cases _ _ w.seen _ _ (rw same at s)) [
            | inl (extent, size) ↦
                rw (extent, size)
                  (
                    (inside block_size (length file) row within, λ r at. (read r at).0),
                    λ r at so. inr ((read r at).1 so),
                  )
            | inr old ↦ ((closed d old).0, λ r at so. keep r ((closed d old).1 r at so))
          ]),
          keep,
        )

    -- Each round takes a directory from the stack, and adds at most one for each node.
    Fewer : Walk → Type 0
    Fewer t = length t.pending + 1 + w.nodes ≤ length w.pending + t.nodes

    visit-Goes :
        Stops (λ t. Fewer t × Goes w t) (λ _. block_size ≡ 0) (visit block_size file row popped)
    unfolding visit popped known Fewer Scans
    visit-Goes =
        let shorter : length w.pending ≡ length rest + 1 = rw waits (omega arith) in
        Stops-if (is_seen (le32 row 2) (le32 row 10) w.seen)
          (λ seen. gives (omega (arith, shorter), again-Goes seen))
          (λ _.
            Stops-if (is_outside block_size (length file) row)
              (λ _. gives (omega (arith, shorter), Goes-found w _ (snoc_apart _ _)))
              (λ within.
                Stops-mono
                  (read_rows-Scans block_size (length file) (directory_of file block_size row)
                    (length (directory_of file block_size row) + 1) 0 known (omega arith)
                    (omega arith))
                  (λ t scans. (omega (arith, shorter, scans.1), read-Goes t within scans))))

  empty_pending : (w : Walk) → not (length w.pending == 0) ≡ false → w.pending ≡ []
  empty_pending w h = empty w.pending h
    where
      empty : (ps : List Bytes) → not (length ps == 0) ≡ false → ps ≡ []
      empty [] e = refl
      empty (p ∷ ps) e = absurd (ground (arith, e))

  Goes-refl : (w : Walk) → Goes w w
  unfolding Goes
  Goes-refl w clean = (clean, (λ c. c), (λ d k. k))

  module _ (max_nodes : ℕ) where
    -- There is a round of fuel for each directory that can still come, and two for the end.
    walk-Goes :
        (fuel : ℕ) (w : Walk)
        → 1 ≤ fuel
        → max_nodes + length w.pending + 1 ≤ fuel + w.nodes
        → Stops (Goes w) (λ _. block_size ≡ 0) (walk max_nodes block_size file fuel w)
    unfolding walk Fewer popped
    walk-Goes zero w some_fuel enough = absurd (omega arith)
    walk-Goes (suc fuel) w some_fuel enough =
        Stops-List w.pending _ _ (λ _. gives (Goes-refl w))
          (λ row rest waits.
            let some_left : 1 ≤ length w.pending = rw waits (omega arith) in
            Stops-Bool (ltb w.nodes max_nodes) _ _
              (λ on.
                let below = ltb→lt _ _ on in
                Stops-bind _ (visit-Goes w row rest waits) (λ t (fewer, goes).
                  Stops-mono
                    (walk-Goes fuel t (omega (arith, enough, below, some_left))
                      (omega (arith, enough, fewer)))
                    (λ u further. Goes-trans w t u goes further)))
              (λ _. gives (Goes-refl w)))

    reached :
        (root : Bytes) (w : Walk)
        → w.pending ≡ []
        → IsClosed w
        → IsKnown w root
        → (d : Bytes) → Reaches block_size file root d
        → IsSeen w d
    unfolding IsClosed IsKnown
    reached root w done_all closed first d start = settled first
      where
        settled : IsKnown w root → IsSeen w root
        settled (inl s) = s
        settled (inr m) = elim (rw done_all at m) [ ]
    reached root w done_all closed first d (leads {d = e} r at so) =
        settled ((closed e (reached root w done_all closed first e r)).1 d at so)
      where
        settled : IsKnown w d → IsSeen w d
        settled (inl s) = s
        settled (inr m) = elim (rw done_all at m) [ ]

    -- The walk from the root of an image ends; it divides by 0 only where the block size is 0; and
    -- where it appends no finding, each directory that the root leads to lies inside the image, and
    -- its rows are whole and name extents inside it.
    pub iso_directories-Readable :
        (root : Bytes) (findings : List Finding)
        → Stops
            (λ fs.
              fs ≡ []
              → (findings ≡ [])
                × ((d : Bytes) → Reaches block_size file root d → IsReadable block_size file d))
            (λ _. block_size ≡ 0)
            (iso_directories max_nodes block_size file root findings)
    unfolding iso_directories Goes IsClosed IsKnown IsSeen is_seen
    iso_directories-Readable root findings =
        let w0 : Walk = record { pending = root ∷ []; seen = []; nodes = 0; findings = findings } in
        Stops-bind (Goes w0) (walk-Goes (max_nodes + 2) w0 (omega arith) (omega arith)) (λ w goes.
          gives (λ clean. elim (Bool-cases (is_limited max_nodes w)) [
            | inl limited ↦
                let no : w.findings ++ (iso_directory_node_limit ∷ []) ≡ [] = rw limited at clean in
                absurd (snoc_apart _ _ no)
            | inr free ↦
                let none_found : w.findings ≡ [] = rw free at clean in
                let (before, close, keep) = goes none_found in
                let (no_more, _) = or_false (not (length w.pending == 0)) _ free in
                let closed : IsClosed w = close (λ d s. absurd cc) in
                (
                  before,
                  λ d r.
                      (closed d (
                        reached root w (empty_pending w no_more) closed
                          (keep root (inr (head refl))) d r)).0,
                )
          ]))
