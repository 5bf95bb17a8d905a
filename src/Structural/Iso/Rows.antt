-- ===== src/Structural/Iso/Rows.antt =====
-- The rows of an ISO 9660 directory, and the inner loop of `_iso_directories` of
-- src/avbox/analyzers/structural.py that reads them.
use avbox.Prelude.{
  ℕ, zero, suc, ◌+◌, ◌*◌, ◌/◌, ◌%◌, ◌≤◌, ◌<◌, ◌≡◌, refl, ◌∙◌, ◌≢◌, ◌⊎◌, inl, inr, true, false, ◌||◌,
  List, [], arith, ltb, leb, ◌==◌, ltb→le, leb→le, leb→lt, ==→eq, Bool-cases, or_false, if_both,
  length,
}
use avbox.Prelude.{if_by}
use native.Mathlib.Nat.{mod-lt, mod-add-div'}
use mathlib.Core.List.{Memᴰ}
use mathlib.Core.List.Memᴰ.{head, tail}
use avbox.Prelude.Bytes.{Bytes, byte, slice, length-slice, le32}
use avbox.Prelude.Stops.{Stops, gives, fails, Stops-mono}
use avbox.Structural.Facts.{snoc_apart}
use avbox.Structural.Iso.Directories.{
  Walk, is_outside, is_directory, add_row, RowStep, leave, next, divides, count_node, read_row,
  read_rows,
}

-- The rows of the directory `d` that come from position `p` on: a byte that is not 0 is the length
-- of a row, and the byte 0 leads to the next block.
pub data RowAt (block_size : ℕ) (d : Bytes) : ℕ → Bytes → Type 0 where
  here :
      {p : ℕ} {row : Bytes}
      → p < length d
      → byte d p ≢ 0
      → row ≡ slice d p (p + byte d p)
      → RowAt block_size d p row
  after :
      {p : ℕ} {row : Bytes}
      → p < length d
      → byte d p ≢ 0
      → RowAt block_size d (p + byte d p) row
      → RowAt block_size d p row
  padded :
      {p : ℕ} {row : Bytes}
      → p < length d
      → byte d p ≡ 0
      → RowAt block_size d ((p / block_size + 1) * block_size) row
      → RowAt block_size d p row

-- The extent that a row names lies inside an image of `size` bytes.
abbrev pub IsInside : ℕ → ℕ → Bytes → Type 0
IsInside block_size size row = le32 row 2 * block_size + le32 row 10 ≤ size

-- A whole row, with its name inside it and its extent inside the image.
abbrev pub IsRow : ℕ → ℕ → Bytes → Type 0
IsRow block_size size row =
    (34 ≤ length row) × (33 + byte row 32 ≤ length row) × IsInside block_size size row

pub inside :
    (block_size size : ℕ) (row : Bytes)
    → is_outside block_size size row ≡ false
    → IsInside block_size size row
inside b size row h =
    let (starts, ends) = or_false (ltb size (le32 row 2 * b)) _ h in
    omega (arith, ltb→le _ _ starts, ltb→le _ _ ends)

-- The directories that wait, and the nodes, grow alike.
abbrev pub Balance : Walk → Walk → Type 0
Balance w t = length t.pending + w.nodes ≤ length w.pending + t.nodes

abbrev pub Keeps : Walk → Walk → Type 0
Keeps w t = (row : Bytes) → Memᴰ row w.pending → Memᴰ row t.pending

-- A row that has been read.
abbrev pub IsRead : ℕ → ℕ → Walk → Bytes → Type 0
IsRead block_size size t row =
    IsRow block_size size row × (is_directory row ≡ true → Memᴰ row t.pending)

past_block : (p b : ℕ) → b ≢ 0 → p < (p / b + 1) * b
past_block p b h =
    let low : p % b < b = mod-lt p (omega (arith, h)) in
    let whole = mod-add-div' p b in
    let one_more : (p / b + 1) * b ≡ p / b * b + b = grind arith in
    omega (arith, low, whole, one_more)

module _ (block_size size : ℕ) (d : Bytes) where
  -- What a round does at `p`.
  Reads : ℕ → Walk → RowStep → Type 0
  Reads p w (leave t) = (t.findings ≢ []) × (t.seen ≡ w.seen) × Balance w t
  Reads p w (next q t) =
      (p < q)
      × (t.seen ≡ w.seen)
      × Balance w t
      × (t.findings ≡ []
          → (w.findings ≡ [])
            × Keeps w t
            × ((row : Bytes)
                → RowAt block_size d p row
                → IsRead block_size size t row ⊎ RowAt block_size d q row))
  Reads p w divides = block_size ≡ 0

  rows_after :
      (p : ℕ) (t : Walk)
      → byte d p ≢ 0
      → IsRead block_size size t (slice d p (p + byte d p))
      → (row : Bytes) → RowAt block_size d p row
      → IsRead block_size size t row ⊎ RowAt block_size d (p + byte d p) row
  rows_after p t some_byte read row (here _ _ e) = inl (rw e read)
  rows_after p t some_byte read row (after _ _ r) = inr r
  rows_after p t some_byte read row (padded _ e r) = absurd (some_byte e)

  rows_padded :
      (p : ℕ) (t : Walk)
      → byte d p ≡ 0
      → (row : Bytes) → RowAt block_size d p row
      → IsRead block_size size t row ⊎ RowAt block_size d ((p / block_size + 1) * block_size) row
  rows_padded p t e row (here _ h _) = absurd (h e)
  rows_padded p t e row (after _ h _) = absurd (h e)
  rows_padded p t e row (padded _ _ r) = inr r

  add_row-Reads :
      (p : ℕ) (w : Walk)
      → 34 ≤ byte d p
      → p + byte d p ≤ length d
      → 33 + byte (slice d p (p + byte d p)) 32 ≤ byte d p
      → Reads p w
          (next (p + byte d p) (add_row block_size size (slice d p (p + byte d p)) (count_node w)))
  unfolding Reads add_row
  add_row-Reads p w sized whole named =
      let row = slice d p (p + byte d p) in
      let long : length row ≡ byte d p = omega (arith, length-slice d p (p + byte d p)) in
      let some_byte : byte d p ≢ 0 = λ e. omega (arith, sized, e) in
      let grows : Balance w (add_row block_size size row (count_node w)) =
        if_both (λ (ps : List Bytes). length ps + w.nodes ≤ length w.pending + (w.nodes + 1))
          (is_directory row) (omega arith) (omega arith) in
      (
        omega (arith, sized),
        refl,
        grows,
        elim (Bool-cases (is_outside block_size size row)) [
          | inl out ↦ rw out (λ clean. absurd (snoc_apart _ _ clean))
          | inr within ↦ rw within (λ clean. (
            clean,
            (λ x m. if_both (Memᴰ x) (is_directory row) (tail m) m),
            rows_after p (add_row block_size size row (count_node w)) some_byte (
              (
                omega (arith, long, sized),
                omega (arith, long, named),
                inside block_size size row within,
              ),
              λ so. rw so (head refl),
            ),
          ))
        ],
      )

  read_row-Reads : (p : ℕ) (w : Walk) → Reads p w (read_row block_size size d p w)
  unfolding Reads read_row
  read_row-Reads p w =
      let row = slice d p (p + byte d p) in
      if_by (Reads p w) (byte d p == 0)
        (λ null.
          if_by (Reads p w) (block_size == 0) (λ e. ==→eq _ _ e)
            (λ e. (
              past_block p block_size (λ z. ground (arith, e, z)),
              refl,
              omega arith,
              λ clean. (clean, (λ x m. m), rows_padded p (count_node w) (==→eq _ _ null)),
            )))
        (λ _.
          if_by (Reads p w) (ltb (byte d p) 34 || ltb (length d) (p + byte d p))
            (λ _. (snoc_apart _ _, refl, omega arith))
            (λ fits.
              let (sized, whole) = or_false (ltb (byte d p) 34) _ fits in
              if_by (Reads p w) (ltb (byte d p) (33 + byte row 32))
                (λ _. (snoc_apart _ _, refl, omega arith))
                (λ named.
                  add_row-Reads p w (ltb→le _ _ sized) (ltb→le _ _ whole) (ltb→le _ _ named))))

  -- What the loop from `p` on does.
  unfoldable pub Scans : ℕ → Walk → Walk → Type 0
  Scans p w t =
      (t.seen ≡ w.seen)
      × Balance w t
      × (t.findings ≡ []
          → (w.findings ≡ [])
            × Keeps w t
            × ((row : Bytes) → RowAt block_size d p row → IsRead block_size size t row))

  RowStep-cases :
      (r : RowStep)
      → ((t : Walk) × (r ≡ leave t)) ⊎ ((q : ℕ) × (t : Walk) × (r ≡ next q t)) ⊎ (r ≡ divides)
  RowStep-cases (leave t) = inl (t, refl)
  RowStep-cases (next q t) = inr (inl (q, t, refl))
  RowStep-cases divides = inr (inr refl)

  no_rows : (p : ℕ) (row : Bytes) → length d ≤ p → ¬ RowAt block_size d p row
  no_rows p row h (here lt _ _) = omega (arith, lt)
  no_rows p row h (after lt _ _) = omega (arith, lt)
  no_rows p row h (padded lt _ _) = omega (arith, lt)

  Scans-next : (p q : ℕ) (w t u : Walk) → Reads p w (next q t) → Scans q t u → Scans p w u
  unfolding Reads Scans
  Scans-next p q w t u (_, same, grows, passed) (same1, grows1, rest) = (
    same1 ∙ same,
    omega (arith, grows, grows1),
    λ clean.
        let (clean1, keep1, read1) = rest clean in
        let (clean2, keep2, read2) = passed clean1 in
        (
          clean2,
          (λ x m. keep1 x (keep2 x m)),
          (λ row r. elim (read2 row r) [
            | inl (good, waits) ↦ (good, λ so. keep1 row (waits so))
            | inr later ↦ read1 row later
          ]),
        ),
  )

  pub read_rows-Scans :
      (fuel p : ℕ) (w : Walk)
      → 1 ≤ fuel
      → length d + 1 ≤ fuel + p
      → Stops (Scans p w) (λ _. block_size ≡ 0) (read_rows block_size size d fuel p w)
  unfolding read_rows Reads Scans
  read_rows-Scans zero p w some_fuel enough = absurd (omega arith)
  read_rows-Scans (suc fuel) p w some_fuel enough = elim (Bool-cases (leb (length d) p)) [
    | inl past ↦
        rw (past, read_rows)
          (gives (
            refl,
            omega arith,
            λ clean. (clean, (λ x m. m), (λ row r. absurd (no_rows p row (leb→le _ _ past) r))),
          ))
    | inr before ↦ elim (RowStep-cases (read_row block_size size d p w)) [
      | inl (t, left) ↦
          let (found, same, grows) : Reads p w (leave t) = rw left at (read_row-Reads p w) in
          rw (before, left, read_rows) (gives (same, grows, λ clean. absurd (found clean)))
      | inr (inl (q, t, went)) ↦
          let step : Reads p w (next q t) = rw went at (read_row-Reads p w) in
          let lt = leb→lt _ _ before in
          rw (before, went, read_rows)
            (Stops-mono
              (read_rows-Scans fuel q t (omega (arith, enough, lt)) (omega (arith, enough, step.0)))
              (λ u scans. Scans-next p q w t u step scans))
      | inr (inr stuck) ↦
          let zero_size : Reads p w divides = rw stuck at (read_row-Reads p w) in
          rw (before, stuck, read_rows) (fails zero_size)
    ]
  ]
