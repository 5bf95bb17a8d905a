-- ===== src/Partitions/Mbr/Bounds.antt =====
-- The partitions that `_parse_mbr` returns.
use avbox.Prelude.{
  ℕ, zero, suc, ◌+◌, ◌%◌, ◌≤◌, ◌<◌, ◌≡◌, refl, inl, inr, some, List, [], ◌∷◌, ◌++◌, arith, ltb,
  ltb→le, Bool-cases, length, take, All, length-take, All-take, ok,
}
use avbox.Prelude.Bytes.{Bytes, slice}
use avbox.Partitions.Types.{Partition, PartitionTable, TableError, RowOutcome, skip, fault, found}
use avbox.Partitions.Overlap.{mark_overlaps}
use avbox.Partitions.Overlap.Disjoint.{Disjoint, mark_overlaps-Disjoint}
use avbox.Partitions.Mbr.{
  mbr_rows, mbr_row, add_outcome, scan_rows, limit_count, mbr_table, parse_mbr,
}

-- A partition as row `row`, whose number is `index`, describes it, inside the image and past the
-- sector of the table.
pub record IsSound (size : ℕ) (p : Partition) : Type 0 where
  pub past_table : 512 ≤ p.start
  pub not_empty : 0 < p.length
  pub inside : p.start + p.length ≤ size
  pub aligned : (p.start % 512 ≡ 0) × (p.length % 512 ≡ 0)

found-IsSound :
    (size index : ℕ) (row : Bytes) {p : Partition}
    → mbr_row size index row ≡ found p
    → IsSound size p × (p.index ≡ index)
unfolding mbr_row
found-IsSound size index row h = ground arith

-- The row numbers increase from `k` on, and stay below `n`.
abbrev pub Ascending : ℕ → ℕ → List Partition → Type 0
Ascending k n [] = Unit
Ascending k n (p ∷ ps) = (k ≤ p.index) × (p.index < n) × Ascending (p.index + 1) n ps

Ascending-mono : (j k n : ℕ) (ps : List Partition) → j ≤ k → Ascending k n ps → Ascending j n ps
Ascending-mono j k n [] h a = tt
Ascending-mono j k n (p ∷ ps) h a = (omega arith, a.1, a.2)

Ascending-take : (j k n : ℕ) (ps : List Partition) → Ascending k n ps → Ascending k n (take j ps)
Ascending-take zero k n ps a = tt
Ascending-take (suc j) k n [] a = tt
Ascending-take (suc j) k n (p ∷ ps) a = (a.0, a.1, Ascending-take j (p.index + 1) n ps a.2)

-- What holds of the partitions at every stage.
abbrev IsGood : ℕ → ℕ → ℕ → List Partition → Type 0
IsGood size k n ps = All (IsSound size) ps × Ascending k n ps

add_outcome-IsGood :
    (size index n : ℕ) (row : Bytes) (out : RowOutcome) (acc : List Partition × List TableError)
    → mbr_row size index row ≡ out
    → index < n
    → IsGood size (index + 1) n acc.0
    → IsGood size index n (add_outcome out acc).0
unfolding add_outcome
add_outcome-IsGood size index n row skip acc e b h =
    (h.0, Ascending-mono index (index + 1) n acc.0 (omega arith) h.1)
add_outcome-IsGood size index n row (fault _) acc e b h =
    (h.0, Ascending-mono index (index + 1) n acc.0 (omega arith) h.1)
add_outcome-IsGood size index n row (found p) acc e b h =
    let (sound, at) = found-IsSound size index row e in
    ((sound, h.0), (omega arith, omega arith, rw at h.1))

scan_rows-IsGood :
    (size index n : ℕ) (rows : List Bytes)
    → index + length rows ≡ n
    → IsGood size index n (scan_rows size index rows).0
unfolding scan_rows
scan_rows-IsGood size index n [] e = (tt, tt)
scan_rows-IsGood size index n (row ∷ rows) e =
    add_outcome-IsGood size index n row (mbr_row size index row) (scan_rows size (index + 1) rows)
      refl (omega arith) (scan_rows-IsGood size (index + 1) n rows (omega arith))

limit_count-IsGood :
    (size k n m : ℕ) (acc : List Partition × List TableError)
    → IsGood size k n acc.0
    → IsGood size k n (limit_count m acc).0 × (length (limit_count m acc).0 ≤ m)
unfolding limit_count
limit_count-IsGood size k n m (ps, es) h = elim (Bool-cases (ltb m (length ps))) [
  | inl over ↦ rw over (
    (All-take (IsSound size) m ps h.0, Ascending-take m k n ps h.1),
    omega (arith, length-take m ps),
  )
  | inr fits ↦ rw fits (h, ltb→le m (length ps) fits)
]

-- What `parse_mbr` returns a table of: the limited scan of the four rows.
parse_mbr_inversion :
    (stream : Bytes) (size m : ℕ) {t : PartitionTable}
    → parse_mbr stream size m ≡ ok (some t)
    → t ≡ mbr_table (limit_count m (scan_rows size 0 (mbr_rows (slice stream 0 512))))
unfolding parse_mbr
parse_mbr_inversion stream size m h = ground arith

errors_empty : (xs ys : List TableError) → xs ++ ys ≡ [] → ys ≡ []
errors_empty [] ys h = h
errors_empty (x ∷ xs) ys h = cc

-- Of a table that `_parse_mbr` returns: each partition starts past the sector of the table, is not
-- empty, lies inside the image and is a whole number of sectors; there are at most
-- `max_partitions`, and their row numbers increase and are below 4; and if the table has no errors,
-- no two of them share a byte.
pub parse_mbr-IsSound :
    (stream : Bytes) (size max_partitions : ℕ) {t : PartitionTable}
    → parse_mbr stream size max_partitions ≡ ok (some t)
    → All (IsSound size) t.partitions
      × (length t.partitions ≤ max_partitions)
      × Ascending 0 4 t.partitions
      × (t.errors ≡ [] → Disjoint t.partitions)
unfolding mbr_table
parse_mbr-IsSound stream size m h =
    let rows = mbr_rows (slice stream 0 512) in
    let acc = limit_count m (scan_rows size 0 rows) in
    let (good, few) =
      limit_count-IsGood size 0 4 m (scan_rows size 0 rows)
        (scan_rows-IsGood size 0 4 rows (unfold mbr_rows in refl)) in
    rw (parse_mbr_inversion stream size m h) (
      good.0,
      few,
      good.1,
      λ clean. (mark_overlaps-Disjoint acc.0).0 (errors_empty acc.1 (mark_overlaps acc.0) clean),
    )
