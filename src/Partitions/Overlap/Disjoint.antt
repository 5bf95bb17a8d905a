-- ===== src/Partitions/Overlap/Disjoint.antt =====
-- Comparing neighbours in the sorted order finds every overlap.
use avbox.Prelude.{
  ◌+◌, ◌≤◌, ◌≡◌, refl, ◌↔◌, ◌⊎◌, inl, inr, true, false, List, [], ◌∷◌, arith, Bool-cases, All,
}
use avbox.Partitions.Types.{Partition}
use avbox.Partitions.Overlap.{
  key_le, insert_sorted, sort_partitions, adjacent_overlaps, mark_overlaps,
}

-- Two partitions share no byte.
abbrev pub Apart : Partition → Partition → Type 0
Apart p q = (p.start + p.length ≤ q.start) ⊎ (q.start + q.length ≤ p.start)

-- No two of the partitions share a byte.
abbrev pub Disjoint : List Partition → Type 0
Disjoint [] = Unit
Disjoint (p ∷ ps) = All (Apart p) ps × Disjoint ps

-- `p` stands before `q` in the order of the sort.
abbrev Before : Partition → Partition → Type 0
Before p q = key_le p q ≡ true

abbrev IsSorted : List Partition → Type 0
IsSorted [] = Unit
IsSorted (p ∷ ps) = All (Before p) ps × IsSorted ps

Apart-sym : (p q : Partition) → Apart p q → Apart q p
Apart-sym p q (inl h) = inr h
Apart-sym p q (inr h) = inl h

module _ (P : Partition → Type 0) where
  All-insert : (p : Partition) (ps : List Partition) → All P (insert_sorted p ps) ↔ (P p × All P ps)
  unfolding insert_sorted
  All-insert p [] = (λ h. h, λ h. h)
  All-insert p (q ∷ qs) = elim (Bool-cases (key_le p q)) [
    | inl first ↦ rw first (λ h. h, λ h. h)
    | inr later ↦ rw later (
      λ h. let r = (All-insert p qs).0 h.1 in (r.0, (h.0, r.1)),
      λ h. (h.1.0, (All-insert p qs).1 (h.0, h.1.1)),
    )
  ]

insert-Disjoint :
    (p : Partition) (ps : List Partition)
    → Disjoint (insert_sorted p ps) ↔ (All (Apart p) ps × Disjoint ps)
unfolding insert_sorted
insert-Disjoint p [] = (λ h. h, λ h. h)
insert-Disjoint p (q ∷ qs) = elim (Bool-cases (key_le p q)) [
  | inl first ↦ rw first (λ h. h, λ h. h)
  | inr later ↦ rw later (
    λ h.
        let a = (All-insert (Apart q) p qs).0 h.0 in
        let d = (insert-Disjoint p qs).0 h.1 in ((Apart-sym q p a.0, d.0), (a.1, d.1)),
    λ h. (
      (All-insert (Apart q) p qs).1 (Apart-sym p q h.0.0, h.1.0),
      (insert-Disjoint p qs).1 (h.0.1, h.1.1),
    ),
  )
]

Before-flip : (p q : Partition) → key_le p q ≡ false → Before q p
unfolding key_le
Before-flip p q h = ground arith

Before-trans : (p q r : Partition) → Before p q → Before q r → Before p r
unfolding key_le
Before-trans p q r h k = ground arith

All-Before-trans :
    (p q : Partition) (ps : List Partition) → Before p q → All (Before q) ps → All (Before p) ps
All-Before-trans p q [] h k = tt
All-Before-trans p q (r ∷ rs) h k = (Before-trans p q r h k.0, All-Before-trans p q rs h k.1)

insert-IsSorted :
    (p : Partition) (ps : List Partition) → IsSorted ps → IsSorted (insert_sorted p ps)
unfolding insert_sorted
insert-IsSorted p [] h = (tt, tt)
insert-IsSorted p (q ∷ qs) h = elim (Bool-cases (key_le p q)) [
  | inl first ↦ rw first ((first, All-Before-trans p q qs first h.0), h)
  | inr later ↦
      rw later
        ((All-insert (Before q) p qs).1 (Before-flip p q later, h.0), insert-IsSorted p qs h.1)
]

sort-IsSorted : (ps : List Partition) → IsSorted (sort_partitions ps)
unfolding sort_partitions
sort-IsSorted [] = tt
sort-IsSorted (p ∷ ps) = insert-IsSorted p (sort_partitions ps) (sort-IsSorted ps)

All-sort : (P : Partition → Type 0) (ps : List Partition) → All P (sort_partitions ps) ↔ All P ps
unfolding sort_partitions
All-sort P [] = (λ h. h, λ h. h)
All-sort P (p ∷ ps) =
    let a = All-insert P p (sort_partitions ps) in
    let b = All-sort P ps in (λ h. let c = a.0 h in (c.0, b.0 c.1), λ h. a.1 (h.0, b.1 h.1))

sort-Disjoint : (ps : List Partition) → Disjoint (sort_partitions ps) ↔ Disjoint ps
unfolding sort_partitions
sort-Disjoint [] = (λ h. h, λ h. h)
sort-Disjoint (p ∷ ps) =
    let a = insert-Disjoint p (sort_partitions ps) in
    let b = sort-Disjoint ps in
    let c = All-sort (Apart p) ps in
    (λ h. let d = a.0 h in (c.0 d.0, b.0 d.1), λ h. a.1 (c.1 h.0, b.1 h.1))

-- Whatever comes after `q` starts at or after it.
All-after :
    (p q : Partition) (rs : List Partition)
    → p.start + p.length ≤ q.start
    → All (Before q) rs
    → All (Apart p) rs
unfolding key_le
All-after p q [] h k = tt
All-after p q (r ∷ rs) h k = (inl (ground arith), All-after p q rs h k.1)

neighbours_apart :
    (p q : Partition) (rest : List Partition)
    → adjacent_overlaps (p ∷ q ∷ rest) ≡ []
    → (p.start + p.length ≤ q.start) × (adjacent_overlaps (q ∷ rest) ≡ [])
unfolding adjacent_overlaps
neighbours_apart p q rest h = ground arith

no_overlap_if_Apart :
    (p q : Partition) (rest : List Partition)
    → Before p q
    → Apart p q
    → adjacent_overlaps (q ∷ rest) ≡ []
    → adjacent_overlaps (p ∷ q ∷ rest) ≡ []
unfolding adjacent_overlaps key_le
no_overlap_if_Apart p q rest b a h = ground arith

adjacent-Disjoint : (ps : List Partition) → IsSorted ps → (adjacent_overlaps ps ≡ []) ↔ Disjoint ps
unfolding adjacent_overlaps
adjacent-Disjoint [] s = (λ _. tt, λ _. refl)
adjacent-Disjoint (p ∷ []) s = (λ _. (tt, tt), λ _. refl)
adjacent-Disjoint (p ∷ q ∷ rest) s =
    let later = adjacent-Disjoint (q ∷ rest) s.1 in
    (
      λ h.
          let n = neighbours_apart p q rest h in
          ((inl n.0, All-after p q rest n.0 s.1.0), later.0 n.1),
      λ h. no_overlap_if_Apart p q rest s.0.0 h.0.0 (later.1 h.1),
    )

-- `_mark_overlaps`, which compares only neighbours in the sorted order, adds no error exactly when
-- no two of the partitions share a byte.
pub mark_overlaps-Disjoint : (ps : List Partition) → (mark_overlaps ps ≡ []) ↔ Disjoint ps
unfolding mark_overlaps
mark_overlaps-Disjoint ps =
    let a = adjacent-Disjoint (sort_partitions ps) (sort-IsSorted ps) in
    let b = sort-Disjoint ps in (λ h. b.0 (a.0 h), λ h. a.1 (b.1 h))
