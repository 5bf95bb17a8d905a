-- ===== src/Partitions/Rdb/Bounds.antt =====
-- The partitions that `_parse_rdb` returns, and the end of its loop.
use avbox.Prelude.{
  ℕ, zero, suc, ◌+◌, ◌-◌, ◌*◌, ◌/◌, ◌≤◌, ◌<◌, min, ◌≡◌, refl, ap, inl, inr, false, not, ◌&&◌, ◌||◌,
  Option, none, some, List, [], ◌∷◌, ◌++◌, arith, ltb, leb, ◌==◌, leb→lt, Bool-cases, Option-cases,
  if_both, length, All, length-append, All-append, is_member, Result, ok, err,
}
use avbox.Prelude.Bytes.{Bytes, starts_with, slice, be32}
use avbox.Partitions.Types.{
  Partition, PartitionTable, PartitionTableError, invalid_rdb_checksum, invalid_rdb_block_size,
  TableError, IsInside, RowOutcome, skip, fault, found,
}
use avbox.Partitions.Overlap.{mark_overlaps}
use avbox.Partitions.Overlap.Disjoint.{Disjoint, mark_overlaps-Disjoint}
use avbox.Partitions.Rdb.{
  Progress, part_outcome, add_outcome, Round, go_on, stop, rdb_round, rdb_loop, rdb_table,
  rdb_start, read_rdb, parse_rdb, finish_rdb, is_bad_block_size, part, valid_rdb_checksum, find_rdb,
  end_of_list,
}

-- No number stands twice in a list.
abbrev pub Distinct : List ℕ → Type 0
Distinct [] = Unit
Distinct (n ∷ ns) = (is_member n ns ≡ false) × Distinct ns

-- What holds of the loop's state: the partitions lie inside the image, there are no more of them
-- than blocks followed, and no block was followed twice.
pub record IsGood (size max_partitions : ℕ) (s : Progress) : Type 0 where
  pub inside : All (IsInside size) s.partitions
  pub few : length s.partitions ≤ length s.seen
  pub bounded : length s.seen ≤ max_partitions
  pub distinct : Distinct s.seen

part_outcome-IsInside :
    (size block_size : ℕ) (block : Bytes) (index : ℕ) {p : Partition}
    → part_outcome size block_size block index ≡ found p
    → IsInside size p
unfolding part_outcome
part_outcome-IsInside size block_size block index h = ground arith

-- A block that is followed may add one partition.
add_outcome-IsGood :
    (size m block_size : ℕ) (block : Bytes) (out : RowOutcome) (s : Progress)
    → part_outcome size block_size block (length s.partitions) ≡ out
    → is_member s.pointer s.seen ≡ false
    → length s.seen < m
    → IsGood size m s
    → IsGood size m (add_outcome out (record s { seen = s.pointer ∷ s.seen }))
unfolding add_outcome
add_outcome-IsGood size m bs block skip s e new room g = record {
  inside = g.inside;
  few = omega (arith, g.few);
  bounded = room;
  distinct = (new, g.distinct);
}
add_outcome-IsGood size m bs block (fault _) s e new room g = record {
  inside = g.inside;
  few = omega (arith, g.few);
  bounded = room;
  distinct = (new, g.distinct);
}
add_outcome-IsGood size m bs block (found p) s e new room g = record {
  inside =
      All-append (IsInside size) s.partitions (p ∷ []) g.inside
        (part_outcome-IsInside size bs block (length s.partitions) e, tt);
  few = omega (arith, g.few, length-append s.partitions (p ∷ []));
  bounded = room;
  distinct = (new, g.distinct);
}

-- A round goes on with one more block followed, or stops with no more partitions.
abbrev RoundIsGood : ℕ → ℕ → Progress → Round → Type 0
RoundIsGood size m s (go_on t) = IsGood size m t × (length t.seen ≡ suc (length s.seen))
RoundIsGood size m s (stop t) = IsGood size m t

seen-add_outcome : (out : RowOutcome) (s : Progress) → (add_outcome out s).seen ≡ s.seen
unfolding add_outcome
seen-add_outcome skip s = refl
seen-add_outcome (fault _) s = refl
seen-add_outcome (found _) s = refl

rdb_round-IsGood :
    (stream : Bytes) (size block_size m : ℕ) (s : Progress)
    → IsGood size m s
    → RoundIsGood size m s (rdb_round stream size block_size m s)
unfolding rdb_round
rdb_round-IsGood stream size bs m s g =
    let offset = s.pointer * bs in
    let block = slice stream offset (offset + bs) in
    elim (Bool-cases (is_member s.pointer s.seen)) [
      | inl old ↦
          rw old
            (record { inside = g.inside; few = g.few; bounded = g.bounded; distinct = g.distinct })
      | inr new ↦ elim (Bool-cases (leb m (length s.seen))) [
        | inl full ↦
            rw (new, full)
              (record {
                inside = g.inside;
                few = g.few;
                bounded = g.bounded;
                distinct = g.distinct;
              })
        | inr room ↦
            let below : length s.seen < m = leb→lt _ _ room in
            let marked : IsGood size m (record s { seen = s.pointer ∷ s.seen }) = record {
              inside = g.inside;
              few = omega (arith, g.few);
              bounded = below;
              distinct = (new, g.distinct);
            } in
            let out = part_outcome size bs block (length s.partitions) in
            let added = add_outcome-IsGood size m bs block out s refl new below g in
            rw (new, room)
              (if_both (RoundIsGood size m s) (ltb size offset || ltb (size - offset) bs)
                (record {
                  inside = marked.inside;
                  few = marked.few;
                  bounded = marked.bounded;
                  distinct = marked.distinct;
                })
                (if_both (RoundIsGood size m s)
                  (not (starts_with part block && valid_rdb_checksum block))
                  (record {
                    inside = marked.inside;
                    few = marked.few;
                    bounded = marked.bounded;
                    distinct = marked.distinct;
                  })
                  (
                    record {
                      inside = added.inside;
                      few = added.few;
                      bounded = added.bounded;
                      distinct = added.distinct;
                    },
                    ap length (seen-add_outcome out (record s { seen = s.pointer ∷ s.seen })),
                  )))
      ]
    ]

-- The loop ends from a state, and in a good one.
abbrev Ends : ℕ → Bytes → ℕ → ℕ → ℕ → Progress → Type 0
Ends fuel stream size bs m s =
    (t : Progress) × (rdb_loop fuel stream size bs m s ≡ some t) × IsGood size m t

rdb_loop_step :
    (fuel : ℕ) (stream : Bytes) (size bs m : ℕ) (s : Progress) (r : Round)
    → (s.pointer == end_of_list) ≡ false
    → rdb_round stream size bs m s ≡ r
    → RoundIsGood size m s r
    → ((t : Progress)
        → IsGood size m t
        → length t.seen ≡ suc (length s.seen)
        → Ends fuel stream size bs m t)
    → Ends (suc fuel) stream size bs m s
unfolding rdb_loop
rdb_loop_step fuel stream size bs m s (stop t) more e good later = (t, ground arith, good)
rdb_loop_step fuel stream size bs m s (go_on t) more e good later =
    let (u, runs, fine) = later t good.0 good.1 in (u, ground arith, fine)

-- With a round of fuel for each block that may yet be followed the loop ends, in a good state.
rdb_loop_lem :
    (fuel : ℕ) (stream : Bytes) (size block_size m : ℕ) (s : Progress)
    → IsGood size m s
    → m < fuel + length s.seen
    → Ends fuel stream size block_size m s
rdb_loop_lem zero stream size bs m s g enough = absurd (omega (arith, g.bounded))
rdb_loop_lem (suc fuel) stream size bs m s g enough = elim (Bool-cases (s.pointer == end_of_list)) [
  | inl done ↦ (s, (unfold rdb_loop in ground arith), g)
  | inr more ↦
      rdb_loop_step fuel stream size bs m s (rdb_round stream size bs m s) more refl
        (rdb_round-IsGood stream size bs m s g)
        (λ t good grown. rdb_loop_lem fuel stream size bs m t good (omega arith))
]

-- A table whose partitions lie inside the image, are at most as many as the server allows, and
-- share no byte unless the table lists an error.
pub record IsSound (size max_partitions : ℕ) (t : PartitionTable) : Type 0 where
  pub inside : All (IsInside size) t.partitions
  pub few : length t.partitions ≤ max_partitions
  pub apart : t.errors ≡ [] → Disjoint t.partitions

errors_empty : (xs ys : List TableError) → xs ++ ys ≡ [] → ys ≡ []
errors_empty [] ys h = h
errors_empty (x ∷ xs) ys h = cc

rdb_table-IsSound :
    (rdb_index bs size m : ℕ) (s : Progress)
    → IsGood size m s
    → IsSound size m (rdb_table rdb_index bs s)
unfolding rdb_table
rdb_table-IsSound rdb_index bs size m s g = record {
  inside = g.inside;
  few = omega (arith, g.few, g.bounded);
  apart = λ clean.
      (mark_overlaps-Disjoint s.partitions).0
        (errors_empty s.errors (mark_overlaps s.partitions) clean);
}

-- The outcome of a parser: it ends, and a table that it returns is sound.
abbrev pub EndsSound : ℕ → ℕ → Option (Result PartitionTableError (Option PartitionTable)) → Type 0
EndsSound size m out =
    (r : Result PartitionTableError (Option PartitionTable)) × (out ≡ some r)
    × ((t : PartitionTable) → r ≡ ok (some t) → IsSound size m t)

finish_rdb-EndsSound :
    (at bs size m : ℕ) (s : Progress)
    → IsGood size m s
    → EndsSound size m (finish_rdb at bs (some s))
unfolding finish_rdb
finish_rdb-EndsSound at bs size m s g = (
  ok (some (rdb_table at bs s)),
  refl,
  λ t e. let same : rdb_table at bs s ≡ t = cc in rw same at (rdb_table-IsSound at bs size m s g),
)

read_rdb-EndsSound :
    (stream : Bytes) (size m : ℕ) (b : Bytes × ℕ) → EndsSound size m (read_rdb stream size m b)
unfolding read_rdb
read_rdb-EndsSound stream size m (rdb, at) =
    let bs = be32 rdb 16 in
    let (s, runs, good) =
      rdb_loop_lem (m + 2) stream size bs m (rdb_start rdb)
        (record { inside = tt; few = omega arith; bounded = omega arith; distinct = tt })
        (omega arith) in
    if_both (EndsSound size m) (not (valid_rdb_checksum rdb))
      (err invalid_rdb_checksum, refl, λ t e. cc)
      (if_both (EndsSound size m) (is_bad_block_size bs)
        (err invalid_rdb_block_size, refl, λ t e. cc)
        (rw runs (finish_rdb-EndsSound at bs size m s good)))

-- On every file the parse of an RDB ends within its fuel, whatever its pointers; and of a table
-- that it returns, each partition lies inside the image, there are at most `max_partitions`, and if
-- the table has no errors, no two of them share a byte.
pub parse_rdb-EndsSound :
    (stream : Bytes) (size max_partitions : ℕ)
    → EndsSound size max_partitions (parse_rdb stream size max_partitions)
unfolding parse_rdb
parse_rdb-EndsSound stream size m = elim (Option-cases (find_rdb (min 16 (size / 512)) 0 stream)) [
  | inl absent ↦ rw (absent, parse_rdb) (ok none, refl, λ t e. cc)
  | inr (b, present) ↦ rw (present, parse_rdb) (read_rdb-EndsSound stream size m b)
]
