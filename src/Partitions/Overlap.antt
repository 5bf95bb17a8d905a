-- ===== src/Partitions/Overlap.antt =====
-- `_mark_overlaps` of src/avbox/analyzers/partitions.py, with Python's stable sort.
pub mod Disjoint
use avbox.Prelude.{
  ℕ, zero, suc, ◌+◌, ◌-◌, ◌*◌, ◌/◌, ◌%◌, ◌^◌, ◌≤◌, ◌<◌, min, max, String, ◌≡◌, refl, sym, ap, ◌∙◌,
  fun_ext, ◌≢◌, ◌↔◌, ◌⊎◌, inl, inr, Bool, true, false, not, ◌&&◌, ◌||◌, Option, none, some, List,
  [], ◌∷◌, ◌++◌, map, arith, ltb, leb, ◌==◌, if◌then◌else◌, ltb→lt, ltb→le, leb→le, leb→lt, lt→ltb,
  le→leb, ==→eq, eq→==, ne→==, tests, Bool-cases, Option-cases, and_true, or_false, length, get_or,
  take, drop, replicate, All, any, all, select, length-append, append-nil, append_assoc,
  take-append-drop, length-take, length-drop, length-replicate, take-all, drop-nil, take-nil,
  drop-drop, take-append-take, All-append, All-take, length-map, is_member, Result, ok, err, ◌>>=◌,
  ◌>>◌, raise_if, Result-cases,
}
use avbox.Partitions.Types.{Partition, TableError, overlapping}

-- The order of the sort's keys, `(item.start, item.length)`.
unfoldable pub key_le : Partition → Partition → Bool
key_le p q = ltb p.start q.start || (p.start == q.start && leb p.length q.length)

insert_sorted : Partition → List Partition → List Partition
insert_sorted p [] = p ∷ []
insert_sorted p (q ∷ qs) = if key_le p q then p ∷ q ∷ qs else q ∷ insert_sorted p qs

-- `sorted(partitions, key=...)`: equal keys keep their order.
unfoldable pub sort_partitions : List Partition → List Partition
unfolding insert_sorted
sort_partitions [] = []
sort_partitions (p ∷ ps) = insert_sorted p (sort_partitions ps)

-- The loop over `zip(ordered, ordered[1:])`.
unfoldable pub adjacent_overlaps : List Partition → List TableError
adjacent_overlaps [] = []
adjacent_overlaps (left ∷ []) = []
adjacent_overlaps (left ∷ right ∷ rest) =
    let others = adjacent_overlaps (right ∷ rest) in
    if ltb right.start (left.start + left.length)
    then overlapping left.index right.index ∷ others
    else others

-- The errors that are added.
unfoldable pub mark_overlaps : List Partition → List TableError
unfolding sort_partitions adjacent_overlaps
mark_overlaps ps = adjacent_overlaps (sort_partitions ps)
