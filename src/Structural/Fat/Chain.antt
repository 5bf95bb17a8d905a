-- ===== src/Structural/Fat/Chain.antt =====
-- `_fat_chain` and `_fat_value` of src/avbox/analyzers/structural.py: the clusters of an entry.
use avbox.Prelude.{
  ℕ, zero, suc, ◌+◌, ◌*◌, ◌/◌, ◌%◌, Bool, true, false, not, ◌&&◌, ◌||◌, Option, none, some, List,
  [], ◌∷◌, ◌++◌, ltb, leb, ◌==◌, if◌then◌else◌, length, take, is_member,
}
use avbox.Prelude.Bytes.{Bytes, slice, le16, le32}
use avbox.Prelude.Fueled.{Fueled, done, out_of_fuel, ◌>>=◌}
use avbox.DiskImages.Types.{Text, Filesystem, fat12, fat16}
use avbox.DiskImages.Fat.{Geometry, nibbles, cluster_start, cluster_size}
use avbox.Structural.Types.{
  Finding, fat_cluster_chain_loop, fat_cluster_out_of_range, fat_crosslink_detected,
  fat_cluster_reference_invalid, fat_chain_limit, fat_file_chain_truncated,
}
use avbox.Structural.Iso.Directories.{IsoError}

-- `_fat_value`
unfoldable pub fat_value : Filesystem → Bytes → ℕ → ℕ
fat_value fat12 fat cluster =
    let pos = cluster + cluster / 2 in
    if ltb (length fat) (pos + 2) then 1 else nibbles cluster (le16 fat pos)
fat_value fat16 fat cluster =
    if ltb (length fat) (cluster * 2 + 2) then 1 else le16 fat (cluster * 2)
fat_value _ fat cluster =
    if ltb (length fat) (cluster * 4 + 4) then 1 else le32 fat (cluster * 4) % 0x10000000

-- Where a chain ends.
abbrev pub end_mark : Filesystem → ℕ
end_mark fat12 = 0xFF8
end_mark fat16 = 0xFFF8
end_mark _ = 0x0FFFFFF8

-- `used`, the last owner first, `reachable`, `findings` and `dirs`.
pub record Track : Type 0 where
  pub used : List (ℕ × Text)
  pub reachable : List ℕ
  pub findings : List Finding
  pub dirs : List ℕ

abbrev pub note_track : Finding → Track → Track
note_track f t = record t { findings = t.findings ++ (f ∷ []) }

unfoldable pub bytes_eq : List ℕ → List ℕ → Bool
bytes_eq [] [] = true
bytes_eq (x ∷ xs) (y ∷ ys) = x == y && bytes_eq xs ys
bytes_eq _ _ = false

-- `current in used and used[current] != owner`
unfoldable pub is_crosslinked : ℕ → Text → List (ℕ × Text) → Bool
unfolding bytes_eq
is_crosslinked current owner [] = false
is_crosslinked current owner (u ∷ us) =
    let rest = is_crosslinked current owner us in
    if u.0 == current then not (bytes_eq u.1 owner) else rest

-- A round of a chain: it ends the chain, or goes on at a cluster.
pub data ChainStep : Type 0 where
  leave : Bytes → Track → ChainStep
  next : ℕ → Bytes → Track → ChainStep

-- What follows the cluster `current`, which has been added.
unfoldable pub follow_value : ℕ → Geometry → ℕ → ℕ → Bytes → Track → ChainStep
follow_value max_nodes g value count out t =
    if leb (end_mark g.variant) value
    then leave out t
    else if ltb value 2 || leb (g.clusters + 2) value
    then leave out (note_track fat_cluster_reference_invalid t)
    else if ltb max_nodes count
    then leave out (note_track fat_chain_limit t)
    else next value out t

unfoldable pub chain_step :
    ℕ → Geometry → Bytes → Bytes → Text → ℕ → List ℕ → Bytes → Track → ChainStep
unfolding is_crosslinked follow_value fat_value
chain_step max_nodes g file fat owner current seen out t =
    let at = cluster_start g current in
    if ltb current 2
    then leave out t
    else if is_member current seen
    then leave out (note_track fat_cluster_chain_loop t)
    else if leb (g.clusters + 2) current
    then leave out (note_track fat_cluster_out_of_range t)
    else if is_crosslinked current owner t.used
    then leave out (note_track fat_crosslink_detected t)
    else follow_value max_nodes g (fat_value g.variant fat current) (length seen + 1)
        (out ++ slice file at (at + cluster_size g))
        (record t { used = (current, owner) ∷ t.used; reachable = current ∷ t.reachable })

-- The loop of `_fat_chain`. Each round sees another cluster.
unfoldable pub chain_from :
    ℕ
    → Geometry
    → Bytes
    → Bytes
    → Text
    → ℕ
    → ℕ
    → List ℕ
    → Bytes
    → Track
    → Fueled IsoError (Bytes × Track)
chain_from max_nodes g file fat owner zero current seen out t = out_of_fuel
chain_from max_nodes g file fat owner (suc fuel) current seen out t =
    elim (chain_step max_nodes g file fat owner current seen out t) [
      | leave out1 t1 ↦ done (out1, t1)
      | next value out1 t1 ↦
          chain_from max_nodes g file fat owner fuel value (current ∷ seen) out1 t1
    ]

-- The end of `_fat_chain`.
unfoldable pub cut_chain : Option ℕ → Bytes × Track → Bytes × Track
cut_chain none r = r
cut_chain (some wanted) (out, t) =
    (take wanted out, if ltb (length out) wanted then note_track fat_file_chain_truncated t else t)

-- `_fat_chain`
unfoldable pub fat_chain :
    ℕ → Geometry → Bytes → Bytes → Text → ℕ → Option ℕ → Track → Fueled IsoError (Bytes × Track)
unfolding cut_chain
fat_chain max_nodes g file fat owner start wanted t = do
  r ← chain_from max_nodes g file fat owner (suc (g.clusters + 2)) start [] [] t
  done (cut_chain wanted r)
