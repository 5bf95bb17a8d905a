-- ===== src/DiskImages/Fat.antt =====
-- `_parse_fat` of src/avbox/analyzers/disk_images.py: the geometry of a FAT image and its cluster
-- chains.
pub mod Linked
pub mod Chains
pub mod Tree
use avbox.Prelude.{
  str_eq, eq_iff, str_append, ℕ, zero, suc, ◌+◌, ◌-◌, ◌*◌, ◌/◌, ◌%◌, ◌^◌, ◌≤◌, ◌<◌, min, max,
  String, ◌≡◌, refl, sym, ap, ◌∙◌, fun_ext, ◌≢◌, ◌↔◌, ◌⊎◌, inl, inr, Bool, true, false, not, ◌&&◌,
  ◌||◌, Option, none, some, List, [], ◌∷◌, ◌++◌, map, arith, ltb, leb, ◌==◌, if◌then◌else◌, ltb→lt,
  ltb→le, leb→le, leb→lt, lt→ltb, le→leb, ==→eq, eq→==, ne→==, tests, Bool-cases, Option-cases,
  and_true, or_false, if_both, length, get_or, take, drop, replicate, All, any, all, select,
  length-append, append-nil, append_assoc, take-append-drop, length-take, length-drop,
  length-replicate, take-all, drop-nil, take-nil, drop-drop, take-append-take, All-append, All-take,
  length-map, is_member, Result, ok, err, raise_if, Result-cases,
}
use Prim.Native.Nat.{bit_and}
use avbox.Prelude.Bytes.{Bytes, byte, slice, le16, le32}
use avbox.Prelude.Fueled.{Fueled, done, raised, out_of_fuel, ◌>>=◌, ◌>>◌, of_result, raise_when}
use avbox.DiskImages.Types.{
  DiskImageError, fat_entry_outside, invalid_cluster_chain, cluster_outside, missing_cluster,
  cyclic_cluster_chain, truncated_fat_file, Filesystem, fat12, fat16, fat32,
}

-- The local variables of `_parse_fat` that the checks leave.
pub record Geometry : Type 0 where
  pub bps : ℕ
  pub spc : ℕ
  pub reserved : ℕ
  pub fats : ℕ
  pub root_entries : ℕ
  pub total : ℕ
  pub fat_size : ℕ
  pub root_sectors : ℕ
  pub first_data : ℕ
  pub clusters : ℕ
  pub variant : Filesystem

-- `a or b` of two numbers.
abbrev pub or_else : ℕ → ℕ → ℕ
or_else a b = if a == 0 then b else a

-- "FAT12" if clusters < 4085 else "FAT16" if clusters < 65525 else "FAT32"
unfoldable pub variant_of : ℕ → Filesystem
variant_of clusters =
    if ltb clusters 4085 then fat12 else if ltb clusters 65525 then fat16 else fat32

abbrev pub is_fat32 : Filesystem → Bool
is_fat32 fat32 = true
is_fat32 _ = false

-- The checks on the fields of the boot sector.
unfoldable pub is_bad_boot : ℕ → ℕ → ℕ → ℕ → ℕ → ℕ → ℕ → Bool
is_bad_boot bps spc reserved fats total fat_size size =
    not (bps == 512 || bps == 1024 || bps == 2048 || bps == 4096)
    || (spc == 0
        || (not (bit_and spc (spc - 1) == 0)
            || (reserved == 0
                || (not (fats == 1 || fats == 2)
                    || (total == 0 || (fat_size == 0 || ltb size (total * bps)))))))

-- The geometry that the fields give, where the data area is not empty.
unfoldable pub geometry_of : Bytes → ℕ → ℕ → ℕ → ℕ → ℕ → ℕ → ℕ → Option Geometry
unfolding variant_of
geometry_of data_bytes bps spc reserved fats root_entries total fat_size =
    let root_sectors = (root_entries * 32 + bps - 1) / bps in
    let first_data = reserved + fats * fat_size + root_sectors in
    let clusters = (total - first_data) / spc in
    let variant = variant_of clusters in
    if leb total first_data
    then none
    else if is_fat32 variant && (not (root_entries == 0) || ltb (le32 data_bytes 44) 2)
    then none
    else some (record {
      bps = bps;
      spc = spc;
      reserved = reserved;
      fats = fats;
      root_entries = root_entries;
      total = total;
      fat_size = fat_size;
      root_sectors = root_sectors;
      first_data = first_data;
      clusters = clusters;
      variant = variant;
    })

-- `_parse_fat` up to the geometry; `none` where it returns `None`.
unfoldable pub read_geometry : Bytes → Option Geometry
unfolding is_bad_boot geometry_of
read_geometry file =
    let bps = le16 file 11 in
    let spc = byte file 13 in
    let reserved = le16 file 14 in
    let fats = byte file 16 in
    let root_entries = le16 file 17 in
    let total = or_else (le16 file 19) (le32 file 32) in
    let fat_size = or_else (le16 file 22) (le32 file 36) in
    if ltb (length file) 512 || not (byte file 510 == 0x55 && byte file 511 == 0xAA)
    then none
    else if is_bad_boot bps spc reserved fats total fat_size (length file)
    then none
    else geometry_of file bps spc reserved fats root_entries total fat_size

-- `fat_bytes`
unfoldable pub fat_bytes : Geometry → Bytes → Bytes
fat_bytes g file = slice file (g.reserved * g.bps) (g.reserved * g.bps + g.fat_size * g.bps)

abbrev pub cluster_size : Geometry → ℕ
cluster_size g = g.spc * g.bps

-- A value of the FAT: the end of a chain, or the next cluster.
unfoldable pub follow : Geometry → ℕ → ℕ → Result DiskImageError (Option ℕ)
follow g end_mark value =
    if leb end_mark value
    then ok none
    else if ltb value 2 || leb (g.clusters + 2) value
    then err invalid_cluster_chain
    else ok (some value)

-- Twelve bits: the upper or the lower ones of two bytes.
abbrev pub nibbles : ℕ → ℕ → ℕ
nibbles cluster value = if cluster % 2 == 1 then value / 16 else value % 4096

-- `next_cluster`
unfoldable pub next_cluster : Geometry → Bytes → ℕ → Result DiskImageError (Option ℕ)
unfolding follow
next_cluster g fat cluster = elim g.variant [
  | fat12 ↦
      let p = cluster + cluster / 2 in
      if ltb (length fat) (p + 2)
      then err fat_entry_outside
      else follow g 0xFF8 (nibbles cluster (le16 fat p))
  | fat16 ↦
      let p = cluster * 2 in
      if ltb (length fat) (p + 2) then err fat_entry_outside else follow g 0xFFF8 (le16 fat p)
  | _ ↦
      let p = cluster * 4 in
      if ltb (length fat) (p + 4)
      then err fat_entry_outside
      else follow g 0x0FFFFFF8 (le32 fat p % 0x10000000)
]

-- Where the bytes of a cluster begin.
abbrev pub cluster_start : Geometry → ℕ → ℕ
cluster_start g cluster = (g.first_data + (cluster - 2) * g.spc) * g.bps

-- `cluster_data`
unfoldable pub cluster_data : Geometry → Bytes → ℕ → Result DiskImageError Bytes
cluster_data g file cluster =
    let end = cluster_start g cluster + cluster_size g in
    if ltb cluster 2 || ltb (length file) end
    then err cluster_outside
    else ok (slice file (cluster_start g cluster) end)

-- `wanted is not None and len(out) >= wanted`
abbrev pub is_enough : Option ℕ → ℕ → Bool
is_enough none n = false
is_enough (some wanted) n = leb wanted n

abbrev pub cut : Option ℕ → Bytes → Bytes
cut none out = out
cut (some wanted) out = take wanted out

-- The end of a chain.
unfoldable pub finish_chain : Option ℕ → Bytes → Result DiskImageError Bytes
finish_chain none out = ok out
finish_chain (some wanted) out =
    if ltb (length out) wanted then err truncated_fat_file else ok (take wanted out)

-- The loop of `chain`, from `current`; each round adds a cluster to `seen`.
unfoldable pub chain_loop :
    Geometry → Bytes → Option ℕ → ℕ → ℕ → List ℕ → Bytes → Fueled DiskImageError Bytes
chain_loop g file wanted zero current seen out = out_of_fuel
chain_loop g file wanted (suc fuel) current seen out = do
  raise_when (is_member current seen || ltb g.clusters (length seen)) cyclic_cluster_chain
  piece ← of_result (cluster_data g file current)
  if is_enough wanted (length (out ++ piece)) then done (cut wanted (out ++ piece)) else (do
    next ← of_result (next_cluster g (fat_bytes g file) current)
    elim next [
      | none ↦ of_result (finish_chain wanted (out ++ piece))
      | some cluster ↦ chain_loop g file wanted fuel cluster (current ∷ seen) (out ++ piece)
    ])

-- `if wanted: ...` for an optional number.
abbrev pub is_wanted : Option ℕ → Bool
is_wanted none = false
is_wanted (some wanted) = not (wanted == 0)

-- `chain`. A round more than there are clusters finds that the set is too large.
unfoldable pub chain : Geometry → Bytes → ℕ → Option ℕ → Fueled DiskImageError Bytes
chain g file start wanted =
    if ltb start 2
    then (if is_wanted wanted then raised missing_cluster else done [])
    else chain_loop g file wanted (g.clusters + 2) start [] []
