-- ===== src/Structural/Fat.antt =====
-- `_fat` of src/avbox/analyzers/structural.py: the checks on a FAT image.
pub mod Chain
pub mod Directory
pub mod Owned
pub mod Chains
pub mod Directories
pub mod Consistent
use avbox.Prelude.{
  str_eq, eq_iff, str_append, ℕ, zero, suc, ◌+◌, ◌-◌, ◌*◌, ◌/◌, ◌%◌, ◌^◌, ◌≤◌, ◌<◌, min, max,
  String, ◌≡◌, refl, sym, ap, ◌∙◌, fun_ext, ◌≢◌, ◌↔◌, ◌⊎◌, inl, inr, Bool, true, false, not, ◌&&◌,
  ◌||◌, Option, none, some, List, [], ◌∷◌, ◌++◌, map, arith, ltb, leb, ◌==◌, if◌then◌else◌, ltb→lt,
  ltb→le, leb→le, leb→lt, lt→ltb, le→leb, ==→eq, eq→==, ne→==, tests, Bool-cases, Option-cases,
  and_true, or_false, if_both, length, get_or, take, drop, replicate, All, any, all, select,
  length-append, append-nil, append_assoc, take-append-drop, length-take, length-drop,
  length-replicate, take-all, drop-nil, take-nil, drop-drop, take-append-take, All-append, All-take,
  length-map, is_member, Result, ok, err, raise_if, Result-cases,
}
use Prim.Native.Nat.{bit_and}
use avbox.Prelude.Bytes.{Bytes, byte, slice, le16, le32}
use avbox.Prelude.Fueled.{Fueled, done, out_of_fuel, ◌>>=◌}
use avbox.DiskImages.Types.{Text, Codecs, Filesystem, fat12, fat16, fat32}
use avbox.DiskImages.Fat.{
  Geometry, or_else, variant_of, is_fat32, nibbles, cluster_start, cluster_size,
}
use avbox.DiskImages.Fat.Tree.{rows, is_skipped, start_of, has_bit}
use avbox.Structural.Types.{
  StructuralState, truncated, corrupt, Finding, fat_bpb_inconsistent, fat_copies_mismatch,
  fat_cluster_chain_loop, fat_cluster_out_of_range, fat_crosslink_detected,
  fat_cluster_reference_invalid, fat_chain_limit, fat_file_chain_truncated, fat_directory_loop,
  fat_orphan_clusters_present, adf_chain_loop, adf_data_chain_truncated, named, flag, number, text,
  Observation, StructuralValidation,
}
use avbox.Structural.Results.{result, state_of}
use avbox.Structural.Iso.Directories.{IsoError}
use avbox.Structural.Fat.Chain.{fat_value, Track, bytes_eq, fat_chain}
use avbox.Structural.Fat.Directory.{fat_directory}

-- The first lines of `_fat`.
unfoldable pub read_bpb : Bytes → Geometry
read_bpb file =
    let bps = le16 file 11 in
    let spc = byte file 13 in
    let reserved = le16 file 14 in
    let copies = byte file 16 in
    let roots = le16 file 17 in
    let total = or_else (le16 file 19) (le32 file 32) in
    let fat_size = or_else (le16 file 22) (le32 file 36) in
    let root_sectors = if bps == 0 then 0 else (roots * 32 + bps - 1) / bps in
    let first_data = reserved + copies * fat_size + root_sectors in
    let clusters =
      if not (spc == 0) && leb first_data total then (total - first_data) / spc else 0 in
    record {
      bps = bps;
      spc = spc;
      reserved = reserved;
      fats = copies;
      root_entries = roots;
      total = total;
      fat_size = fat_size;
      root_sectors = root_sectors;
      first_data = first_data;
      clusters = clusters;
      variant = variant_of clusters;
    }

-- `bpb_valid`
unfoldable pub is_bpb_valid : Geometry → Bytes → Bool
is_bpb_valid g file =
    (g.bps == 512 || g.bps == 1024 || g.bps == 2048 || g.bps == 4096)
    && (ltb 0 g.spc
        && (bit_and g.spc (g.spc - 1) == 0
            && (ltb 0 g.reserved
                && ((g.fats == 1 || g.fats == 2)
                    && (ltb g.first_data g.total
                        && (leb (g.total * g.bps) (length file) && ltb 0 g.fat_size))))))

-- The copy `i` of the FAT.
abbrev pub fat_copy : Geometry → Bytes → ℕ → Bytes
fat_copy g file i =
    slice file ((g.reserved + i * g.fat_size) * g.bps) ((g.reserved + (i + 1) * g.fat_size) * g.bps)

-- `orphans`, of the `n` clusters from `c` on.
unfoldable pub orphans : Geometry → Bytes → List ℕ → ℕ → ℕ → List ℕ
orphans g fat reachable zero c = []
orphans g fat reachable (suc n) c =
    let rest = orphans g fat reachable n (c + 1) in
    if fat_value g.variant fat c == 0 || (is_member c reachable || (is_fat32 g.variant && c == 2))
    then rest
    else c ∷ rest

-- `"CHAIN" in f or "CLUSTER" in f`
unfoldable pub mentions_chain : Finding → Bool
mentions_chain fat_cluster_chain_loop = true
mentions_chain fat_cluster_out_of_range = true
mentions_chain fat_cluster_reference_invalid = true
mentions_chain fat_chain_limit = true
mentions_chain fat_file_chain_truncated = true
mentions_chain fat_orphan_clusters_present = true
mentions_chain adf_chain_loop = true
mentions_chain adf_data_chain_truncated = true
mentions_chain _ = false

abbrev pub fat_name : Filesystem → String
fat_name fat12 = "FAT12"
fat_name fat16 = "FAT16"
fat_name _ = "FAT32"

-- "<root>"
abbrev pub root_owner : Text
root_owner = 60 ∷ 114 ∷ 111 ∷ 111 ∷ 116 ∷ 62 ∷ []

-- The root directory.
unfoldable pub fat_root : ℕ → Geometry → Bytes → Bytes → Track → Fueled IsoError (Bytes × Track)
fat_root max_nodes g file fat t =
    let start = (g.reserved + g.fats * g.fat_size) * g.bps in
    if is_fat32 g.variant
    then fat_chain max_nodes g file fat root_owner (le32 file 44) none t
    else done (slice file start (start + g.root_sectors * g.bps), t)

-- `copies_valid`
abbrev pub are_copies_equal : Geometry → Bytes → Bool
are_copies_equal g file = ltb g.fats 2 || bytes_eq (fat_copy g file 0) (fat_copy g file 1)

unfoldable pub fat_start : Geometry → Bytes → Track
fat_start g file = record {
  used = [];
  reachable = [];
  findings = if are_copies_equal g file then [] else fat_copies_mismatch ∷ [];
  dirs = [];
}

unfoldable pub fat_observations : Geometry → Bool → List Observation
fat_observations g valid_bpb =
    (named "FAT_BPB_VALID", flag valid_bpb) ∷ (named "FAT_VARIANT", text (fat_name g.variant)) ∷ []

-- The end of `_fat`.
unfoldable pub fat_result : String → Geometry → Bytes → Track → StructuralValidation
fat_result sha256 g file t =
    let lost = orphans g (fat_copy g file 0) t.reachable g.clusters 2 in
    let findings =
      t.findings ++ (if length lost == 0 then [] else fat_orphan_clusters_present ∷ []) in
    result sha256 "FAT" (some (fat_name g.variant)) (state_of findings)
      (fat_observations g true
        ++ ((named "FAT_COPIES_CONSISTENT", flag (are_copies_equal g file))
            ∷ (named "FAT_CHAIN_VALID", flag (not (any mentions_chain t.findings)))
            ∷ (named "FAT_ORPHAN_CLUSTERS", number (length lost))
            ∷ []))
      findings "COMPLETE"

-- `_fat` where the fields of the boot sector do not fit.
unfoldable pub bpb_result : String → Geometry → Bytes → StructuralValidation
bpb_result sha256 g file =
    result sha256 "FAT" (some (fat_name g.variant))
      (if ltb (length file) (g.total * max g.bps 1) then truncated else corrupt)
      (fat_observations g false) (fat_bpb_inconsistent ∷ []) "COMPLETE"

-- `_fat`
unfoldable pub validate_fat : Codecs → ℕ → String → Bytes → Fueled IsoError StructuralValidation
unfolding bpb_result fat_result
validate_fat codecs max_nodes sha256 file =
    let g = read_bpb file in
    let fat = fat_copy g file 0 in
    if is_bpb_valid g file
    then (do
      r ← fat_root max_nodes g file fat (fat_start g file)
      t ← fat_directory codecs max_nodes g file fat (g.clusters + 4) r.0 [] r.1
      done (fat_result sha256 g file t))
    else done (bpb_result sha256 g file)
