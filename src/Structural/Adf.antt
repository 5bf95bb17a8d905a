-- ===== src/Structural/Adf.antt =====
-- `_adf` of src/avbox/analyzers/structural.py: the checks on an Amiga floppy image.
pub mod Entries
pub mod Tree
pub mod Walked
pub mod Sound
use avbox.Prelude.{
  str_eq, eq_iff, str_append, ℕ, zero, suc, ◌+◌, ◌-◌, ◌*◌, ◌/◌, ◌%◌, ◌^◌, ◌≤◌, ◌<◌, min, max,
  String, ◌≡◌, refl, sym, ap, ◌∙◌, fun_ext, ◌≢◌, ◌↔◌, ◌⊎◌, inl, inr, Bool, true, false, not, ◌&&◌,
  ◌||◌, Option, none, some, List, [], ◌∷◌, ◌++◌, map, arith, ltb, leb, ◌==◌, if◌then◌else◌, ltb→lt,
  ltb→le, leb→le, leb→lt, lt→ltb, le→leb, ==→eq, eq→==, ne→==, tests, Bool-cases, Option-cases,
  and_true, or_false, if_both, length, get_or, take, drop, replicate, All, any, all, select,
  length-append, append-nil, append_assoc, take-append-drop, length-take, length-drop,
  length-replicate, take-all, drop-nil, take-nil, drop-drop, take-append-take, All-append, All-take,
  length-map, is_member, Result, ok, err, raise_if, Result-cases,
}
use avbox.Prelude.Bytes.{Bytes, byte, slice, be32}
use avbox.Prelude.Fueled.{Fueled, done, raised, out_of_fuel, ◌>>=◌, ◌>>◌, of_result, raise_when}
use avbox.DiskImages.Types.{
  DiskImageError, block_outside, cyclic_block_list, invalid_ofs_block, truncated_adf_file,
  cyclic_hash_chain, invalid_entry_header, node_limit, cluster_outside, fat_entry_outside,
  cyclic_cluster_chain, truncated_fat_file, Filesystem, ofs, ffs,
}
use avbox.DiskImages.Adf.{image_size, blocks, root_key, block, valid_checksum, fs_of}
use avbox.Structural.Types.{
  StructuralState, truncated, non_standard, Finding, adf_image_truncated, adf_non_standard_size,
  bootblock_checksum_mismatch, rootblock_checksum_mismatch, adf_block_reference_out_of_range,
  adf_bitmap_checksum_mismatch, adf_chain_loop, adf_data_chain_truncated,
  adf_block_structure_invalid, named, flag, dos, absent, Observation, StructuralValidation,
}
use avbox.Structural.Results.{result, state_of}
use avbox.Structural.Adf.Entries.{block_checksum, Walk, walk_adf}

-- One word is added, with the carry.
abbrev pub add_carry : ℕ → ℕ → ℕ
add_carry total value =
    let next = (total + value) % 2 ^ 32 in if ltb next total then (next + 1) % 2 ^ 32 else next

unfoldable pub boot_sum : ℕ → ℕ → Bytes → ℕ
boot_sum zero total block_bytes = total
boot_sum (suc n) total block_bytes =
    boot_sum n (add_carry total (be32 block_bytes 0)) (drop 4 block_bytes)

-- `_amiga_boot_checksum`
unfoldable pub amiga_boot_checksum : Bytes → Bool
unfolding boot_sum
amiga_boot_checksum block_bytes =
    length block_bytes == 1024 && boot_sum 256 0 block_bytes == 0xFFFFFFFF

-- What is appended for an error, by the words in its message.
unfoldable pub finding_of : DiskImageError → Finding
finding_of cyclic_block_list = adf_chain_loop
finding_of cyclic_hash_chain = adf_chain_loop
finding_of cyclic_cluster_chain = adf_chain_loop
finding_of block_outside = adf_block_reference_out_of_range
finding_of cluster_outside = adf_block_reference_out_of_range
finding_of fat_entry_outside = adf_block_reference_out_of_range
finding_of truncated_adf_file = adf_data_chain_truncated
finding_of truncated_fat_file = adf_data_chain_truncated
finding_of _ = adf_block_structure_invalid

unfoldable pub reference_findings : Fueled DiskImageError Walk → Option (List Finding)
unfolding finding_of
reference_findings (done w) = some []
reference_findings (raised e) = some (finding_of e ∷ [])
reference_findings out_of_fuel = none

-- A block of the bitmap.
unfoldable pub bitmap_finding : Bytes → ℕ → List Finding
bitmap_finding file key =
    if leb blocks key
    then adf_block_reference_out_of_range ∷ []
    else if not (block_checksum (slice file (key * 512) ((key + 1) * 512)))
    then adf_bitmap_checksum_mismatch ∷ []
    else []

-- The loop over the bitmap's blocks, with `n` places left from `pos` on.
unfoldable pub bitmap_findings : Bytes → Bytes → ℕ → ℕ → List Finding
unfolding bitmap_finding
bitmap_findings file root zero pos = []
bitmap_findings file root (suc n) pos =
    let rest = bitmap_findings file root n (pos + 4) in
    (if be32 root pos == 0 then [] else bitmap_finding file (be32 root pos)) ++ rest

abbrev pub finding_unless : Bool → Finding → List Finding
finding_unless c f = if c then [] else f ∷ []

-- The name of a variant, by the fourth byte.
unfoldable pub variant_name : ℕ → Option String
variant_name n =
    if n == 0
    then some "OFS"
    else if n == 1
    then some "FFS"
    else if n == 2
    then some "OFS_INTL"
    else if n == 3
    then some "FFS_INTL"
    else if n == 4
    then some "OFS_DIRCACHE"
    else if n == 5
    then some "FFS_DIRCACHE"
    else none

unfoldable pub variant_text : Bytes → Option String
unfolding variant_name
variant_text file = if leb (length file) 3 then none else variant_name (byte file 3)

-- `boot_valid`
unfoldable pub is_boot_valid : Bytes → Bool
unfolding amiga_boot_checksum
is_boot_valid file = leb 1024 (length file) && amiga_boot_checksum (slice file 0 1024)

-- `root_valid`
unfoldable pub is_root_valid : Bytes → Bool
is_root_valid root = be32 root 0 == 2 && (be32 root 508 == 1 && block_checksum root)

abbrev pub is_null {ℓ} : {A : Type ℓ} → List A → Bool
is_null [] = true
is_null (x ∷ xs) = false

unfoldable pub size_findings : Bytes → List Finding
size_findings file =
    if length file == image_size
    then []
    else if ltb (length file) image_size
    then adf_image_truncated ∷ []
    else adf_non_standard_size ∷ []

abbrev pub root_of : Bytes → Bytes
root_of file = slice file (root_key * 512) ((root_key + 1) * 512)

unfoldable pub boot_findings : Bytes → List Finding
boot_findings file =
    size_findings file ++ finding_unless (is_boot_valid file) bootblock_checksum_mismatch

unfoldable pub boot_observations : Bytes → List Observation
boot_observations file =
    (named "ADF_SIZE_VALID", flag (length file == image_size))
    ∷ (named "ADF_DOSTYPE", if leb (length file) 3 then absent else dos (byte file 3))
    ∷ (named "ADF_BOOTBLOCK_CHECKSUM_VALID", flag (is_boot_valid file))
    ∷ []

-- `_adf` after the walk, with what it has found.
unfoldable pub adf_result : String → Bytes → List Finding → StructuralValidation
adf_result sha256 file references =
    let root = root_of file in
    let bitmap = bitmap_findings file root 24 316 in
    let findings =
      boot_findings file
      ++ finding_unless (is_root_valid root) rootblock_checksum_mismatch
      ++ bitmap
      ++ references in
    result sha256 "ADF" (variant_text file) (state_of findings)
      (boot_observations file
        ++ ((named "ADF_ROOTBLOCK_CHECKSUM_VALID", flag (is_root_valid root))
            ∷ (named "ADF_BITMAP_VALID", flag (is_null bitmap))
            ∷ (named "ADF_BLOCK_REFERENCE_VALID", flag (is_null references))
            ∷ []))
      findings "COMPLETE"

-- `not size_valid or variant not in {"OFS", "FFS"}`
abbrev pub is_foreign : Bytes → Bool
is_foreign file = not (length file == image_size) || not (byte file 3 == 0 || byte file 3 == 1)

-- `_adf` where the size or the variant is another.
unfoldable pub foreign_result : String → Bytes → StructuralValidation
foreign_result sha256 file =
    result sha256 "ADF" (variant_text file)
      (if ltb (length file) image_size then truncated else non_standard) (boot_observations file)
      (boot_findings file) "COMPLETE"

-- `_adf`; `none` means that the fuel ran out.
unfoldable pub validate_adf : ℕ → String → Bytes → Option StructuralValidation
unfolding adf_result foreign_result
validate_adf max_nodes sha256 file =
    if is_foreign file
    then some (foreign_result sha256 file)
    else elim (reference_findings (walk_adf max_nodes file (fs_of file))) [
      | none ↦ none
      | some references ↦ some (adf_result sha256 file references)
    ]
