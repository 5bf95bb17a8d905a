-- ===== src/Structural/Adf/Entries.antt =====
-- `_walk_adf` of src/avbox/analyzers/structural.py: the entries of a floppy image.
use avbox.Prelude.{
  ℕ, zero, suc, ◌+◌, ◌*◌, Bool, true, false, not, ◌&&◌, ◌||◌, List, [], ◌∷◌, ltb, leb, ◌==◌,
  if◌then◌else◌, length, is_member, Result, ok, err,
}
use avbox.Prelude.Bytes.{Bytes, be32}
use avbox.Prelude.Fueled.{Fueled, done, out_of_fuel, ◌>>=◌, ◌>>◌, of_result, raise_when}
use avbox.DiskImages.Types.{
  DiskImageError, cyclic_block_list, invalid_ofs_block, truncated_adf_file, cyclic_hash_chain,
  invalid_entry_header, node_limit, Filesystem, ofs,
}
use avbox.DiskImages.Adf.{blocks, root_key, block, valid_checksum}

-- `_block_checksum`
unfoldable pub block_checksum : Bytes → Bool
block_checksum value = length value == 512 && valid_checksum value

-- `seen` and `nodes`. The sets `chain` and `data_seen` are parts of `seen`.
pub record Walk : Type 0 where
  pub seen : List ℕ
  pub nodes : ℕ

-- How many bytes of a file a data block holds.
unfoldable pub data_size : Filesystem → ℕ → Bytes → Result DiskImageError ℕ
data_size ofs key payload =
    if not (be32 payload 0 == 8)
      || (not (be32 payload 4 == key)
          || (ltb 488 (be32 payload 12) || not (block_checksum payload)))
    then err invalid_ofs_block
    else ok (be32 payload 12)
data_size _ key payload = ok 512

unfoldable pub data_at : Bytes → Filesystem → ℕ → ℕ → Result DiskImageError ℕ
data_at file fs key pointer = elim (block file pointer) [
  | err e ↦ err e
  | ok payload ↦ data_size fs key payload
]

-- `total` and `seen`
pub record Held : Type 0 where
  pub total : ℕ
  pub seen : List ℕ

-- The loop over the pointers of a file's header, the last place first; `n` places are left.
unfoldable pub check_data :
    Bytes → Filesystem → ℕ → Bytes → ℕ → ℕ → List ℕ → Fueled DiskImageError Held
check_data file fs key header zero total seen = done (record { total = total; seen = seen })
check_data file fs key header (suc n) total seen =
    let pointer = be32 header (24 + 4 * n) in
    elim (pointer == 0) [
      | true ↦ check_data file fs key header n total seen
      | false ↦ (do
        raise_when (is_member pointer seen) cyclic_block_list
        count ← of_result (data_at file fs key pointer)
        elim (leb (be32 header 324) (total + count)) [
          | true ↦ done (record { total = total + count; seen = pointer ∷ seen })
          | false ↦ check_data file fs key header n (total + count) (pointer ∷ seen)
        ])
    ]

unfoldable pub check_file : Bytes → Filesystem → ℕ → Bytes → Walk → Fueled DiskImageError Walk
check_file file fs key header w = do
  held ← check_data file fs key header 72 0 w.seen
  raise_when (ltb held.total (be32 header 324)) truncated_adf_file
  done (record w { seen = held.seen })

-- `walk`, with `n` places left from `pos` on.
unfoldable pub check_table :
    (ℕ → Walk → Fueled DiskImageError Walk) → Bytes → ℕ → ℕ → Walk → Fueled DiskImageError Walk
check_table follow directory zero pos w = done w
check_table follow directory (suc n) pos w = do
  next ← follow (be32 directory pos) w
  check_table follow directory n (pos + 4) next

-- An entry: a directory (2), a file (-3), or what is not looked at.
unfoldable pub check_entry :
    (ℕ → Walk → Fueled DiskImageError Walk)
    → Bytes
    → Filesystem
    → ℕ
    → Bytes
    → Walk
    → Fueled DiskImageError Walk
check_entry follow file fs key header w =
    if be32 header 508 == 2
    then check_table follow header 72 24 w
    else if be32 header 508 == 0xFFFFFFFD
    then check_file file fs key header w
    else done w

-- The loop `while key`. Each round sees a block, so there are not more rounds, those for the
-- directories inside included, than blocks.
unfoldable pub check_chain : ℕ → Bytes → Filesystem → ℕ → ℕ → Walk → Fueled DiskImageError Walk
check_chain max_nodes file fs zero key w = out_of_fuel
check_chain max_nodes file fs (suc fuel) key w = if key == 0 then done w else (do
  raise_when (leb max_nodes w.nodes) node_limit
  raise_when (is_member key w.seen) cyclic_hash_chain
  header ← of_result (block file key)
  raise_when (not (be32 header 0 == 2) || not (block_checksum header)) invalid_entry_header
  next ←
      check_entry (check_chain max_nodes file fs fuel) file fs key header
        (record { seen = key ∷ w.seen; nodes = w.nodes + 1 })
  check_chain max_nodes file fs fuel (be32 header 496) next)

-- `_walk_adf`, on a file of 1760 blocks.
unfoldable pub walk_adf : ℕ → Bytes → Filesystem → Fueled DiskImageError Walk
walk_adf max_nodes file fs = do
  root ← of_result (block file root_key)
  check_table (check_chain max_nodes file fs (blocks + 2)) root 72 24
      (record { seen = root_key ∷ []; nodes = 0 })
