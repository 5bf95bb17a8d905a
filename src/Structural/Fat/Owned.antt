-- ===== src/Structural/Fat/Owned.antt =====
-- The cluster chains and the directory entries of a FAT image, and the clusters that belong to them.
use avbox.Prelude.{ℕ, ◌+◌, ◌-◌, ◌*◌, ◌≤◌, ◌<◌, ◌≡◌, ◌≢◌, true, false, List, [], ◌∷◌, ◌++◌, length}
use mathlib.Core.List.{Memᴰ}
use avbox.Prelude.Bytes.{Bytes, byte, slice, le16, le32}
use avbox.DiskImages.Fat.{Geometry, is_fat32}
use avbox.DiskImages.Fat.Tree.{has_bit}
use avbox.Structural.Fat.Chain.{fat_value, end_mark}

module _ (g : Geometry) (file fat : Bytes) where
  -- A cluster that there is, beyond the two that the FAT reserves.
  abbrev pub IsCluster : ℕ → Type 0
  IsCluster c = (2 ≤ c) × (c < g.clusters + 2)

  -- The bytes of a cluster, and of clusters in their order.
  abbrev pub bytes_at : ℕ → Bytes
  bytes_at c =
      slice file ((g.first_data + (c - 2) * g.spc) * g.bps)
        ((g.first_data + (c - 2) * g.spc) * g.bps + g.spc * g.bps)

  abbrev pub read_chain : List ℕ → Bytes
  read_chain [] = []
  read_chain (c ∷ cs) = bytes_at c ++ read_chain cs

  -- The whole chain from a cluster on: the FAT leads from each of its clusters to the next one, and
  -- has the mark of the end at the last one. There is none from cluster 0 or 1.
  pub data IsChain : ℕ → List ℕ → Type 0 where
    nothing : {c : ℕ} → c < 2 → IsChain c []
    final :
        {c : ℕ} → IsCluster c → end_mark g.variant ≤ fat_value g.variant fat c → IsChain c (c ∷ [])
    further :
        {c : ℕ} {cs : List ℕ}
        → IsCluster c
        → 2 ≤ fat_value g.variant fat c
        → IsChain (fat_value g.variant fat c) cs
        → IsChain c (c ∷ cs)

  -- A row of a directory that is in use and no label.
  pub record IsEntry (d row : Bytes) : Type 0 where
    pub place : ℕ
    pub row_at : row ≡ slice d (32 * place) (32 * place + 32)
    pub whole : 32 * place + 32 ≤ length d
    pub used : (byte row 0 ≢ 0) × (byte row 0 ≢ 0xE5)
    pub no_label : has_bit (byte row 11) 8 ≡ false

  -- The first cluster of an entry.
  abbrev pub first_of : Bytes → ℕ
  first_of row = le16 row 26 + 65536 * le16 row 20

  -- The directories: the root, which is a chain in a FAT32 image and stands behind the copies of the
  -- FAT in the others, and the chains of the entries with the mark of a directory.
  pub data IsDirectory : Bytes → Type 0 where
    root_area :
        is_fat32 g.variant ≡ false
        → IsDirectory (
            slice file
              ((g.reserved + g.fats * g.fat_size) * g.bps)
              ((g.reserved + g.fats * g.fat_size) * g.bps + g.root_sectors * g.bps))
    root_chain :
        {cs : List ℕ}
        → is_fat32 g.variant ≡ true
        → IsChain (le32 file 44) cs
        → IsDirectory (read_chain cs)
    inner :
        {d row : Bytes} {cs : List ℕ}
        → IsDirectory d
        → IsEntry d row
        → has_bit (byte row 11) 16 ≡ true
        → IsChain (first_of row) cs
        → IsDirectory (read_chain cs)

  -- What a chain begins with: an entry, or the root of a FAT32 image.
  pub data IsStart : ℕ → Type 0 where
    of_root : is_fat32 g.variant ≡ true → IsStart (le32 file 44)
    of_entry : {d row : Bytes} → IsDirectory d → IsEntry d row → IsStart (first_of row)

  -- A cluster on the chain of an entry or of the root.
  abbrev pub IsOwned : ℕ → Type 0
  IsOwned c = (start : ℕ) × IsStart start × ((cs : List ℕ) × IsChain start cs × Memᴰ c cs)
