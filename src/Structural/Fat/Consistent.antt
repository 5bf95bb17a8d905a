-- ===== src/Structural/Fat/Consistent.antt =====
-- `_fat` of src/avbox/analyzers/structural.py ends, and what the state VALID of a FAT image means.
use avbox.Prelude.{ℕ, ◌≡◌, ◌≢◌, ◌⊎◌, true, List}
use mathlib.Core.List.{Memᴰ}
use avbox.Prelude.Bytes.{Bytes}
use avbox.Prelude.Stops.{Stops}
use avbox.DiskImages.Fat.{Geometry, is_fat32}
use avbox.Structural.Fat.{fat_copy, are_copies_equal}
use avbox.Structural.Fat.Chain.{fat_value}
use avbox.Structural.Fat.Owned.{IsCluster, IsOwned}

-- The copies of the FAT are equal, and exactly the clusters on the chains of the entries and of the
-- root are marked as used in the FAT; in a FAT32 image cluster 2 may be so marked besides.
pub record IsConsistent (g : Geometry) (file : Bytes) : Type 0 where
  pub copies : are_copies_equal g file ≡ true
  pub owned :
      (c : ℕ)
      → IsCluster g file (fat_copy g file 0) c
      → fat_value g.variant (fat_copy g file 0) c ≢ 0
      → IsOwned g file (fat_copy g file 0) c ⊎ ((is_fat32 g.variant ≡ true) × (c ≡ 2))
  pub used :
      (c : ℕ)
      → IsOwned g file (fat_copy g file 0) c
      → IsCluster g file (fat_copy g file 0) c × (fat_value g.variant (fat_copy g file 0) c ≢ 0)
