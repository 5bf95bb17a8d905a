-- ===== src/Tests/DiskImages.antt =====
-- src/avbox/analyzers/disk_images.py on small images.
use avbox.Prelude.{
  ◌≤◌, ◌<◌, ◌≡◌, refl, ◌⊎◌, Option, none, some, [], ◌∷◌, ◌++◌, length, replicate, All, is_member,
}
use avbox.Prelude.Bytes.{Bytes, slice, le16}
use avbox.Prelude.Fueled.{done, raised, Ends, of_result, raise_when, ◌>>=◌, ◌>>◌}
use avbox.DiskImages.Types.{cyclic_cluster_chain, DiskEntry, DiskImage, Codecs, fat16}
use avbox.DiskImages.Fat.{
  Geometry, fat_bytes, follow, next_cluster, cluster_data, chain_loop, chain,
}
use avbox.DiskImages.Fat.Chains.{chain-Ends}
use avbox.DiskImages.Fat.Linked.{IsSized, IsRead}
use avbox.DiskImages.Fat.Tree.{parse_fat}
use avbox.DiskImages.Fat.Tree.Walks.{Numbered, parse_fat-Ends}
use avbox.DiskImages.Adf.{parse_adf}
use avbox.DiskImages.Adf.Walks.{IsListing, parse_adf-Ends}

abbrev pub codecs : Codecs
codecs = record {
  cp437 = λ b. b;
  utf_16le = λ b. b;
  ascii = λ b. b;
  rstrip = λ t. t;
  strip = λ t. t;
}

-- Sectors of four bytes: one reserved, two of a 16-bit FAT, and three clusters. Cluster 2 leads to 4,
-- cluster 4 ends, and cluster 3 leads to itself.
abbrev pub small : Geometry
small = record {
  bps = 4;
  spc = 1;
  reserved = 1;
  fats = 1;
  root_entries = 0;
  total = 7;
  fat_size = 3;
  root_sectors = 0;
  first_data = 4;
  clusters = 3;
  variant = fat16;
}

abbrev pub image : Bytes
image =
    0 ∷ 0 ∷ 0 ∷ 0 ∷ 0 ∷ 0 ∷ 0 ∷ 0 ∷ 4 ∷ 0 ∷ 3 ∷ 0 ∷ 0xFF ∷ 0xFF ∷ 0 ∷ 0 ∷ 1 ∷ 2 ∷ 3 ∷ 4 ∷ 5 ∷ 6 ∷ 7
    ∷ 8 ∷ 9 ∷ 10 ∷ 11 ∷ 12 ∷ []

chain-image : chain small image 2 (some 6) ≡ done (1 ∷ 2 ∷ 3 ∷ 4 ∷ 9 ∷ 10 ∷ [])
unfolding chain chain_loop of_result raise_when ◌>>=◌ ◌>>◌ is_member cluster_data next_cluster
    follow fat_bytes slice le16
chain-image = refl

chain_cycle : chain small image 3 none ≡ raised cyclic_cluster_chain
unfolding chain chain_loop of_result raise_when ◌>>=◌ ◌>>◌ is_member cluster_data next_cluster
    follow fat_bytes slice le16
chain_cycle = refl

chain-Ends_example :
    Ends
      (λ out. ((2 < 2) × (out ≡ []) × IsSized (some 6) out) ⊎ IsRead small image 2 (some 6) out)
      (chain small image 2 (some 6))
chain-Ends_example = chain-Ends small image (some 6) 2

-- A boot sector: sectors of 512 bytes, one reserved, one FAT of one sector, 16 root entries, four
-- sectors in all.
abbrev boot : Bytes
boot =
    replicate 11 0
    ++ (0 ∷ 2 ∷ 1 ∷ 1 ∷ 0 ∷ 1 ∷ 16 ∷ 0 ∷ 4 ∷ 0 ∷ 0xF0 ∷ 1 ∷ 0 ∷ [])
    ++ replicate 486 0
    ++ (0x55 ∷ 0xAA ∷ [])

abbrev pub fat_image : Bytes
fat_image = boot ++ replicate 1536 0

parse_fat-Ends_example :
    Ends
      (λ (o : Option DiskImage).
        (i : DiskImage)
        → o ≡ some i
        → Numbered 0 i.entries
          × All (λ (e : DiskEntry). length e.data_bytes ≤ length fat_image) i.entries)
      (parse_fat codecs fat_image)
parse_fat-Ends_example = parse_fat-Ends codecs fat_image

abbrev pub adf_image : Bytes
adf_image = (68 ∷ 79 ∷ 83 ∷ 0 ∷ []) ++ replicate 901116 0

parse_adf-Ends_example : Ends (IsListing adf_image) (parse_adf adf_image)
parse_adf-Ends_example = parse_adf-Ends adf_image
