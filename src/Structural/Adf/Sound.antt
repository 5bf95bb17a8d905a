-- ===== src/Structural/Adf/Sound.antt =====
-- `_adf` of src/avbox/analyzers/structural.py: what the state VALID of a floppy image means.
use avbox.Prelude.{ℕ, ◌≡◌, ◌⊎◌, true, List, [], ◌∷◌, ◌++◌, length}
use avbox.Prelude.Bytes.{Bytes, byte}
use avbox.Prelude.Fueled.{Fueled}
use avbox.DiskImages.Adf.{image_size, root_key, fs_of}
use avbox.Structural.Adf.{bitmap_findings, is_boot_valid, is_root_valid, root_of}
use avbox.Structural.Adf.Tree.{IsTable, IsGood}

-- The image has the size of a floppy disk and a file system without variants; its boot block, its
-- root and its bitmap have the right sums; and its directories are a tree of different blocks, in
-- which each file has as much data as its header declares.
pub record IsFloppy (file : Bytes) : Type 0 where
  pub sized : length file ≡ image_size
  pub plain : (byte file 3 ≡ 0) ⊎ (byte file 3 ≡ 1)
  pub boot : is_boot_valid file ≡ true
  pub root : is_root_valid (root_of file) ≡ true
  pub bitmap : bitmap_findings file (root_of file) 24 316 ≡ []
  pub tree : List ℕ
  pub is_tree : IsTable file (fs_of file) (root_of file) 72 24 tree
  pub apart : IsGood (tree ++ (root_key ∷ []))
