-- ===== src/DiskImages/Adf/Files.antt =====
-- The files of an Amiga floppy image have the size that their header declares.
use avbox.Prelude.{
  ℕ, ◌≡◌, sym, ap, ◌∙◌, inl, inr, List, [], ◌∷◌, ◌++◌, arith, leb, ◌==◌, leb→le, ==→eq, Bool-cases,
  length, take, length-take, is_member, Result, ok, err, Result-cases,
}
use avbox.Prelude.Bytes.{Bytes, be32}
use avbox.DiskImages.Types.{DiskImageError, Filesystem, cyclic_block_list, truncated_adf_file}
use avbox.DiskImages.Adf.{piece_at, data_loop, file_data, pointers}

abbrev read_as : Bytes → Result DiskImageError Bytes
read_as out = ok out

same_bytes : (a b : Bytes) → read_as a ≡ read_as b → a ≡ b
same_bytes a b h = cc

module _ (file : Bytes) (fs : Filesystem) (header_key size : ℕ) where
  data_loop-sized :
      (keys seen : List ℕ) (out r : Bytes)
      → data_loop file fs header_key size keys seen out ≡ ok r
      → length r ≡ size
  unfolding data_loop
  data_loop-sized [] seen out r h = elim (Bool-cases (length out == size)) [
    | inl e ↦
        let same : out ≡ r = same_bytes out r (rw e at h) in
        ap length (sym same) ∙ ==→eq (length out) size e
    | inr e ↦ let no : err truncated_adf_file ≡ read_as r = rw e at h in absurd cc
  ]
  data_loop-sized (key ∷ keys) seen out r h = elim (Bool-cases (is_member key seen)) [
    | inl e ↦ let no : err cyclic_block_list ≡ read_as r = rw e at h in absurd cc
    | inr e ↦ elim (Result-cases (piece_at file fs header_key key)) [
      | inr (x, f) ↦ let no : err x ≡ read_as r = rw (e, f) at h in absurd cc
      | inl (piece, f) ↦ elim (Bool-cases (leb size (length (out ++ piece)))) [
        | inl k ↦
            let same : take size (out ++ piece) ≡ r = same_bytes _ r (rw (e, f, k) at h) in
            ap length (sym same) ∙ omega (arith, length-take size (out ++ piece), leb→le _ _ k)
        | inr k ↦
            let rest : data_loop file fs header_key size keys (key ∷ seen) (out ++ piece) ≡ ok r =
              rw (e, f, k) at h in
            data_loop-sized keys (key ∷ seen) (out ++ piece) r rest
      ]
    ]
  ]

-- A file that is read has exactly as many bytes as its header declares.
pub file_data-sized :
    (file : Bytes) (fs : Filesystem) (header : Bytes) (key : ℕ) (r : Bytes)
    → file_data file fs header key ≡ ok r
    → length r ≡ be32 header 324
unfolding file_data
file_data-sized file fs header key r h =
    data_loop-sized file fs key (be32 header 324) (pointers 72 header 24) [] [] r h
