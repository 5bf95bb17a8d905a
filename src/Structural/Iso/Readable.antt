-- ===== src/Structural/Iso/Readable.antt =====
-- `_iso` of src/avbox/analyzers/structural.py: what the state VALID of an ISO 9660 image means.
use avbox.Prelude.{
  ℕ, ◌*◌, ◌≤◌, max, String, ◌≡◌, refl, Bool, true, false, not, Option, none, some, [], ◌++◌, arith,
  ltb, ◌==◌, ltb→le, length,
}
use avbox.Prelude.Bytes.{Bytes, slice, le16, le32}
use avbox.Prelude.Stops.{Stops, gives, Stops-mono, Stops-bind}
use avbox.Structural.Types.{
  valid, truncated, Finding, iso_primary_volume_descriptor_missing,
  iso_descriptor_terminator_missing, iso_logical_block_size_invalid, iso_volume_space_out_of_range,
}
use avbox.Structural.Results.{result}
use avbox.Structural.Facts.{nil_parts, not-false, state_of-nil}
use avbox.Structural.Iso.{
  Volume, volume_of, volume_findings, finding_if, is_some, check_volume, validate_iso,
}
use avbox.Structural.Iso.Reached.{Reaches, IsReadable, iso_directories-Readable}

-- The primary descriptor of an image, from which every directory can be read.
pub record IsVolume (file pvd : Bytes) : Type 0 where
  pub primary : (volume_of file).pvd ≡ some pvd
  pub terminated : (volume_of file).terminator ≡ true
  pub block_size : le16 pvd 128 ≡ 2048
  pub space : le32 pvd 80 * 2048 ≤ length file
  pub readable :
      (d : Bytes)
      → Reaches (le16 pvd 128) file (slice pvd 156 190) d
      → IsReadable (le16 pvd 128) file d

-- The block size that the image declares is 0.
pub IsZero : Option Bytes → Type 0
IsZero none = ⊥
IsZero (some pvd) = le16 pvd 128 ≡ 0

nil_if : (c : Bool) (f : Finding) → finding_if c f ≡ [] → c ≡ false
nil_if true f h = absurd cc
nil_if false f h = refl

volume_clean :
    (v : Volume) → volume_findings v ≡ [] → (is_some v.pvd ≡ true) × (v.terminator ≡ true)
unfolding volume_findings
volume_clean v h =
    let present = finding_if (not (is_some v.pvd)) iso_primary_volume_descriptor_missing in
    let ended = finding_if (not v.terminator) iso_descriptor_terminator_missing in
    let (more, b) = nil_parts (v.findings ++ present) ended h in
    let (_, a) = nil_parts v.findings present more in
    (not-false _ (nil_if _ _ a), not-false _ (nil_if _ _ b))

-- What the descriptors have shown, where nothing was found.
check_volume-IsVolume :
    (max_nodes : ℕ) (file : Bytes) (p : Option Bytes)
    → (volume_of file).pvd ≡ p
    → Stops
        (λ fs. fs ≡ [] → (pvd : Bytes) × IsVolume file pvd)
        (λ _. IsZero p)
        (check_volume max_nodes file p (volume_findings (volume_of file)))
unfolding check_volume IsZero
check_volume-IsVolume m file none e = gives (λ clean.
    let (present, _) = volume_clean (volume_of file) clean in
    let no : false ≡ true = rw e at present in absurd cc)
check_volume-IsVolume m file (some pvd) e =
    let sized = finding_if (not (le16 pvd 128 == 2048)) iso_logical_block_size_invalid in
    let spaced =
      finding_if (ltb (length file) (le32 pvd 80 * max (le16 pvd 128) 1))
        iso_volume_space_out_of_range in
    Stops-mono (iso_directories-Readable (le16 pvd 128) file m (slice pvd 156 190) _)
      (λ fs sound clean.
        let (before, readable) = sound clean in
        let (earlier, of_space) =
          nil_parts (volume_findings (volume_of file) ++ sized) spaced before in
        let (first, of_size) = nil_parts (volume_findings (volume_of file)) sized earlier in
        let size_2048 : le16 pvd 128 ≡ 2048 = ground (arith, nil_if _ _ of_size) in
        let fits = ltb→le _ _ (nil_if _ _ of_space) in
        let (_, ended) = volume_clean (volume_of file) first in
        (
          pvd,
          record {
            primary = e;
            terminated = ended;
            block_size = size_2048;
            space = rw size_2048 at fits;
            readable = readable;
          },
        ))

-- The validation of an ISO 9660 image ends on every file. It divides by 0 only if a primary
-- descriptor declares the block size 0, and it says VALID only if the image has a primary descriptor
-- and a terminator, the blocks have 2048 bytes and lie inside the file, and every directory that the
-- root leads to lies inside the file, with whole rows that name extents inside it.
pub validate_iso-IsVolume :
    (max_nodes : ℕ) (sha256 : String) (file : Bytes)
    → Stops
        (λ v. v.state ≡ valid → (pvd : Bytes) × IsVolume file pvd)
        (λ _. IsZero (volume_of file).pvd)
        (validate_iso max_nodes sha256 file)
unfolding validate_iso result
validate_iso-IsVolume m sha256 file =
    Stops-bind _ (check_volume-IsVolume m file (volume_of file).pvd refl)
      (λ fs sound. gives (λ h. sound (state_of-nil _ truncated fs (λ e. cc) h)))
