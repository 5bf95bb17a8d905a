-- ===== src/DiskImages/Sound.antt =====
-- `parse_disk_image` ends.
use avbox.Prelude.{◌≤◌, ◌≡◌, refl, Option, none, some, length, All}
use avbox.Prelude.Bytes.{Bytes}
use avbox.Prelude.Fueled.{Fueled, done, Ends, Ends-mono, Ends-bind, returns}
use avbox.DiskImages.{parse_disk_image}
use avbox.DiskImages.Types.{DiskImageError, DiskEntry, DiskImage, Codecs}
use avbox.DiskImages.Fat.Tree.Walks.{Numbered, parse_fat-Ends}
use avbox.DiskImages.Adf.{parse_adf}
use avbox.DiskImages.Adf.Walks.{IsListing, parse_adf-Ends}

-- The entries of an image, if there is one, are numbered from 0.
pub IsNumbered : Option DiskImage → Type 0
IsNumbered none = Unit
IsNumbered (some image) = Numbered 0 image.entries

-- The parse of a disk image ends on every file, and the entries of the image that it returns, if it
-- returns one, are numbered from 0.
pub parse_disk_image-Ends :
    (codecs : Codecs) (file : Bytes) → Ends IsNumbered (parse_disk_image codecs file)
unfolding parse_disk_image IsNumbered IsListing
parse_disk_image-Ends codecs file = Ends-bind _ (parse_fat-Ends codecs file) go
  where
    adf : (o : Option DiskImage) → IsListing file o → IsNumbered o
    adf none h = tt
    adf (some image) h = h.0

    go :
        (fat : Option DiskImage)
        → ((i : DiskImage)
            → fat ≡ some i
            → Numbered 0 i.entries
              × All (λ (e : DiskEntry). length e.data_bytes ≤ length file) i.entries)
        → Ends IsNumbered (elim fat as (λ _. Fueled DiskImageError (Option DiskImage)) [
          | some image ↦ done (some image)
          | none ↦ parse_adf file
        ])
    go none h = Ends-mono (parse_adf-Ends file) adf
    go (some image) h = returns (h image refl).0
