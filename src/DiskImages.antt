-- ===== src/DiskImages.antt =====
-- src/avbox/analyzers/disk_images.py: FAT images and Amiga floppy images.
pub mod Types
pub mod Fat
pub mod Adf
pub mod Sound
use avbox.Prelude.{
  str_eq, eq_iff, str_append, ℕ, zero, suc, ◌+◌, ◌-◌, ◌*◌, ◌/◌, ◌%◌, ◌^◌, ◌≤◌, ◌<◌, min, max,
  String, ◌≡◌, refl, sym, ap, ◌∙◌, fun_ext, ◌≢◌, ◌↔◌, ◌⊎◌, inl, inr, Bool, true, false, not, ◌&&◌,
  ◌||◌, Option, none, some, List, [], ◌∷◌, ◌++◌, map, arith, ltb, leb, ◌==◌, if◌then◌else◌, ltb→lt,
  ltb→le, leb→le, leb→lt, lt→ltb, le→leb, ==→eq, eq→==, ne→==, tests, Bool-cases, Option-cases,
  and_true, or_false, if_both, length, get_or, take, drop, replicate, All, any, all, select,
  length-append, append-nil, append_assoc, take-append-drop, length-take, length-drop,
  length-replicate, take-all, drop-nil, take-nil, drop-drop, take-append-take, All-append, All-take,
  length-map, is_member, Result, ok, err, raise_if, Result-cases,
}
use avbox.Prelude.Bytes.{Bytes}
use avbox.Prelude.Fueled.{Fueled, done, ◌>>=◌}
use Types.{DiskImageError, DiskImage, Codecs}
use Fat.Tree.{parse_fat}
use Adf.{parse_adf}

-- `parse_disk_image`
unfoldable pub parse_disk_image : Codecs → Bytes → Fueled DiskImageError (Option DiskImage)
parse_disk_image codecs file = do
  fat ← parse_fat codecs file
  elim fat [ some image ↦ done (some image) | none ↦ parse_adf file ]
