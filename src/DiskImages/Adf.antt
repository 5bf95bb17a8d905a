-- ===== src/DiskImages/Adf.antt =====
-- `_parse_adf` of src/avbox/analyzers/disk_images.py: Amiga floppy images.
pub mod Files
pub mod Walks
use avbox.Prelude.{
  str_eq, eq_iff, str_append, ℕ, zero, suc, ◌+◌, ◌-◌, ◌*◌, ◌/◌, ◌%◌, ◌^◌, ◌≤◌, ◌<◌, min, max,
  String, ◌≡◌, refl, sym, ap, ◌∙◌, fun_ext, ◌≢◌, ◌↔◌, ◌⊎◌, inl, inr, Bool, true, false, not, ◌&&◌,
  ◌||◌, Option, none, some, List, [], ◌∷◌, ◌++◌, map, arith, ltb, leb, ◌==◌, if◌then◌else◌, ltb→lt,
  ltb→le, leb→le, leb→lt, lt→ltb, le→leb, ==→eq, eq→==, ne→==, tests, Bool-cases, Option-cases,
  and_true, or_false, if_both, length, get_or, take, drop, replicate, All, any, all, select,
  length-append, append-nil, append_assoc, take-append-drop, length-take, length-drop,
  length-replicate, take-all, drop-nil, take-nil, drop-drop, take-append-take, All-append, All-take,
  length-map, is_member, Result, ok, err, raise_if, Result-cases,
}
use avbox.Prelude.Bytes.{Bytes, byte, slice, be32, starts_with}
use avbox.Prelude.Fueled.{Fueled, done, raised, out_of_fuel, ◌>>=◌, ◌>>◌, of_result, raise_when}
use avbox.DiskImages.Types.{
  DiskImageError, block_outside, invalid_root_checksum, invalid_counted_string, cyclic_block_list,
  invalid_ofs_block, invalid_ofs_size, truncated_adf_file, cyclic_hash_chain, invalid_entry_header,
  unsafe_entry_name, unsupported_entry_type, Text, DiskEntry, DiskImage, Filesystem, ofs, ffs,
}
use avbox.DiskImages.Fat.Tree.{is_skipped, logical_path}

-- An image of 880 KiB has as many blocks of 512 bytes, and its root is in the middle.
abbrev pub image_size : ℕ
image_size = 901120

abbrev pub blocks : ℕ
blocks = 1760

abbrev pub root_key : ℕ
root_key = 880

-- `block`
unfoldable pub block : Bytes → ℕ → Result DiskImageError Bytes
block file key =
    if ltb key 2 || leb blocks key
    then err block_outside
    else ok (slice file (key * 512) ((key + 1) * 512))

unfoldable pub sum_words : ℕ → Bytes → ℕ
sum_words zero xs = 0
sum_words (suc n) xs = be32 xs 0 + sum_words n (drop 4 xs)

-- `valid_checksum`
unfoldable pub valid_checksum : Bytes → Bool
valid_checksum value = sum_words 128 value % 2 ^ 32 == 0

-- `bstr`: a length and as many bytes, in Latin-1.
unfoldable pub bstr : Bytes → ℕ → Result DiskImageError Text
bstr value offset =
    let n = byte value offset in
    if ltb 107 n || ltb (length value) (offset + 1 + n)
    then err invalid_counted_string
    else ok (slice value (offset + 1) (offset + 1 + n))

-- The pointers of a header that are not null, the last one first; `n` of them are left from
-- `offset` on.
unfoldable pub pointers : ℕ → Bytes → ℕ → List ℕ
pointers zero header offset = []
pointers (suc n) header offset =
    pointers n header (offset + 4)
    ++ (if be32 header offset == 0 then [] else be32 header offset ∷ [])

-- What one data block adds to a file.
unfoldable pub piece_of : Filesystem → ℕ → Bytes → Result DiskImageError Bytes
piece_of ofs header_key value =
    if not (be32 value 0 == 8) || not (be32 value 4 == header_key)
    then err invalid_ofs_block
    else if ltb 488 (be32 value 12) || not (valid_checksum value)
    then err invalid_ofs_size
    else ok (slice value 24 (24 + be32 value 12))
piece_of _ header_key value = ok value

-- The block of a pointer, and what it adds.
unfoldable pub piece_at : Bytes → Filesystem → ℕ → ℕ → Result DiskImageError Bytes
piece_at file fs header_key key = elim (block file key) [
  | err e ↦ err e
  | ok value ↦ piece_of fs header_key value
]

-- The loop of `file_data` over the pointers.
unfoldable pub data_loop :
    Bytes → Filesystem → ℕ → ℕ → List ℕ → List ℕ → Bytes → Result DiskImageError Bytes
data_loop file fs header_key size [] seen out =
    if length out == size then ok out else err truncated_adf_file
data_loop file fs header_key size (key ∷ keys) seen out =
    if is_member key seen then err cyclic_block_list else elim (piece_at file fs header_key key) [
      | err e ↦ err e
      | ok piece ↦
          let rest = data_loop file fs header_key size keys (key ∷ seen) (out ++ piece) in
          if leb size (length (out ++ piece)) then ok (take size (out ++ piece)) else rest
    ]

-- `file_data`
unfoldable pub file_data : Bytes → Filesystem → Bytes → ℕ → Result DiskImageError Bytes
file_data file fs header header_key =
    data_loop file fs header_key (be32 header 324) (pointers 72 header 24) [] []

-- `visited` and `entries`. The sets `chain_seen` of the hash chains are parts of `visited`.
pub record Walk : Type 0 where
  pub visited : List ℕ
  pub entries : List DiskEntry

abbrev pub has_separator : Text → Bool
has_separator name = is_member 47 name || is_member 92 name

-- `for bucket in range(72)`, with `n` buckets left from `bucket` on.
unfoldable pub walk_buckets :
    (Text → ℕ → Walk → Fueled DiskImageError Walk)
    → Bytes
    → Text
    → ℕ
    → ℕ
    → Walk
    → Fueled DiskImageError Walk
walk_buckets follow directory prefix zero bucket w = done w
walk_buckets follow directory prefix (suc n) bucket w = do
  next ← follow prefix (be32 directory (24 + bucket * 4)) w
  walk_buckets follow directory prefix n (bucket + 1) next

unfoldable pub add_file : Bytes → Filesystem → Bytes → ℕ → Text → Walk → Fueled DiskImageError Walk
add_file file fs header key path w = do
  content ← of_result (file_data file fs header key)
  done (record w {
    entries =
        w.entries ++ (record { path = path; data_bytes = content; index = length w.entries } ∷ []);
  })

-- An entry: a directory (2), a file (-3), or an error.
unfoldable pub add_entry :
    (Text → ℕ → Walk → Fueled DiskImageError Walk)
    → Bytes
    → Filesystem
    → Bytes
    → ℕ
    → Text
    → Walk
    → Fueled DiskImageError Walk
add_entry follow file fs header key path w =
    if be32 header 508 == 2
    then walk_buckets follow header path 72 0 w
    else if be32 header 508 == 0xFFFFFFFD
    then add_file file fs header key path w
    else raised unsupported_entry_type

-- The `while key` loop of `walk_directory` from `key` on. Each round visits a block, so there are
-- not more rounds, those for the directories inside included, than blocks.
unfoldable pub follow : Bytes → Filesystem → ℕ → Text → ℕ → Walk → Fueled DiskImageError Walk
follow file fs zero prefix key w = out_of_fuel
follow file fs (suc fuel) prefix key w = if key == 0 then done w else (do
  raise_when (is_member key w.visited) cyclic_hash_chain
  header ← of_result (block file key)
  raise_when (not (be32 header 0 == 2) || not (valid_checksum header)) invalid_entry_header
  name ← of_result (bstr header 432)
  raise_when (is_skipped name || has_separator name) unsafe_entry_name
  next ←
      add_entry (follow file fs fuel) file fs header key (logical_path prefix name)
        (record w { visited = key ∷ w.visited })
  follow file fs fuel prefix (be32 header 496) next)

abbrev pub fs_of : Bytes → Filesystem
fs_of file = if byte file 3 == 0 then ofs else ffs

-- `_parse_adf` once the root block is known to be one.
unfoldable pub parse_root : Bytes → Bytes → Fueled DiskImageError (Option DiskImage)
parse_root file root = do
  raise_when (not (valid_checksum root)) invalid_root_checksum
  w ←
      walk_buckets (follow file (fs_of file) (blocks + 2)) root [] 72 0
        (record { visited = root_key ∷ []; entries = [] })
  volume ← of_result (bstr root 432)
  done (
      some (record {
        filesystem = fs_of file;
        entries = w.entries;
        label = if length volume == 0 then none else some volume;
        filesystem_size = length file;
        allocation_size = 512;
      }))

-- The size or the mark is not that of a standard image.
unfoldable pub is_other : Bytes → Bool
is_other file =
    not (length file == image_size)
    || (not (starts_with (68 ∷ 79 ∷ 83 ∷ []) file) || not (byte file 3 == 0 || byte file 3 == 1))

-- `_be32(root, 0) != 2 or _signed_be32(root, 508) != 1`
unfoldable pub is_no_root : Bytes → Bool
is_no_root root = not (be32 root 0 == 2) || not (be32 root 508 == 1)

-- `_parse_adf`
unfoldable pub parse_adf : Bytes → Fueled DiskImageError (Option DiskImage)
parse_adf file = if is_other file then done none else (do
  root ← of_result (block file root_key)
  if is_no_root root then done none else parse_root file root)
