-- ===== src/Containers/Sources.antt =====
-- What src/avbox/analyzers/containers.py reads containers with, and `_kind`, which tells them apart.
use avbox.Prelude.{
  ℕ, String, Bool, true, false, ◌&&◌, ◌||◌, Option, none, some, List, [], ◌∷◌, leb, if◌then◌else◌,
  length, take, drop, Result, ok, err,
}
use avbox.Prelude.Bytes.{Bytes, slice, starts_with}
use avbox.Models.Records.{Hashes, InputArtifact, ScanJob}
use avbox.Effects.{Raised}
use avbox.Partitions.{parse_partition_table}
use avbox.Partitions.Types.{PartitionTableError, TableError, PartitionTable}
use avbox.Prelude.Fueled.{done, raised, out_of_fuel}
use avbox.DiskImages.{parse_disk_image}
use avbox.DiskImages.Types.{DiskImageError, Filesystem, ofs, ffs, Codecs}
use avbox.Containers.Names.{Name}
use avbox.Containers.State.{ExtractionBudget}
use avbox.Containers.Materialize.{Stream}

pub data Kind : Type 0 where
  zip corrupt_zip partitioned_disk fat amiga_adf lha iso9660 seven_zip cab arj tar gzip bzip2 xz :
      Kind

-- An embedded object of a structured document.
pub record EmbeddedObject : Type 0 where
  pub name : Name
  pub data_bytes : Bytes

pub record Document : Type 0 where
  pub children : List EmbeddedObject
  pub partial : Option String

-- `zipfile.ZipInfo`, and what opening the member gives.
pub record ZipMember : Type 0 where
  pub filename : Name
  pub flag_bits : ℕ
  pub external_attr : ℕ
  pub file_size : ℕ
  pub opened : Result Raised Stream

-- `tarfile.TarInfo`, and what `extractfile` gives.
pub record TarMember : Type 0 where
  pub name : Name
  pub is_link : Bool
  pub is_file : Bool
  pub size : ℕ
  pub opened : Result Raised (Option Stream)

-- A row of the listing that `7z` or `lhasa` prints; the conversion of the size may raise.
pub record ListedMember : Type 0 where
  pub name : Name
  pub directory : Bool
  pub size : Result Raised ℕ

-- How the listing of an archive by an external tool ends.
pub data Listing : Type 0 where
  no_tool not_run : Listing
  refused : Bool → Listing
  listed : List ListedMember → Listing

-- The budget, the limit on documents, and the code that is called for one analysis: the clock, the
-- digests, `create_queued` and `execute_queued` of the scan service, `isinstance` for names of
-- classes, `str.upper`, the formatting of texts and numbers, the parsers of documents and disk
-- images, Python's archive modules, and the external tools, with the extraction of one member.
pub record ContainerAnalyzer : Type 0 where
  pub budget : ExtractionBudget
  pub max_document_parser_bytes : ℕ
  pub elapsed : ℕ → ℕ
  pub hash_file : Bytes → Hashes
  pub scan : InputArtifact → List String → Bytes → Result Raised ScanJob
  pub is_instance : Raised → List String → Bool
  pub upper : String → String
  pub name_text : Name → String
  pub child_filename : ℕ → String
  pub partition_name : ℕ → Name
  pub table_error_text : TableError → String
  pub table_fault : PartitionTableError → Raised
  pub parse_document : Bytes → Result Raised (Option Document)
  pub codecs : Codecs
  pub disk_fault : DiskImageError → Raised
  pub is_zipfile : Bytes → Bool
  pub is_tarfile : Bytes → Result Raised Bool
  pub open_zip : Bytes → Result Raised (List ZipMember)
  pub open_tar : Bytes → Result Raised (List TarMember)
  pub open_compressed : Kind → Bytes → Result Raised Stream
  pub list_archive : Kind → Bytes → Listing
  pub extract_member : Kind → Bytes → Name → Result Raised (Option Stream)

-- `parse_partition_table(source) is not None`, or it raised, with its default of 32 partitions.
has_table : Option (Result PartitionTableError (Option PartitionTable)) → Bool
has_table (some (ok none)) = false
has_table (some (ok (some _))) = true
has_table (some (err _)) = true
has_table none = false

magic_kind : Bytes → Option Kind
magic_kind header =
    if starts_with (31 ∷ 139 ∷ []) header
    then some gzip
    else if starts_with (66 ∷ 90 ∷ 104 ∷ []) header
    then some bzip2
    else if starts_with (253 ∷ 55 ∷ 122 ∷ 88 ∷ 90 ∷ 0 ∷ []) header
    then some xz
    else if starts_with (55 ∷ 122 ∷ 188 ∷ 175 ∷ 39 ∷ 28 ∷ []) header
    then some seven_zip
    else if starts_with (77 ∷ 83 ∷ 67 ∷ 70 ∷ []) header
    then some cab
    else if starts_with (96 ∷ 234 ∷ []) header
    then some arj
    else none

-- The volume descriptor "CD001" at 0x8001 or 0x8801.
is_iso9660 : Bytes → Bool
is_iso9660 file =
    let mark = 67 ∷ 68 ∷ 48 ∷ 48 ∷ 49 ∷ [] in
    starts_with mark (drop 32769 file) || starts_with mark (drop 34817 file)

-- The tests from `zipfile.is_zipfile` on.
archive_kind : ContainerAnalyzer → Bytes → Result Raised (Option Kind)
unfolding is_iso9660 magic_kind
archive_kind env file =
    if env.is_zipfile file
    then ok (some zip)
    else if starts_with (80 ∷ 75 ∷ []) file
    then ok (some corrupt_zip)
    else if is_iso9660 file
    then ok (some iso9660)
    else elim (env.is_tarfile file) [
      | ok is_tar ↦ ok (if is_tar then some tar else magic_kind (take 8 file))
      | err e ↦
          if env.is_instance e ("OSError" ∷ "TarError" ∷ [])
          then ok (magic_kind (take 8 file))
          else err e
    ]

abbrev is_amiga : Filesystem → Bool
is_amiga ofs = true
is_amiga ffs = true
is_amiga _ = false

-- The tests from `parse_disk_image` on; a damaged image is told by its first bytes.
disk_kind : ContainerAnalyzer → Bytes → Result Raised (Option Kind)
unfolding archive_kind
disk_kind env file = elim (parse_disk_image env.codecs file) [
  | done none ↦ archive_kind env file
  | done (some image) ↦ ok (some (if is_amiga image.filesystem then amiga_adf else fat))
  | raised _ ↦ ok (some (if starts_with (68 ∷ 79 ∷ 83 ∷ []) file then amiga_adf else fat))
  | out_of_fuel ↦ ok none
]

-- `_kind`
unfoldable pub kind_of : ContainerAnalyzer → Bytes → Result Raised (Option Kind)
unfolding has_table disk_kind
kind_of env file =
    if has_table (parse_partition_table file 32)
    then ok (some partitioned_disk)
    else if leb 7 (length (take 8 file)) && starts_with (45 ∷ 108 ∷ 104 ∷ []) (slice file 2 7)
    then ok (some lha)
    else disk_kind env file
