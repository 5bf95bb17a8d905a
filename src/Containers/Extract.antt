-- ===== src/Containers/Extract.antt =====
-- The parts of `_process_object` in src/avbox/analyzers/containers.py for each kind of container.
pub mod Within
use avbox.Prelude.{
  str_eq, eq_iff, str_append, ℕ, zero, suc, ◌+◌, ◌-◌, ◌*◌, ◌/◌, ◌%◌, ◌^◌, ◌≤◌, ◌<◌, min, max,
  String, ◌≡◌, refl, sym, ap, ◌∙◌, fun_ext, ◌≢◌, ◌↔◌, ◌⊎◌, inl, inr, Bool, true, false, not, ◌&&◌,
  ◌||◌, Option, none, some, List, [], ◌∷◌, ◌++◌, map, arith, ltb, leb, ◌==◌, if◌then◌else◌, ltb→lt,
  ltb→le, leb→le, leb→lt, lt→ltb, le→leb, ==→eq, eq→==, ne→==, tests, Bool-cases, Option-cases,
  and_true, or_false, if_both, length, get_or, take, drop, replicate, All, any, all, select,
  length-append, append-nil, append_assoc, take-append-drop, length-take, length-drop,
  length-replicate, take-all, drop-nil, take-nil, drop-drop, take-append-take, All-append, All-take,
  length-map, is_member, Result, ok, err, raise_if, Result-cases,
}
use avbox.Prelude.Bytes.{Bytes}
use avbox.Prelude.Int.{pos}
use avbox.Models.Records.{
  LimitEvent, InputArtifact, ScanJob, child_count, child_size, partition_materialization,
  total_partition_materialization, corrupt_container, encrypted_container, unsafe_member_path,
  symlink_entry, symlink_or_hardlink_entry, special_file_entry, corrupt_filesystem,
  corrupt_partition_table, extraction_unavailable, enumeration_failure, member_extraction_failure,
  extraction_time, Relation, contains, decompressed_from, filesystem_entry_of, partition_of,
  embedded_file_of,
}
use avbox.Effects.{Raised, pure, raise, lift, gets, ◌>>=◌, ◌>>◌}
use avbox.Scanning.Scanners.{text_of, add_error}
use avbox.Partitions.{parse_partition_table}
use avbox.Partitions.Types.{PartitionTableError, Partition, PartitionTable}
use avbox.Partitions.Reader.{open_range, chunks}
use avbox.Prelude.Fueled.{Fueled, done, raised, out_of_fuel}
use avbox.DiskImages.{parse_disk_image}
use avbox.DiskImages.Types.{DiskImageError, DiskEntry, DiskImage}
use avbox.Containers.Names.{Name, safe_name}
use avbox.Containers.State.{
  ExtractionUsage, Work, Action, on_usage, on_job, limit, skip, is_late, discover, each_member,
  members_of, pass_over,
}
use avbox.Containers.Materialize.{Stream}
use avbox.Containers.Sources.{
  Kind, zip, corrupt_zip, partitioned_disk, fat, amiga_adf, lha, iso9660, seven_zip, cab, arj, tar,
  gzip, bzip2, xz, EmbeddedObject, Document, ZipMember, TarMember, ListedMember, Listing, no_tool,
  not_run, refused, listed, ContainerAnalyzer, kind_of,
}
use avbox.Containers.Child.{Member, child}

-- `job.completeness = text`
unfoldable pub set_completeness : String → ScanJob → ScanJob
set_completeness text job = record job { completeness = text }

unfoldable pub mark_partial : ContainerAnalyzer → Document → ScanJob → ScanJob
unfolding set_completeness
mark_partial env document job = elim document.partial [
  | none ↦ job
  | some text ↦
      if not (str_eq text "") && str_eq job.completeness "COMPLETE"
      then set_completeness (env.upper text) job
      else job
]

-- The reads of 1 MiB from bytes in memory, at most `fuel` of them.
unfoldable pub pieces : ℕ → Bytes → List Bytes
pieces zero content = []
pieces (suc fuel) [] = []
pieces (suc fuel) (b ∷ bs) = take 1048576 (b ∷ bs) ∷ pieces fuel (drop 1048576 (b ∷ bs))

-- A stream over bytes in memory; each read takes a byte at least.
unfoldable pub stream_of : Bytes → Stream
stream_of content = record { chunks = pieces (length content) content; failure = none }

-- `job.errors.append(...)`, `job.completeness = "PARTIAL_ERROR"`.
unfoldable pub note_fault : List String → Action (Unit {0})
unfolding on_job set_completeness
note_fault texts = on_job (λ job. set_completeness "PARTIAL_ERROR" (add_error (text_of texts) job))

unfoldable pub accepts : ContainerAnalyzer → Name → Bool
accepts env name = safe_name env.budget.max_member_name_bytes env.budget.max_path_depth name

-- The parts of `_process_object` for one object at `depth`, with the function for deeper ones.
module _ (env : ContainerAnalyzer) (descend : Bytes → InputArtifact → Action (Unit {0}))
    (parent : InputArtifact) (depth : ℕ) (parent_size : ℕ) where
  -- `_child` for a member, after which the loop goes on.
  unfoldable pub give : Name → ℕ → Relation → Stream → Action Bool
  give name index relation stream =
      child env descend parent depth parent_size
        (record { stream = stream; name = name; index = index; relation = relation })
      >> pure true

  unfoldable pub give_embedded : ℕ → EmbeddedObject → Action Bool
  give_embedded index object = give object.name index embedded_file_of (stream_of object.data_bytes)

  unfoldable pub process_document : Document → Action (Unit {0})
  process_document document =
      on_job (mark_partial env document) >> members_of env.budget document.children give_embedded

  -- `_is_zip_link`: the type of the file in the upper half of the attributes.
  unfoldable pub is_zip_link : ZipMember → Bool
  is_zip_link info = (info.external_attr / 65536) % 65536 / 4096 == 10

  unfoldable pub give_zip : ℕ → ZipMember → Action Bool
  give_zip index info =
      if info.flag_bits % 2 == 1
      then pass_over encrypted_container
      else if not (accepts env info.filename)
      then pass_over unsafe_member_path
      else if is_zip_link info
      then pass_over symlink_entry
      else if ltb env.budget.max_single_child_bytes info.file_size
      then pass_over child_size
      else (lift info.opened >>= give info.filename index contains)

  give_tar_stream : ℕ → Name → Option Stream → Action Bool
  give_tar_stream index name none = pure true
  give_tar_stream index name (some stream) = give name index contains stream

  unfoldable pub give_tar : ℕ → TarMember → Action Bool
  unfolding give_tar_stream
  give_tar index member =
      if not (accepts env member.name)
      then pass_over unsafe_member_path
      else if member.is_link
      then pass_over symlink_or_hardlink_entry
      else if not member.is_file
      then pass_over special_file_entry
      else if ltb env.budget.max_single_child_bytes member.size
      then pass_over child_size
      else (lift member.opened >>= give_tar_stream index member.name)

  unfoldable pub give_entry : ℕ → DiskEntry → Action Bool
  give_entry _ entry =
      if not (accepts env entry.path)
      then pass_over unsafe_member_path
      else give entry.path entry.index filesystem_entry_of (stream_of entry.data_bytes)

  -- `_process_disk_image`
  unfoldable pub process_disk_image : Fueled DiskImageError (Option DiskImage) → Action (Unit {0})
  process_disk_image (raised e) =
      skip corrupt_filesystem
      >> note_fault ("disk-image: " ∷ (env.disk_fault e).kind ∷ ": " ∷ (env.disk_fault e).text ∷ [])
  process_disk_image (done none) = pure tt
  process_disk_image (done (some image)) = members_of env.budget image.entries give_entry
  process_disk_image out_of_fuel = pure tt

  relation_of : Kind → Relation
  relation_of iso9660 = filesystem_entry_of
  relation_of _ = contains

  give_extracted : Kind → ℕ → Name → Option Stream → Action Bool
  unfolding relation_of
  give_extracted kind index name none = pass_over member_extraction_failure
  give_extracted kind index name (some stream) = give name index (relation_of kind) stream

  unfoldable pub give_listed : Kind → Bytes → ℕ → ListedMember → Action Bool
  unfolding give_extracted
  give_listed kind file index member =
      if not (accepts env member.name)
      then pass_over unsafe_member_path
      else if member.directory
      then pure true
      else (lift member.size >>= λ declared.
          if ltb env.budget.max_single_child_bytes declared
          then pass_over child_size
          else (lift (env.extract_member kind file member.name)
              >>= give_extracted kind index member.name))

  -- `_process_external_archive`
  unfoldable pub process_external_archive : Kind → Bytes → Listing → Action (Unit {0})
  process_external_archive kind file no_tool =
      skip extraction_unavailable >> on_job (set_completeness "PARTIAL_UNSUPPORTED")
  process_external_archive kind file not_run =
      skip enumeration_failure >> on_job (set_completeness "PARTIAL_ERROR")
  process_external_archive kind file (refused true) =
      skip encrypted_container >> on_job (set_completeness "PARTIAL_UNSUPPORTED")
  process_external_archive kind file (refused false) =
      skip corrupt_container >> on_job (set_completeness "PARTIAL_ERROR")
  process_external_archive kind file (listed members) =
      members_of env.budget members (give_listed kind file)

  -- The range reader over a partition as a stream.
  unfoldable pub partition_stream : Bytes → Partition → Result Raised Stream
  partition_stream file p = elim (open_range (pos p.start) (pos p.length) (length file)) [
    | err e ↦ err (env.table_fault e)
    | ok reader ↦ elim (chunks file 1048576 reader) [
      | some (ok cs) ↦ ok (record { chunks = cs; failure = none })
      | some (err e) ↦ ok (record { chunks = []; failure = some (env.table_fault e) })
      | none ↦ ok (record { chunks = []; failure = none })
    ]
  ]

  -- `partition.name or f"partition-{partition.index}"`
  unfoldable pub partition_label : Partition → Name
  partition_label p = elim p.name [
    | none ↦ env.partition_name p.index
    | some name ↦ if length name == 0 then env.partition_name p.index else name
  ]

  -- A partition is charged where its child was materialized.
  unfoldable pub charge_partition : ℕ → ℕ → ExtractionUsage → ExtractionUsage
  charge_partition before size usage =
      if ltb before usage.children_materialized
      then record usage { materialized_partition_bytes = usage.materialized_partition_bytes + size }
      else usage

  give_range : Bytes → Partition → Action Bool
  give_range file p = do
    stream ← lift (partition_stream file p)
    before ← gets (λ w. w.usage.children_materialized)
    _ ← give (partition_label p) p.index partition_of stream
    on_usage (charge_partition before p.length)
    pure true

  unfoldable pub give_partition : Bytes → ℕ → Partition → Action Bool
  unfolding give_range
  give_partition file _ p =
      if ltb env.budget.max_materialized_partition_bytes p.length
      then limit partition_materialization >> pure true
      else (do
        so_far ← gets (λ w. w.usage.materialized_partition_bytes)
        if ltb env.budget.max_total_materialized_partition_bytes (so_far + p.length)
            then limit total_partition_materialization >> pure false
            else give_range file p)

  note_table_errors : PartitionTable → ScanJob → ScanJob
  unfolding set_completeness
  note_table_errors table job =
      if length table.errors == 0
      then job
      else set_completeness "PARTIAL_ERROR" (record job {
        errors =
            job.errors
            ++ map (λ e. text_of ("partition-table: " ∷ env.table_error_text e ∷ [])) table.errors;
      })

  -- `_process_partitioned_disk`
  unfoldable pub process_partitioned_disk :
      Bytes → Option (Result PartitionTableError (Option PartitionTable)) → Action (Unit {0})
  unfolding note_table_errors
  process_partitioned_disk file (some (err e)) =
      skip corrupt_partition_table
      >> note_fault ("partition-table: " ∷ (env.table_fault e).text ∷ [])
  process_partitioned_disk file (some (ok (some table))) =
      on_job (note_table_errors table)
      >> each_member env.budget 0 table.partitions (give_partition file)
  process_partitioned_disk file _ = pure tt

  -- "decompressed." and the kind.
  decompressed_name : Kind → Name
  decompressed_name kind =
      (100 ∷ 101 ∷ 99 ∷ 111 ∷ 109 ∷ 112 ∷ 114 ∷ 101 ∷ 115 ∷ 115 ∷ 101 ∷ 100 ∷ 46 ∷ [])
      ++ elim kind [
        | gzip ↦ 103 ∷ 122 ∷ 105 ∷ 112 ∷ []
        | bzip2 ↦ 98 ∷ 122 ∷ 105 ∷ 112 ∷ 50 ∷ []
        | _ ↦ 120 ∷ 122 ∷ []
      ]

  give_stream : Kind → Stream → Action (Unit {0})
  unfolding decompressed_name
  give_stream kind stream = child env descend parent depth parent_size (record {
    stream = stream;
    name = decompressed_name kind;
    index = 0;
    relation = decompressed_from;
  })

  -- A compressed file is one member.
  unfoldable pub process_compressed : Kind → Bytes → Action (Unit {0})
  unfolding give_stream
  process_compressed kind file = do
    stream ← lift (env.open_compressed kind file)
    discover
    give_stream kind stream

  -- What is done for each kind.
  unfoldable pub process_kind : Bytes → Option Kind → Action (Unit {0})
  process_kind file none = pure tt
  process_kind file (some corrupt_zip) =
      skip corrupt_container >> on_job (set_completeness "PARTIAL_ERROR")
  process_kind file (some zip) =
      lift (env.open_zip file) >>= λ members. members_of env.budget members give_zip
  process_kind file (some partitioned_disk) =
      process_partitioned_disk file (parse_partition_table file env.budget.max_partitions_per_disk)
  process_kind file (some fat) = process_disk_image (parse_disk_image env.codecs file)
  process_kind file (some amiga_adf) = process_disk_image (parse_disk_image env.codecs file)
  process_kind file (some tar) =
      lift (env.open_tar file) >>= λ members. members_of env.budget members give_tar
  process_kind file (some gzip) = process_compressed gzip file
  process_kind file (some bzip2) = process_compressed bzip2 file
  process_kind file (some xz) = process_compressed xz file
  process_kind file (some kind) = process_external_archive kind file (env.list_archive kind file)

  -- A structured document gives its embedded objects only.
  unfoldable pub process_contents : Bytes → Option Document → Action (Unit {0})
  process_contents file (some document) = process_document document
  process_contents file none = lift (kind_of env file) >>= process_kind file
