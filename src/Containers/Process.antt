-- ===== src/Containers/Process.antt =====
-- `_process_object` and `process` of src/avbox/analyzers/containers.py.
pub mod Within
use avbox.Prelude.{
  str_eq, eq_iff, str_append, ℕ, zero, suc, ◌+◌, ◌-◌, ◌*◌, ◌/◌, ◌%◌, ◌^◌, ◌≤◌, ◌<◌, min, max,
  String, ◌≡◌, refl, sym, ap, ◌∙◌, fun_ext, ◌≢◌, ◌↔◌, ◌⊎◌, inl, inr, Bool, true, false, not, ◌&&◌,
  ◌||◌, Option, none, some, List, [], ◌∷◌, ◌++◌, map, arith, ltb, leb, ◌==◌, if◌then◌else◌, ltb→lt,
  ltb→le, leb→le, leb→lt, lt→ltb, le→leb, ==→eq, eq→==, ne→==, tests, Bool-cases, Option-cases,
  and_true, or_false, if_both, length, get_or, take, drop, replicate, All, any, all, select,
  length-append, append-nil, append_assoc, take-append-drop, length-take, length-drop,
  length-replicate, take-all, drop-nil, take-nil, drop-drop, take-append-take, All-append, All-take,
  length-map, is_member, Result, ok, err, raise_if, Result-cases,
}
use avbox.Prelude.Bytes.{Bytes}
use avbox.Prelude.Int.{pos}
use avbox.Models.Records.{
  LimitEvent, InputArtifact, ScanJob, child_count, child_size, partition_materialization,
  total_partition_materialization, corrupt_container, encrypted_container, unsafe_member_path,
  symlink_entry, symlink_or_hardlink_entry, special_file_entry, corrupt_filesystem,
  corrupt_partition_table, extraction_unavailable, enumeration_failure, member_extraction_failure,
  extraction_time, Relation, contains, decompressed_from, filesystem_entry_of, partition_of,
  embedded_file_of,
}
use avbox.Effects.{Raised, pure, raise, lift, gets, ◌>>=◌, ◌>>◌}
use avbox.Scanning.Scanners.{text_of, add_error}
use avbox.Partitions.{parse_partition_table}
use avbox.Partitions.Types.{PartitionTableError, Partition, PartitionTable}
use avbox.Partitions.Reader.{open_range, chunks}
use avbox.Containers.Names.{Name, safe_name}
use avbox.Containers.State.{
  ExtractionUsage, Work, Action, on_usage, on_job, limit, skip, is_late, discover, each_member,
  members_of, pass_over,
}
use avbox.Containers.Materialize.{Stream}
use avbox.Containers.Sources.{
  Kind, zip, corrupt_zip, partitioned_disk, fat, amiga_adf, lha, iso9660, seven_zip, cab, arj, tar,
  gzip, bzip2, xz, EmbeddedObject, Document, ZipMember, TarMember, ListedMember, Listing, no_tool,
  not_run, refused, listed, ContainerAnalyzer, kind_of,
}
use avbox.Containers.Extract.{set_completeness, note_fault, process_contents}

-- `parse_document`, where the file is not too large; the errors that it handles give no document.
note_document_error : ContainerAnalyzer → Raised → Action (Option Document)
note_document_error env e =
    if env.is_instance e ("DocumentError" ∷ "OSError" ∷ "BadZipFile" ∷ [])
    then note_fault ("document: " ∷ e.kind ∷ ": " ∷ e.text ∷ []) >> pure none
    else raise e

unfoldable pub read_document : ContainerAnalyzer → Bytes → Action (Option Document)
unfolding note_document_error
read_document env file =
    if leb (length file) env.max_document_parser_bytes
    then elim (env.parse_document file) [
      | ok document ↦ pure document
      | err e ↦ note_document_error env e
    ]
    else pure none

-- `_process_object` for one object, and `descend` for its children.
unfoldable pub process_below :
    ContainerAnalyzer
    → (Bytes → InputArtifact → Action (Unit {0}))
    → Bytes
    → InputArtifact
    → ℕ
    → Action (Unit {0})
process_below env descend file parent depth =
    if leb env.budget.max_recursion_depth depth
    then pure tt
    else (read_document env file >>= process_contents env descend parent depth (length file) file)

unfoldable pub process_level :
    ContainerAnalyzer
    → (Bytes → InputArtifact → Action (Unit {0}))
    → Bytes
    → InputArtifact
    → ℕ
    → Action (Unit {0})
process_level env descend file parent depth = do
  late ← is_late env.budget env.elapsed
  if late then limit extraction_time else process_below env descend file parent depth

-- `_process_object`. The fuel is the number of levels that are left: without any, the object is at
-- the deepest level and is not opened.
unfoldable pub process_object :
    ContainerAnalyzer → ℕ → Bytes → InputArtifact → ℕ → Action (Unit {0})
process_object env zero file parent depth = do
  late ← is_late env.budget env.elapsed
  if late then limit extraction_time else pure tt
process_object env (suc fuel) file parent depth =
    process_level env (λ f a. process_object env fuel f a (suc depth)) file parent depth

abbrev pub no_usage : ExtractionUsage
no_usage = record {
  children_discovered = 0;
  children_materialized = 0;
  total_extracted_bytes = 0;
  max_depth_reached = 0;
  limit_events = [];
  materialized_partition_bytes = 0;
}

-- The end of `process`: its handler, or the note that a limit was met.
mark_limits : Work → ScanJob → ScanJob
mark_limits w job =
    if not (length w.usage.limit_events == 0) && str_eq job.completeness "COMPLETE"
    then set_completeness "PARTIAL_LIMIT" job
    else job

end_process : ContainerAnalyzer → Result Raised (Unit {0}) → Action (Unit {0})
unfolding mark_limits
end_process env (ok _) w = (ok tt, record w { job = mark_limits w w.job })
end_process env (err e) w =
    if env.is_instance e ("OSError" ∷ "TarError" ∷ "BadZipFile" ∷ "EOFError" ∷ [])
    then note_fault ("container: " ∷ e.kind ∷ ": " ∷ e.text ∷ []) w
    else (err e, w)

-- The directory for derived objects, with which `process` begins and which it removes at its end.
remove_files : Result Raised (Unit {0}) × Work → Result Raised (Unit {0}) × Work
remove_files (x, w) = (x, record w { files = [] })

-- `process` without the removal of the derived files.
unfoldable pub extract : ContainerAnalyzer → ScanJob → Bytes → Result Raised (Unit {0}) × Work
extract env job file =
    process_object env env.budget.max_recursion_depth file job.input_artifact 0
      (record { job = job; usage = no_usage; readings = 0; files = [] })

-- `process`
unfoldable pub process : ContainerAnalyzer → ScanJob → Bytes → Result Raised (Unit {0}) × Work
unfolding end_process remove_files
process env job file = let (x, w) = extract env job file in remove_files (end_process env x w)
