-- ===== src/Tests/Containers.antt =====
-- src/avbox/analyzers/containers.py on a small archive.
use avbox.Prelude.{
  ◌*◌, ◌≡◌, refl, true, false, none, [], ◌∷◌, arith, ltb, ◌==◌, length, get_or, any, is_member, ok,
}
use avbox.Prelude.Bytes.{Bytes, join}
use avbox.Models.Job.{running}
use avbox.Models.Records.{Hashes}
use avbox.Tests.DiskImages.{codecs}
use avbox.Containers.Names.{
  Name, safe_name, encoded_size, split, encoded_length, is_rooted, has_drive, parts, is_up,
}
use avbox.Containers.Names.Paths.{StaysUnder, safe_name-StaysUnder}
use avbox.Containers.State.{ExtractionBudget, Work}
use avbox.Containers.Materialize.{Stream, materialize}
use avbox.Containers.Materialize.Content.{Materialized, until_empty, materialize-Materialized}
use avbox.Containers.Sources.{ContainerAnalyzer, ZipMember, no_tool}
use avbox.Containers.Limits.{IsWithin}
use avbox.Containers.Process.{no_usage, process_object, extract}
use avbox.Containers.Process.Within.{extract-IsWithin, process_object-enough}
use avbox.Tests.Jobs.{job_of}

-- "a/b"
abbrev inner_name : Name
inner_name = 97 ∷ 47 ∷ 98 ∷ []

inner_name-safe : safe_name 1024 8 inner_name ≡ true
unfolding safe_name encoded_length encoded_size is_member is_rooted has_drive parts split any is_up
inner_name-safe = refl

-- "../b"
climbing_name-unsafe : safe_name 1024 8 (46 ∷ 46 ∷ 47 ∷ 98 ∷ []) ≡ false
unfolding safe_name encoded_length encoded_size is_member is_rooted has_drive parts split any is_up
climbing_name-unsafe = refl

safe_name-StaysUnder_example : StaysUnder 8 ((111 ∷ []) ∷ []) inner_name
safe_name-StaysUnder_example =
    safe_name-StaysUnder 1024 8 inner_name ((111 ∷ []) ∷ []) inner_name-safe

-- Two levels, two children, four bytes for each child and six together.
abbrev budget : ExtractionBudget
budget = record {
  max_recursion_depth = 2;
  max_children_per_object = 4;
  max_total_children = 2;
  max_single_child_bytes = 4;
  max_total_extracted_bytes = 6;
  exceeds_ratio = λ extracted size. ltb (100 * size) extracted;
  max_member_name_bytes = 1024;
  max_path_depth = 8;
  max_extraction_time_seconds = 60;
  max_partitions_per_disk = 32;
  max_materialized_partition_bytes = 100;
  max_total_materialized_partition_bytes = 100;
}

abbrev digests : Bytes → Hashes
digests content = record { sha256 = "aa"; blake3 = "bb"; sha1 = "cc"; md5 = "dd" }

abbrev member : Name → Bytes → ZipMember
member name content = record {
  filename = name;
  flag_bits = 0;
  external_attr = 0;
  file_size = length content;
  opened = ok (record { chunks = content ∷ []; failure = none });
}

-- A file that starts with 80 is an archive of three members, one with an unsafe name.
abbrev analyzer : ContainerAnalyzer
analyzer = record {
  budget = budget;
  max_document_parser_bytes = 0;
  elapsed = λ n. n;
  hash_file = digests;
  scan = λ artifact requested content. ok (job_of 8 "derived:7" running);
  is_instance = λ e names. false;
  upper = λ s. s;
  name_text = λ name. "member";
  child_filename = λ n. "child";
  partition_name = λ n. 112 ∷ [];
  table_error_text = λ e. "error";
  table_fault = λ e. record { kind = "PartitionTableError"; text = "error" };
  parse_document = λ file. ok none;
  codecs = codecs;
  disk_fault = λ e. record { kind = "DiskImageError"; text = "error" };
  is_zipfile = λ file. get_or file 0 0 == 80;
  is_tarfile = λ file. ok false;
  open_zip = λ file. ok (
      member inner_name (1 ∷ 2 ∷ 3 ∷ [])
      ∷ member (47 ∷ []) (1 ∷ [])
      ∷ member (99 ∷ []) (4 ∷ 5 ∷ [])
      ∷ []);
  open_tar = λ file. ok [];
  open_compressed = λ kind file. ok (record { chunks = []; failure = none });
  list_archive = λ kind file. no_tool;
  extract_member = λ kind file name. ok none;
}

abbrev archive : Bytes
archive = 80 ∷ 75 ∷ []

abbrev begin : Work
begin = record { job = job_of 7 "local-cli" running; usage = no_usage; readings = 0; files = [] }

abbrev two_chunks : Stream
two_chunks = record { chunks = (1 ∷ 2 ∷ []) ∷ (3 ∷ []) ∷ [] ∷ (9 ∷ []) ∷ []; failure = none }

two_chunks-fresh : any (λ f. f.0 == 0) begin.files ≡ false
unfolding any
two_chunks-fresh = refl

materialize-Materialized_example :
    Materialized budget
      (join (until_empty two_chunks.chunks))
      0
      begin
      (materialize budget (λ n. n) two_chunks 0 2 begin)
materialize-Materialized_example =
    materialize-Materialized budget (λ n. n) two_chunks 0 2 begin two_chunks-fresh (omega arith)

extract-IsWithin_example :
    IsWithin budget (extract analyzer (job_of 7 "local-cli" running) archive).1
extract-IsWithin_example =
    extract-IsWithin analyzer (job_of 7 "local-cli" running) archive refl refl

process_object-enough_example :
    process_object analyzer 2 archive (job_of 7 "local-cli" running).input_artifact 0
    ≡ process_object analyzer 3 archive (job_of 7 "local-cli" running).input_artifact 0
process_object-enough_example =
    process_object-enough analyzer 2 archive (job_of 7 "local-cli" running).input_artifact 0
      (omega arith)
