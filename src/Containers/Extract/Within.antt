-- ===== src/Containers/Extract/Within.antt =====
-- Each kind of container keeps the limits of the extraction.
use avbox.Prelude.{
  str_eq, ℕ, ◌%◌, ◌<◌, String, ◌≡◌, refl, inl, inr, Bool, true, false, not, ◌&&◌, Option, none,
  some, List, ltb, ◌==◌, if◌then◌else◌, Option-cases, if_both, length, Result, ok, err,
}
use avbox.Prelude.Bytes.{Bytes}
use avbox.Models.Records.{
  LimitEvent, InputArtifact, ScanJob, Relation, child_size, encrypted_container, unsafe_member_path,
  symlink_entry, contains, symlink_or_hardlink_entry, special_file_entry, filesystem_entry_of,
  embedded_file_of,
}
use avbox.Effects.{◌>>◌}
use avbox.Effects.Keeps.{
  Keeps, Keeps-pure, Keeps-lift, Keeps-gets, Keeps-if, Keeps-bind, Keeps-then,
}
use avbox.Partitions.Types.{PartitionTableError, Partition, PartitionTable}
use avbox.Prelude.Fueled.{Fueled, done, raised, out_of_fuel}
use avbox.DiskImages.Types.{DiskImageError, DiskImage}
use avbox.Containers.Names.{Name}
use avbox.Containers.State.{ExtractionUsage, Action, on_job, skip, pass_over}
use avbox.Containers.Materialize.{Stream}
use avbox.Containers.Sources.{
  Kind, zip, corrupt_zip, partitioned_disk, fat, amiga_adf, lha, iso9660, seven_zip, cab, arj, tar,
  gzip, bzip2, xz, Document, ZipMember, TarMember, ListedMember, Listing, no_tool, not_run, refused,
  listed, ContainerAnalyzer,
}
use avbox.Containers.Limits.{IsWithin}
use avbox.Containers.Limits.Steps.{
  IsQuiet, IsMild, on_usage-Keeps, on_job-Keeps, limit-Keeps, skip-Keeps, discover-Keeps,
  each_member-Keeps, members_of-Keeps, pass_over-Keeps,
}
use avbox.Containers.Child.Within.{child-Keeps}
use avbox.Containers.Extract.{
  set_completeness, mark_partial, stream_of, note_fault, accepts, give, give_embedded,
  process_document, is_zip_link, give_zip, give_tar_stream, give_tar, give_entry,
  process_disk_image, give_extracted, give_listed, process_external_archive, charge_partition,
  give_range, give_partition, note_table_errors, process_partitioned_disk, give_stream,
  process_compressed, process_kind, process_contents,
}

pub set_completeness-IsMild : (text : String) → IsMild (set_completeness text)
unfolding set_completeness
set_completeness-IsMild text = record { derived = λ j. refl; related = λ j. refl }

mark_partial-IsMild : (env : ContainerAnalyzer) (d : Document) → IsMild (mark_partial env d)
unfolding mark_partial set_completeness
mark_partial-IsMild env d = elim (Option-cases d.partial) [
  | inl e ↦ rw e (record { derived = λ j. refl; related = λ j. refl })
  | inr (t, e) ↦ rw e (record {
    derived = λ j.
        if_both (λ (k : ScanJob). k.derived_objects ≡ j.derived_objects)
          (not (str_eq t "") && str_eq j.completeness "COMPLETE") refl refl;
    related = λ j.
        if_both (λ (k : ScanJob). k.relationships ≡ j.relationships)
          (not (str_eq t "") && str_eq j.completeness "COMPLETE") refl refl;
  })
]

note_table_errors-IsMild :
    (env : ContainerAnalyzer) (descend : Bytes → InputArtifact → Action (Unit {0}))
    (parent : InputArtifact) (depth parent_size : ℕ) (t : PartitionTable)
    → IsMild (note_table_errors env descend parent depth parent_size t)
unfolding note_table_errors set_completeness
note_table_errors-IsMild env descend parent depth parent_size t = record {
  derived = λ j.
      if_both (λ (k : ScanJob). k.derived_objects ≡ j.derived_objects) (length t.errors == 0) refl
        refl;
  related = λ j.
      if_both (λ (k : ScanJob). k.relationships ≡ j.relationships) (length t.errors == 0) refl refl;
}

module _ (env : ContainerAnalyzer) where
  pub note_fault-Keeps : (texts : List String) → Keeps (IsWithin env.budget) (note_fault texts)
  unfolding note_fault set_completeness
  note_fault-Keeps texts =
      on_job-Keeps env.budget _ (record { derived = λ j. refl; related = λ j. refl })

module _ (env : ContainerAnalyzer) (descend : Bytes → InputArtifact → Action (Unit {0}))
    (deeper : (f : Bytes) (a : InputArtifact) → Keeps (IsWithin env.budget) (descend f a)) where
  mark-Keeps :
      (event : LimitEvent) (text : String)
      → Keeps (IsWithin env.budget) (skip event >> on_job (set_completeness text))
  mark-Keeps event text =
      Keeps-then _ _ (skip-Keeps env.budget event)
        (on_job-Keeps env.budget _ (set_completeness-IsMild text))

  guard-Keeps :
      (b : Bool) (event : LimitEvent) (k : Action Bool)
      → Keeps (IsWithin env.budget) k
      → Keeps (IsWithin env.budget) (if b then pass_over event else k)
  guard-Keeps b event k kk = Keeps-if b _ k (pass_over-Keeps env.budget event) kk

  module _ (parent : InputArtifact) (depth parent_size : ℕ)
      (high : depth < env.budget.max_recursion_depth) where
    give-Keeps :
        (name : Name) (index : ℕ) (relation : Relation) (stream : Stream)
        → Keeps
            (IsWithin env.budget)
            (give env descend parent depth parent_size name index relation stream)
    unfolding give
    give-Keeps name index relation stream =
        Keeps-then _ _ (child-Keeps env descend deeper parent depth parent_size _ high)
          (Keeps-pure true)

    process_document-Keeps :
        (d : Document)
        → Keeps (IsWithin env.budget) (process_document env descend parent depth parent_size d)
    unfolding process_document give_embedded
    process_document-Keeps d =
        Keeps-then _ _ (on_job-Keeps env.budget _ (mark_partial-IsMild env d)) (
          members_of-Keeps env.budget d.children _
            (λ i o. give-Keeps o.name i embedded_file_of (stream_of o.data_bytes)))

    give_zip-Keeps :
        (i : ℕ) (m : ZipMember)
        → Keeps (IsWithin env.budget) (give_zip env descend parent depth parent_size i m)
    unfolding give_zip
    give_zip-Keeps i m = guard-Keeps (m.flag_bits % 2 == 1) encrypted_container _ (
        guard-Keeps (not (accepts env m.filename)) unsafe_member_path _ (
          guard-Keeps (is_zip_link env descend parent depth parent_size m) symlink_entry _ (
            guard-Keeps (ltb env.budget.max_single_child_bytes m.file_size) child_size _
              (Keeps-bind _ _ (Keeps-lift m.opened) (give-Keeps m.filename i contains)))))

    give_tar_stream-Keeps :
        (i : ℕ) (name : Name) (s : Option Stream)
        → Keeps
            (IsWithin env.budget)
            (give_tar_stream env descend parent depth parent_size i name s)
    unfolding give_tar_stream
    give_tar_stream-Keeps i name none = Keeps-pure true
    give_tar_stream-Keeps i name (some s) = give-Keeps name i contains s

    give_tar-Keeps :
        (i : ℕ) (m : TarMember)
        → Keeps (IsWithin env.budget) (give_tar env descend parent depth parent_size i m)
    unfolding give_tar
    give_tar-Keeps i m = guard-Keeps (not (accepts env m.name)) unsafe_member_path _ (
        guard-Keeps (m.is_link) symlink_or_hardlink_entry _ (
          guard-Keeps (not m.is_file) special_file_entry _ (
            guard-Keeps (ltb env.budget.max_single_child_bytes m.size) child_size _
              (Keeps-bind _ _ (Keeps-lift m.opened) (give_tar_stream-Keeps i m.name)))))

    process_disk_image-Keeps :
        (r : Fueled DiskImageError (Option DiskImage))
        → Keeps (IsWithin env.budget) (process_disk_image env descend parent depth parent_size r)
    unfolding process_disk_image give_entry
    process_disk_image-Keeps (raised e) =
        Keeps-then _ _ (skip-Keeps env.budget _) (note_fault-Keeps env _)
    process_disk_image-Keeps out_of_fuel = Keeps-pure tt
    process_disk_image-Keeps (done none) = Keeps-pure tt
    process_disk_image-Keeps (done (some image)) =
        members_of-Keeps env.budget image.entries _ (λ i e.
          Keeps-if _ _ _ (pass_over-Keeps env.budget _)
            (give-Keeps e.path e.index filesystem_entry_of (stream_of e.data_bytes)))

    give_extracted-Keeps :
        (k : Kind) (i : ℕ) (name : Name) (s : Option Stream)
        → Keeps
            (IsWithin env.budget)
            (give_extracted env descend parent depth parent_size k i name s)
    unfolding give_extracted
    give_extracted-Keeps k i name none = pass_over-Keeps env.budget _
    give_extracted-Keeps k i name (some s) = give-Keeps name i _ s

    give_listed-Keeps :
        (k : Kind) (file : Bytes) (i : ℕ) (m : ListedMember)
        → Keeps (IsWithin env.budget) (give_listed env descend parent depth parent_size k file i m)
    unfolding give_listed
    give_listed-Keeps k file i m = Keeps-if _ _ _ (pass_over-Keeps env.budget _) (
        Keeps-if _ _ _ (Keeps-pure true) (
          Keeps-bind _ _ (Keeps-lift _) (λ n.
            Keeps-if _ _ _ (pass_over-Keeps env.budget _)
              (Keeps-bind _ _ (Keeps-lift _) (give_extracted-Keeps k i m.name)))))

    process_external_archive-Keeps :
        (k : Kind) (file : Bytes) (l : Listing)
        → Keeps
            (IsWithin env.budget)
            (process_external_archive env descend parent depth parent_size k file l)
    unfolding process_external_archive
    process_external_archive-Keeps k file no_tool = mark-Keeps _ _
    process_external_archive-Keeps k file not_run = mark-Keeps _ _
    process_external_archive-Keeps k file (refused true) = mark-Keeps _ _
    process_external_archive-Keeps k file (refused false) = mark-Keeps _ _
    process_external_archive-Keeps k file (listed members) =
        members_of-Keeps env.budget members _ (give_listed-Keeps k file)

    charge_partition-IsQuiet :
        (before n : ℕ) → IsQuiet (charge_partition env descend parent depth parent_size before n)
    unfolding charge_partition
    charge_partition-IsQuiet before n = record {
      children = λ u.
          if_both (λ (v : ExtractionUsage). v.children_materialized ≡ u.children_materialized)
            (ltb before u.children_materialized) refl refl;
      bytes = λ u.
          if_both (λ (v : ExtractionUsage). v.total_extracted_bytes ≡ u.total_extracted_bytes)
            (ltb before u.children_materialized) refl refl;
      depth = λ u.
          if_both (λ (v : ExtractionUsage). v.max_depth_reached ≡ u.max_depth_reached)
            (ltb before u.children_materialized) refl refl;
    }

    give_range-Keeps :
        (file : Bytes) (p : Partition)
        → Keeps (IsWithin env.budget) (give_range env descend parent depth parent_size file p)
    unfolding give_range
    give_range-Keeps file p = Keeps-bind _ _ (Keeps-lift _) (λ s.
        Keeps-bind _ _ (Keeps-gets _) (λ before. Keeps-bind _ _ (give-Keeps _ _ _ s) (λ _.
          Keeps-then _ _ (on_usage-Keeps env.budget _ (charge_partition-IsQuiet before p.length))
            (Keeps-pure true))))

    give_partition-Keeps :
        (file : Bytes) (i : ℕ) (p : Partition)
        → Keeps (IsWithin env.budget) (give_partition env descend parent depth parent_size file i p)
    unfolding give_partition
    give_partition-Keeps file i p =
        Keeps-if _ _ _ (Keeps-then _ _ (limit-Keeps env.budget _) (Keeps-pure true)) (
          Keeps-bind _ _ (Keeps-gets _) (λ n.
            Keeps-if _ _ _ (Keeps-then _ _ (limit-Keeps env.budget _) (Keeps-pure false))
              (give_range-Keeps file p)))

    process_partitioned_disk-Keeps :
        (file : Bytes) (t : Option (Result PartitionTableError (Option PartitionTable)))
        → Keeps
            (IsWithin env.budget)
            (process_partitioned_disk env descend parent depth parent_size file t)
    unfolding process_partitioned_disk
    process_partitioned_disk-Keeps file (some (err e)) =
        Keeps-then _ _ (skip-Keeps env.budget _) (note_fault-Keeps env _)
    process_partitioned_disk-Keeps file (some (ok (some t))) =
        Keeps-then _ _
          (on_job-Keeps env.budget _
            (note_table_errors-IsMild env descend parent depth parent_size t))
          (each_member-Keeps env.budget 0 t.partitions _ (give_partition-Keeps file))
    process_partitioned_disk-Keeps file (some (ok none)) = Keeps-pure tt
    process_partitioned_disk-Keeps file none = Keeps-pure tt

    process_compressed-Keeps :
        (k : Kind) (file : Bytes)
        → Keeps
            (IsWithin env.budget)
            (process_compressed env descend parent depth parent_size k file)
    unfolding process_compressed give_stream
    process_compressed-Keeps k file = Keeps-bind _ _ (Keeps-lift _) (λ s.
        Keeps-then _ _ (discover-Keeps env.budget)
          (child-Keeps env descend deeper parent depth parent_size _ high))

    process_kind-Keeps :
        (file : Bytes) (k : Option Kind)
        → Keeps (IsWithin env.budget) (process_kind env descend parent depth parent_size file k)
    unfolding process_kind
    process_kind-Keeps file none = Keeps-pure tt
    process_kind-Keeps file (some corrupt_zip) = mark-Keeps _ _
    process_kind-Keeps file (some zip) =
        Keeps-bind _ _ (Keeps-lift _) (λ ms. members_of-Keeps env.budget ms _ give_zip-Keeps)
    process_kind-Keeps file (some partitioned_disk) = process_partitioned_disk-Keeps file _
    process_kind-Keeps file (some fat) = process_disk_image-Keeps _
    process_kind-Keeps file (some amiga_adf) = process_disk_image-Keeps _
    process_kind-Keeps file (some tar) =
        Keeps-bind _ _ (Keeps-lift _) (λ ms. members_of-Keeps env.budget ms _ give_tar-Keeps)
    process_kind-Keeps file (some gzip) = process_compressed-Keeps gzip file
    process_kind-Keeps file (some bzip2) = process_compressed-Keeps bzip2 file
    process_kind-Keeps file (some xz) = process_compressed-Keeps xz file
    process_kind-Keeps file (some lha) = process_external_archive-Keeps lha file _
    process_kind-Keeps file (some iso9660) = process_external_archive-Keeps iso9660 file _
    process_kind-Keeps file (some seven_zip) = process_external_archive-Keeps seven_zip file _
    process_kind-Keeps file (some cab) = process_external_archive-Keeps cab file _
    process_kind-Keeps file (some arj) = process_external_archive-Keeps arj file _

    pub process_contents-Keeps :
        (file : Bytes) (d : Option Document)
        → Keeps (IsWithin env.budget) (process_contents env descend parent depth parent_size file d)
    unfolding process_contents
    process_contents-Keeps file (some d) = process_document-Keeps d
    process_contents-Keeps file none = Keeps-bind _ _ (Keeps-lift _) (process_kind-Keeps file)
