-- ===== src/Lib.antt =====
-- AVBox accepts files for malware and format analysis, scans them with external engines and its
-- own analyzers, unpacks containers and disk images recursively, and answers clients over the RAB
-- protocol. This library models the parts that decide what happens to a job and to the bytes of an
-- object; paths below are those of the repository.
--
-- Models: the enumerations and records of src/avbox/models. Models/Verdict is the verdict with
-- aggregate_verdict of src/avbox/application/scanning.py, Models/Job the status of a job and its
-- table of moves, Models/Records the records, with the fields that the modelled code reads or
-- writes; time stamps and evidence inside results are left out.
--
-- Jobs: JobService of src/avbox/application/jobs.py. The SQLite tables are lists of rows, newest
-- first; save, get, transition, the states of scanners, and reconcile_interrupted. Jobs/Refinement
-- sets the table of jobs against a map from identifiers.
--
-- Effects: methods that change an object and may raise, as functions from a state to a result and
-- a state, with try, finally and for. Effects/Keeps has one rule for each of them on the facts
-- that a state keeps. Scanning and Containers use it with states of their own.
--
-- Scanning: ScanService of src/avbox/application/scanning.py. Scanning/Scanners is one round for a
-- requested scanner or analyzer, Scanning/Execute is create_queued, execute_queued and scan_file.
-- Scanner adapters, generic analyzers, the recursive analysis, the correlation and the admission
-- to quarantine are fields of the service.
--
-- Partitions: src/avbox/analyzers/partitions.py. Partitions/Reader is BoundedRangeReader on the
-- bytes of a file, Partitions/Mbr and Partitions/Rdb the two formats, Partitions/Overlap the check
-- for shared bytes, and Partitions itself parse_partition_table. The loop over the blocks of an
-- RDB has fuel for max_partitions + 2 rounds and chunks for one round more than the range has
-- bytes; both are shown to be enough.
--
-- Containers: src/avbox/analyzers/containers.py. Containers/Names is _safe_name on lists of code
-- points, Containers/State the budget, the usage and the loop over members, Containers/Materialize
-- is _materialize on a stream of chunks, Containers/Sources is _kind and the parameters,
-- Containers/Child is _child, Containers/Extract the parts of _process_object for each kind, and
-- Containers/Process is _process_object and process. The recursion has as much fuel as there are
-- levels, which is shown to be enough. The clock is a function of the number of readings, in
-- seconds rounded up, and the comparison with the expansion ratio, a floating-point number, is a
-- test of the budget. The directory of derived files is a list by number. Child jobs are scanned
-- by a parameter that stands for create_queued and execute_queued. The parser of documents, the
-- archive modules of Python and the external tools with the reading of their listings are
-- parameters too.
--
-- DiskImages: src/avbox/analyzers/disk_images.py, on the bytes of a file. DiskImages/Fat is the
-- geometry, the table and chain of _parse_fat, DiskImages/Fat/Tree its directories, and
-- DiskImages/Adf is _parse_adf. The visited directories and the entries are passed along as a
-- record. chain has fuel for two rounds more than there are clusters, the nesting of directories
-- as much as the image has bytes, and the hash chains of an ADF two rounds more than there are
-- blocks, shown to be enough. Python's own limit on the depth of recursion is not modelled. The
-- decoders of text are parameters. The metadata is left out but for the label.
--
-- Structural: src/avbox/analyzers/structural.py, on the bytes of a file. Structural itself is
-- analyze, _validate and _rdb, Structural/Results is _result, and Structural/Lha, Structural/Iso,
-- Structural/Adf and Structural/Fat are the other formats, each with a child for the directories
-- or chains and its proofs below it. Sets and lists that the code fills are passed along as
-- records; a finding is a constructor with a text. The fuel is for a round more than the archive
-- has bytes, for max_nodes + 2 directories of an ISO 9660 image and a row for each byte of a
-- directory, for the blocks of a floppy image and two more, and for a round and a level of
-- directories for each cluster of a FAT image and a few more; it is shown to be enough. Python's
-- own limit on the depth of recursion is not modelled.
--
-- Protocol: src/avbox/protocol/service.py. Protocol/Desk is the state of RABService, with the
-- table rab_jobs of src/avbox/application/jobs.py and accepted, Protocol/Credentials is
-- authenticate, Protocol/Submission is submit_stream, what it does under its lock being one step,
-- Protocol/Worker is one round of _worker, Protocol/Restart the clean-up of uploads at the start,
-- Protocol/Status is status, and Protocol/Shutdown is shutdown on the jobs that no worker has
-- taken. Digests and functions on strings are parameters. The answers with results are not
-- modelled.
--
-- Registry: src/avbox/registry. Registry holds the documents and RegistryService, Registry/Keys
-- the lemmas on _unique.
--
-- Preservation: admit of src/avbox/preservation/service.py on the files of the quarantine, known
-- by SHA-256, with a fault at each call of the operating system. The copy has a round of fuel for
-- each byte of the source and one more, shown to be enough. Effects/Triples has a rule for each
-- statement on what it leads to. The admission of a scan is a field of the scan service.
--
-- Correlation: Correlation/Types is src/avbox/models/correlation.py without time stamps, rights
-- and histories, Correlation/Provider the HTTP provider of src/avbox/correlation/providers.py, and
-- Correlation/Service is src/avbox/correlation/service.py, which gives the contexts and the calls;
-- Correlation/Service/Answers says which they are to be. The server, its JSON and the clock are
-- parameters. Correlation/Provider/Others holds the two providers with fixed answers and the
-- settings that open the HTTP provider.
--
-- Adapters: src/avbox/scanners. Adapters/Command is IsolatedCommandRunner of command.py,
-- Adapters/Output the functions of Python on texts that it needs, and Adapters/Normalize the
-- commands and normalize of adapters.py. The host and the regular expressions are parameters.
-- Adapters/Sound is what a verdict rests on and Adapters/Clean how the command behind CLEAN was
-- run. What the adapters read of versions and definitions is left out.
--
-- Not modelled: the parsers for documents and executables, the static and generic analyzers, the
-- rest of the configuration, the HTTP and command-line interfaces, and the scripts.
--
-- Tests: the theorems at concrete inputs, and runs of the models.
pub mod Prelude
pub mod Models
pub mod Jobs
pub mod Adapters
pub mod Containers
pub mod Correlation
pub mod DiskImages
pub mod Effects
pub mod Partitions
pub mod Preservation
pub mod Protocol
pub mod Registry
pub mod Scanning
pub mod Structural
pub mod Tests
