-- ===== src/Tests/Structural.antt =====
-- src/avbox/analyzers/structural.py on small files.
use avbox.Prelude.{◌≡◌, refl, ◌↔◌, none, some, List, [], ◌∷◌, ◌++◌, replicate, is_member}
use avbox.Prelude.Bytes.{Bytes, slice, le16, le32, starts_with}
use avbox.Prelude.Fueled.{done, raised, ◌>>=◌}
use avbox.Prelude.Stops.{Stops}
use avbox.DiskImages.Fat.Tree.{is_skipped}
use avbox.Structural.Types.{
  valid, damaged, Finding, contains, lha_header_checksum_mismatch, lha_member_crc_mismatch,
  member_method, bytes, StructuralValidation,
}
use avbox.Structural.Results.{result}
use avbox.Structural.Reports.{Once, result-Once}
use avbox.Structural.Lha.{
  crc_bit, crc_bits, crc16_from, crc16, sum, check_method, check_member, read_member, scan_members,
  scan_start, validate_lha,
}
use avbox.Structural.Lha.Archive.{IsArchive, validate_lha-IsArchive}
use avbox.Structural.Iso.{volume_of, validate_iso}
use avbox.Structural.Iso.Directories.{IsoError, zero_division, read_row, read_rows}
use avbox.Structural.Iso.Readable.{IsVolume, IsZero, validate_iso-IsVolume}
use avbox.Structural.Fat.Directory.{row_kind, fat_entry, fat_rows}
use avbox.Structural.Fat.Chain.{
  fat_value, bytes_eq, is_crosslinked, follow_value, chain_step, chain_from, cut_chain, fat_chain,
}
use avbox.Structural.{Validator}
use avbox.Tests.DiskImages.{codecs, small, image}

-- An archive with one member, the byte 65.
abbrev archive : Bytes
archive =
    22 ∷ 79 ∷ 45 ∷ 108 ∷ 104 ∷ 48 ∷ 45 ∷ 1 ∷ 0 ∷ 0 ∷ 0 ∷ 0 ∷ 0 ∷ 0 ∷ 0 ∷ 0 ∷ 0 ∷ 0 ∷ 0 ∷ 0 ∷ 0 ∷ 0
    ∷ 192 ∷ 48 ∷ 65 ∷ 0 ∷ []

crc16_one : crc16 (65 ∷ []) ≡ 12480
unfolding crc16 crc16_from crc_bits crc_bit
crc16_one = refl

scan_archive :
    scan_members 10 archive 30 scan_start
    ≡ some (record {
      position = 25;
      members = 1;
      observations = (member_method 0, bytes (45 ∷ 108 ∷ 104 ∷ 48 ∷ 45 ∷ [])) ∷ [];
      findings = [];
    })
unfolding scan_members check_member check_method read_member sum crc16 crc16_from crc_bits crc_bit
    starts_with slice le32 le16
scan_archive = refl

validate_lha-IsArchive_example :
    (v : StructuralValidation) × (validate_lha 10 "00" archive ≡ some v)
    × ((v.state ≡ valid) ↔ IsArchive 10 archive)
validate_lha-IsArchive_example = validate_lha-IsArchive 10 "00" archive

-- A directory that begins with the byte 0, where the block size is 0.
read_rows_divides :
    read_rows 0 100 (0 ∷ []) 2 0 (record { pending = []; seen = []; nodes = 0; findings = [] })
    ≡ raised zero_division
unfolding read_rows read_row
read_rows_divides = refl

-- 18 sectors, a primary descriptor and a terminator the last two.
abbrev iso_image : Bytes
iso_image =
    replicate 32768 0
    ++ (1 ∷ 67 ∷ 68 ∷ 48 ∷ 48 ∷ 49 ∷ 1 ∷ [])
    ++ replicate 2041 0
    ++ (255 ∷ 67 ∷ 68 ∷ 48 ∷ 48 ∷ 49 ∷ 1 ∷ [])
    ++ replicate 2041 0

validate_iso-IsVolume_example :
    Stops
      (λ (v : StructuralValidation). v.state ≡ valid → (pvd : Bytes) × IsVolume iso_image pvd)
      (λ (e : IsoError). IsZero (volume_of iso_image).pvd)
      (validate_iso 10 "00" iso_image)
validate_iso-IsVolume_example = validate_iso-IsVolume 10 "00" iso_image

-- A file "A" of six bytes that begins at cluster 2.
abbrev row_a : Bytes
row_a = (65 ∷ []) ++ replicate 25 0 ++ (2 ∷ 0 ∷ 6 ∷ 0 ∷ 0 ∷ 0 ∷ [])

abbrev owner_a : Bytes
owner_a = 47 ∷ 65 ∷ replicate 10 0

-- Two entries of the same name share their clusters, and nothing is found.
fat_rows_same :
    fat_rows codecs
      (λ content path t. done t)
      10
      small
      image
      (slice image 4 16)
      []
      (row_a ∷ row_a ∷ [])
      (record { used = []; reachable = []; findings = []; dirs = [] })
    ≡ done (record {
      used = (4, owner_a) ∷ (2, owner_a) ∷ (4, owner_a) ∷ (2, owner_a) ∷ [];
      reachable = 4 ∷ 2 ∷ 4 ∷ 2 ∷ [];
      findings = [];
      dirs = [];
    })
unfolding fat_rows row_kind fat_entry fat_chain chain_from chain_step follow_value fat_value
    cut_chain is_crosslinked bytes_eq ◌>>=◌ is_member is_skipped slice le16 le32
fat_rows_same = refl

abbrev validator : Validator
validator = record { max_bytes = 100; max_nodes = 10; codecs = codecs }

abbrev found_twice : List Finding
found_twice = lha_member_crc_mismatch ∷ lha_header_checksum_mismatch ∷ lha_member_crc_mismatch ∷ []

result-Once_example :
    Once (result "00" "LHA" none damaged [] found_twice "COMPLETE").findings
    × ((f : Finding)
        → contains f (result "00" "LHA" none damaged [] found_twice "COMPLETE").findings
          ≡ contains f found_twice)
    × (((result "00" "LHA" none damaged [] found_twice "COMPLETE").assessments ≡ [])
        ↔ (damaged ≡ valid))
result-Once_example = result-Once "00" "LHA" none damaged [] found_twice "COMPLETE"
