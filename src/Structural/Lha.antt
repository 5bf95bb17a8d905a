-- ===== src/Structural/Lha.antt =====
-- `_lha` and `_crc16` of src/avbox/analyzers/structural.py: the members of an LHA archive.
pub mod Members
pub mod Archive
use avbox.Prelude.{
  str_eq, eq_iff, str_append, ℕ, zero, suc, ◌+◌, ◌-◌, ◌*◌, ◌/◌, ◌%◌, ◌^◌, ◌≤◌, ◌<◌, min, max,
  String, ◌≡◌, refl, sym, ap, ◌∙◌, fun_ext, ◌≢◌, ◌↔◌, ◌⊎◌, inl, inr, Bool, true, false, not, ◌&&◌,
  ◌||◌, Option, none, some, List, [], ◌∷◌, ◌++◌, map, arith, ltb, leb, ◌==◌, if◌then◌else◌, ltb→lt,
  ltb→le, leb→le, leb→lt, lt→ltb, le→leb, ==→eq, eq→==, ne→==, tests, Bool-cases, Option-cases,
  and_true, or_false, if_both, length, get_or, take, drop, replicate, All, any, all, select,
  length-append, append-nil, append_assoc, take-append-drop, length-take, length-drop,
  length-replicate, take-all, drop-nil, take-nil, drop-drop, take-append-take, All-append, All-take,
  length-map, is_member, Result, ok, err, raise_if, Result-cases,
}
use Prim.Native.Nat.{bit_xor}
use avbox.Prelude.Bytes.{Bytes, byte, slice, le16, le32, starts_with}
use avbox.Structural.Types.{
  StructuralState, truncated, Finding, lha_archive_truncated, lha_header_malformed,
  lha_method_unsupported, lha_header_checksum_mismatch, lha_member_crc_mismatch, contains,
  ObservationType, named, member_method, Value, number, bytes, Observation, StructuralValidation,
}
use avbox.Structural.Results.{result, state_of}

-- A round of the inner loop of `_crc16`.
unfoldable pub crc_bit : ℕ → ℕ
crc_bit crc = bit_xor (crc / 2) (if crc % 2 == 1 then 0xA001 else 0)

unfoldable pub crc_bits : ℕ → ℕ → ℕ
crc_bits zero crc = crc
crc_bits (suc n) crc = crc_bits n (crc_bit crc)

-- `_crc16`, from `crc`
unfoldable pub crc16_from : ℕ → Bytes → ℕ
crc16_from crc [] = crc
crc16_from crc (value ∷ rest) = crc16_from (crc_bits 8 (bit_xor crc value)) rest

unfoldable pub crc16 : Bytes → ℕ
crc16 data_bytes = crc16_from 0 data_bytes

unfoldable pub sum : Bytes → ℕ
sum [] = 0
sum (x ∷ xs) = x + sum xs

-- b"-lh0-"
abbrev pub lh0 : Bytes
lh0 = 45 ∷ 108 ∷ 104 ∷ 48 ∷ 45 ∷ []

-- What is left of the loop: `pos`, `members`, and what has been appended to the lists.
pub record Scan : Type 0 where
  pub position : ℕ
  pub members : ℕ
  pub observations : List Observation
  pub findings : List Finding

abbrev pub note_finding : Finding → Scan → Scan
note_finding f s = record s { findings = s.findings ++ (f ∷ []) }

-- A round ends the loop or goes on to the next one.
pub data Step : Type 0 where
  leave next : Scan → Step

-- `if c: findings.append(f)`
abbrev pub finding_when : Bool → Finding → List Finding
finding_when c f = if c then f ∷ [] else []

-- The round after the test of the method.
unfoldable pub read_member : Bytes → Bytes → Scan → Step
unfolding sum crc16
read_member file header s =
    let end = s.position + length header in
    let packed = le32 header 7 in
    let crc_pos = 22 + byte header 21 in
    let t : Scan = record s {
      findings =
          s.findings
          ++ finding_when (not (sum (slice header 2 (length header)) % 256 == byte header 1))
              lha_header_checksum_mismatch;
    } in
    if ltb (length header) (crc_pos + 2)
    then leave (note_finding lha_header_malformed t)
    else if ltb (length file) (end + packed)
    then leave (note_finding lha_archive_truncated t)
    else next (record {
      position = end + packed;
      members = t.members + 1;
      observations = t.observations;
      findings =
          t.findings
          ++ finding_when (not (crc16 (slice file end (end + packed)) == le16 header crc_pos))
              lha_member_crc_mismatch;
    })

-- The round once the header is cut out.
unfoldable pub check_method : Bytes → Bytes → Scan → Step
check_method file header s =
    let t : Scan = record s {
      observations = s.observations ++ ((member_method s.members, bytes (slice header 2 7)) ∷ []);
    } in
    if starts_with lh0 (slice header 2 7)
    then read_member file header t
    else leave (note_finding lha_method_unsupported t)

-- A round of the loop.
unfoldable pub check_member : Bytes → Scan → Step
check_member file s =
    let end = s.position + byte file s.position + 2 in
    if ltb (length file) (s.position + 22)
    then leave (note_finding lha_archive_truncated s)
    else if ltb (byte file s.position) 22 || ltb (length file) end
    then leave (note_finding lha_header_malformed s)
    else check_method file (slice file s.position end) s

-- `pos < len(data) and data[pos] != 0 and members < self.max_nodes`
abbrev pub goes_on : ℕ → Bytes → Scan → Bool
goes_on max_nodes file s =
    ltb s.position (length file) && (not (byte file s.position == 0) && ltb s.members max_nodes)

-- The loop. Each round that goes on passes at least 24 bytes.
unfoldable pub scan_members : ℕ → Bytes → ℕ → Scan → Option Scan
scan_members max_nodes file zero s = none
scan_members max_nodes file (suc fuel) s = elim (goes_on max_nodes file s) [
  | false ↦ some s
  | true ↦ elim (check_member file s) [
    | leave t ↦ some t
    | next t ↦ scan_members max_nodes file fuel t
  ]
]

abbrev pub scan_start : Scan
scan_start = record { position = 0; members = 0; observations = []; findings = [] }

-- The end of `_lha`.
unfoldable pub lha_result : String → Scan → StructuralValidation
lha_result sha256 s =
    result sha256 "LHA" (some "-lh0-")
      (if contains lha_archive_truncated s.findings then truncated else state_of s.findings)
      (s.observations ++ ((named "LHA_MEMBER_COUNT", number s.members) ∷ [])) s.findings "COMPLETE"

-- `_lha`; `none` means that the fuel ran out.
unfoldable pub validate_lha : ℕ → String → Bytes → Option StructuralValidation
unfolding lha_result
validate_lha max_nodes sha256 file =
    elim (scan_members max_nodes file (length file + 1) scan_start) [
      | none ↦ none
      | some s ↦ some (lha_result sha256 s)
    ]
