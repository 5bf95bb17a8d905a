-- ===== src/Structural/Results.antt =====
-- `_result` of src/avbox/analyzers/structural.py: how a validation is put together.
use avbox.Prelude.{
  str_eq, String, Bool, true, false, Option, none, some, List, [], ◌∷◌, if◌then◌else◌,
}
use avbox.Structural.Types.{
  StructuralState, valid, valid_with_warnings, damaged, corrupt, truncated, non_standard, partial,
  unsupported, unknown, Finding, validation_byte_limit, unique_from, Observation,
  StructuralValidation,
}

-- `state.value.lower()`
unfoldable pub lower : StructuralState → String
lower valid = "valid"
lower valid_with_warnings = "valid_with_warnings"
lower damaged = "damaged"
lower corrupt = "corrupt"
lower truncated = "truncated"
lower non_standard = "non_standard"
lower partial = "partial"
lower unsupported = "unsupported"
lower unknown = "unknown"

-- `state == StructuralState.VALID`
abbrev pub is_valid : StructuralState → Bool
is_valid valid = true
is_valid _ = false

-- `_result`, with the artifact's SHA-256.
unfoldable pub result :
    String
    → String
    → Option String
    → StructuralState
    → List Observation
    → List Finding
    → String
    → StructuralValidation
result sha256 format variant state observations findings completeness =
    let unique = unique_from [] findings in
    record {
      format = format;
      variant = variant;
      state = state;
      observations = observations;
      findings = unique;
      assessments =
          if is_valid state
          then []
          else (record { format = format; state = state; evidence_refs = unique } ∷ []);
      completeness = completeness;
      source_sha256 = sha256;
      limit_state =
          if str_eq completeness "PARTIAL_LIMIT" then some "VALIDATION_BYTE_LIMIT" else none;
    }

-- The result where the file is larger than the limit.
unfoldable pub over_limit : String → String → Option String → StructuralValidation
over_limit sha256 format variant =
    result sha256 format variant partial [] (validation_byte_limit ∷ []) "PARTIAL_LIMIT"

-- `StructuralState.VALID if not findings else StructuralState.DAMAGED`
unfoldable pub state_of : List Finding → StructuralState
state_of [] = valid
state_of (f ∷ fs) = damaged
