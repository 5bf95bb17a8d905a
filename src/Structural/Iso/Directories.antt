-- ===== src/Structural/Iso/Directories.antt =====
-- `_iso_directories` of src/avbox/analyzers/structural.py: the directories of an ISO 9660 image.
use avbox.Prelude.{
  ℕ, zero, suc, ◌+◌, ◌-◌, ◌*◌, ◌/◌, Bool, true, false, not, ◌&&◌, ◌||◌, List, [], ◌∷◌, ◌++◌, ltb,
  leb, ◌==◌, if◌then◌else◌, length,
}
use avbox.Prelude.Bytes.{Bytes, byte, slice, le32}
use avbox.Prelude.Fueled.{Fueled, done, raised, out_of_fuel, ◌>>=◌}
use avbox.DiskImages.Fat.Tree.{has_bit}
use avbox.Structural.Types.{
  Finding, iso_directory_extent_out_of_range, iso_directory_record_malformed,
  iso_file_extent_out_of_range, iso_directory_node_limit,
}

-- `ZeroDivisionError`
pub data IsoError : Type 0 where
  zero_division : IsoError

-- `pending` with the last one first, `seen`, `nodes` and `findings`.
pub record Walk : Type 0 where
  pub pending : List Bytes
  pub seen : List (ℕ × ℕ)
  pub nodes : ℕ
  pub findings : List Finding

abbrev pub note_walk : Finding → Walk → Walk
note_walk f w = record w { findings = w.findings ++ (f ∷ []) }

-- `key in seen`
unfoldable pub is_seen : ℕ → ℕ → List (ℕ × ℕ) → Bool
is_seen extent size [] = false
is_seen extent size (k ∷ ks) = (k.0 == extent && k.1 == size) || is_seen extent size ks

-- `extent * block_size > size or length > size - extent * block_size`
abbrev pub is_outside : ℕ → ℕ → Bytes → Bool
is_outside block_size size record_bytes =
    ltb size (le32 record_bytes 2 * block_size)
    || ltb (size - le32 record_bytes 2 * block_size) (le32 record_bytes 10)

-- b"\0" and b"\1", the entries for the directory and its parent.
unfoldable pub is_self : Bytes → Bool
is_self (x ∷ []) = x == 0 || x == 1
is_self _ = false

-- `row[25] & 2 and row[33 : 33 + name_len] not in {b"\0", b"\1"}`
unfoldable pub is_directory : Bytes → Bool
unfolding is_self
is_directory row = has_bit (byte row 25) 2 && not (is_self (slice row 33 (33 + byte row 32)))

-- What a row that is whole adds.
unfoldable pub add_row : ℕ → ℕ → Bytes → Walk → Walk
unfolding is_directory
add_row block_size size row w = record w {
  pending = if is_directory row then row ∷ w.pending else w.pending;
  findings =
      if is_outside block_size size row
      then w.findings ++ (iso_file_extent_out_of_range ∷ [])
      else w.findings;
}

-- A round of the inner loop: it leaves it, or goes on at a position.
pub data RowStep : Type 0 where
  leave : Walk → RowStep
  next : ℕ → Walk → RowStep
  divides : RowStep

abbrev pub count_node : Walk → Walk
count_node w = record w { nodes = w.nodes + 1 }

unfoldable pub read_row : ℕ → ℕ → Bytes → ℕ → Walk → RowStep
unfolding add_row
read_row block_size size directory position w =
    let row_len = byte directory position in
    let row = slice directory position (position + row_len) in
    if row_len == 0
    then (if block_size == 0
        then divides
        else next ((position / block_size + 1) * block_size) (count_node w))
    else if ltb row_len 34 || ltb (length directory) (position + row_len)
    then leave (note_walk iso_directory_record_malformed (count_node w))
    else if ltb row_len (33 + byte row 32)
    then leave (note_walk iso_directory_record_malformed (count_node w))
    else next (position + row_len) (add_row block_size size row (count_node w))

-- The inner loop. Each round passes a byte at least.
unfoldable pub read_rows : ℕ → ℕ → Bytes → ℕ → ℕ → Walk → Fueled IsoError Walk
read_rows block_size size directory zero position w = out_of_fuel
read_rows block_size size directory (suc fuel) position w = elim (leb (length directory) position) [
  | true ↦ done w
  | false ↦ elim (read_row block_size size directory position w) [
    | leave t ↦ done t
    | next p t ↦ read_rows block_size size directory fuel p t
    | divides ↦ raised zero_division
  ]
]

-- The bytes of a directory.
abbrev pub directory_of : Bytes → ℕ → Bytes → Bytes
directory_of file block_size row =
    slice file (le32 row 2 * block_size) (le32 row 2 * block_size + le32 row 10)

-- A round of the outer loop, on the directory that `pending.pop()` gives.
unfoldable pub visit : ℕ → Bytes → Bytes → Walk → Fueled IsoError Walk
visit block_size file row w =
    let known : Walk = record w { seen = (le32 row 2, le32 row 10) ∷ w.seen } in
    let directory = directory_of file block_size row in
    if is_seen (le32 row 2) (le32 row 10) w.seen
    then done w
    else if is_outside block_size (length file) row
    then done (note_walk iso_directory_extent_out_of_range known)
    else read_rows block_size (length file) directory (length directory + 1) 0 known

-- The outer loop. A round needs a directory that a node has brought, or the root.
unfoldable pub walk : ℕ → ℕ → Bytes → ℕ → Walk → Fueled IsoError Walk
walk max_nodes block_size file zero w = out_of_fuel
walk max_nodes block_size file (suc fuel) w = elim w.pending [
  | [] ↦ done w
  | row ∷ rest ↦ elim (ltb w.nodes max_nodes) [
    | false ↦ done w
    | true ↦
        visit block_size file row (record w { pending = rest })
        >>= walk max_nodes block_size file fuel
  ]
]

-- `pending or nodes >= self.max_nodes`
abbrev pub is_limited : ℕ → Walk → Bool
is_limited max_nodes w = not (length w.pending == 0) || leb max_nodes w.nodes

-- `_iso_directories`: what it appends to `findings`.
unfoldable pub iso_directories :
    ℕ → ℕ → Bytes → Bytes → List Finding → Fueled IsoError (List Finding)
iso_directories max_nodes block_size file root findings = do
  w ←
      walk max_nodes block_size file (max_nodes + 2)
        (record { pending = root ∷ []; seen = []; nodes = 0; findings = findings })
  done
      (if is_limited max_nodes w then w.findings ++ (iso_directory_node_limit ∷ []) else w.findings)
