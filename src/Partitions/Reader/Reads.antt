-- ===== src/Partitions/Reader/Reads.antt =====
-- What `BoundedRangeReader` reads lies inside its range, and its chunks make up the range.
use avbox.Prelude.{
  ℕ, zero, suc, ◌+◌, ◌-◌, ◌≤◌, ◌<◌, min, ◌≡◌, sym, ap, ◌∙◌, inl, inr, some, List, [], ◌∷◌, ◌++◌,
  arith, ltb, ltb→lt, ltb→le, Bool-cases, length, All, ok,
}
use avbox.Prelude.Bytes.{Bytes, slice, length-slice, slice-append, slice-empty, join}
use avbox.Prelude.Int.{ℤ, pos, negsuc, add_ℕ}
use avbox.Partitions.Reader.{
  BoundedRangeReader, Whence, open_range, seek, read, wanted, move_to, origin, prepend, read_chunks,
  chunks,
}

-- What the constructor checks, and every operation keeps.
pub record IsValid (r : BoundedRangeReader) : Type 0 where
  pub fits : r.start + r.length ≤ r.root_size
  pub within : r.position ≤ r.length

pub open_range-IsValid :
    (start length : ℤ) (root_size : ℕ) {r : BoundedRangeReader}
    → open_range start length root_size ≡ ok r
    → IsValid r
unfolding open_range
open_range-IsValid (pos start) (pos length) root_size h = ground arith
open_range-IsValid (pos start) (negsuc length) root_size h = ground arith
open_range-IsValid (negsuc start) length root_size h = ground arith

move_to-IsValid :
    (r : BoundedRangeReader) (target : ℤ) {n : ℕ} {r' : BoundedRangeReader}
    → IsValid r
    → move_to r target ≡ ok (n, r')
    → IsValid r' × (r'.position ≡ n)
unfolding move_to
move_to-IsValid r (pos target) v h = ground arith
move_to-IsValid r (negsuc target) v h = ground arith

pub seek-IsValid :
    (offset : ℤ) (whence : Whence) (r : BoundedRangeReader) {n : ℕ} {r' : BoundedRangeReader}
    → IsValid r
    → seek offset whence r ≡ ok (n, r')
    → IsValid r' × (r'.position ≡ n)
unfolding seek
seek-IsValid offset whence r v h = move_to-IsValid r (add_ℕ (origin whence r) offset) v h

-- Whatever size is asked for, a read that succeeds returns bytes of the range, from the position
-- on, and moves the position by as many; the reader stays valid and over the same range.
pub read-IsValid :
    (root : Bytes) (size : ℤ) (r : BoundedRangeReader) {value : Bytes} {r' : BoundedRangeReader}
    → IsValid r
    → read root size r ≡ ok (value, r')
    → IsValid r'
      × (r'.start ≡ r.start)
      × (r'.length ≡ r.length)
      × (r'.position ≡ r.position + length value)
      × (value ≡ slice root (r.start + r.position) (r.start + r'.position))
unfolding read wanted
read-IsValid root (pos n) r v h = ground arith
read-IsValid root (negsuc n) r v h = ground arith

-- On a root file of the recorded size a read of a number of bytes succeeds.
read_ok :
    (root : Bytes) (n : ℕ) (r : BoundedRangeReader)
    → IsValid r
    → length root ≡ r.root_size
    → n ≤ r.length - r.position
    → read root (pos n) r
      ≡ ok (
        slice root (r.start + r.position) (r.start + r.position + n),
        record r { position = r.position + n },
      )
unfolding read wanted
read_ok root n r v whole fits =
    let e : min n (r.length - r.position) ≡ n = omega arith in
    let at = r.start + r.position in
    let l : length (slice root at (at + n)) ≡ n = omega (arith, length-slice root at (at + n)) in
    rw (e, l) (ground arith)

-- A list of chunks holds the bytes of a range, in pieces of a bounded size.
pub record Covers (chunk_size : ℕ) (range : Bytes) (cs : List Bytes) : Type 0 where
  pub bounded : All (λ c. length c ≤ chunk_size) cs
  pub joined : join cs ≡ range

read_chunks_lem :
    (fuel : ℕ) (root : Bytes) (chunk_size : ℕ) (r : BoundedRangeReader)
    → IsValid r
    → length root ≡ r.root_size
    → 0 < chunk_size
    → r.length - r.position < fuel
    → (cs : List Bytes) × (read_chunks fuel root chunk_size r ≡ some (ok cs))
      × Covers chunk_size (slice root (r.start + r.position) (r.start + r.length)) cs
unfolding read_chunks prepend join
read_chunks_lem zero root c r v whole p enough = absurd (omega arith)
read_chunks_lem (suc fuel) root c r v whole p enough = elim (Bool-cases (ltb r.position r.length)) [
  | inl more ↦
      let ahead : r.position < r.length = ltb→lt _ _ more in
      let n = min c (r.length - r.position) in
      let at = r.start + r.position in
      let r' : BoundedRangeReader = record r { position = r.position + n } in
      let (cs, runs, cover) =
        read_chunks_lem fuel root c r' (record { fits = v.fits; within = omega arith }) whole p
          (omega arith) in
      let moved : at + n ≡ r.start + (r.position + n) = omega arith in
      (
        slice root at (at + n) ∷ cs,
        ground (arith, read_ok root n r v whole (omega arith), runs),
        record {
          bounded = (omega (arith, length-slice root at (at + n)), cover.bounded);
          joined =
              ap (λ ys. slice root at (at + n) ++ ys) cover.joined
              ∙ ap (λ k. slice root at (at + n) ++ slice root k (r.start + r.length)) (sym moved)
              ∙ slice-append root at (at + n) (r.start + r.length) (omega arith) (omega arith);
        },
      )
  | inr done ↦ (
    [],
    ground arith,
    record {
      bounded = tt;
      joined =
          let over : r.length ≤ r.position = ltb→le _ _ done in
          sym (slice-empty root (r.start + r.position) (r.start + r.length) (omega arith));
    },
  )
]

-- For a reader on a root file of the recorded size, and chunks of one byte at least, `chunks` ends
-- without an error, wherever the position was, and returns all bytes of the range, in order, in
-- pieces of at most `chunk_size` bytes.
pub chunks-Covers :
    (root : Bytes) (chunk_size : ℕ) (r : BoundedRangeReader)
    → IsValid r
    → length root ≡ r.root_size
    → 0 < chunk_size
    → (cs : List Bytes) × (chunks root chunk_size r ≡ some (ok cs))
      × Covers chunk_size (slice root r.start (r.start + r.length)) cs
unfolding chunks seek move_to
chunks-Covers root c r v whole p =
    let r' : BoundedRangeReader = record r { position = 0 } in
    let (cs, runs, cover) =
      read_chunks_lem (suc r.length) root c r' (record { fits = v.fits; within = omega arith })
        whole p (omega arith) in
    let e : r.start + 0 ≡ r.start = omega arith in (cs, ground (arith, runs), rw e at cover)
