-- ===== src/Prelude/Bytes.antt =====
-- Byte strings: Python's slices and the fixed-width integers of `struct`.
use Prim.Native.Nat.{ℕ, ◌+◌, ◌*◌, ◌-◌, ◌≤◌, min}
use mathlib.Core.Path.{◌≡◌, ap, sym, ◌∙◌}
use mathlib.Core.Bool.{Bool, true, false, ◌&&◌}
use mathlib.Core.List.{List, [], ◌∷◌, ◌++◌}
use native.Mathlib.Omega.{arith}
use avbox.Prelude.Tests.{◌==◌}
use avbox.Prelude.Lists.{
  length, get_or, take, drop, length-take, length-drop, drop-drop, take-append-take, take-all,
}

abbrev pub Bytes : Type 0
Bytes = List ℕ

-- `data[i]` where the code has checked that `i` lies inside; 0 elsewhere.
abbrev pub byte : Bytes → ℕ → ℕ
byte xs i = get_or xs i 0

-- `data[lo:hi]`: what lies past the end is left out.
unfoldable pub slice : Bytes → ℕ → ℕ → Bytes
slice xs lo hi = take (hi - lo) (drop lo xs)

pub length-slice :
    (xs : Bytes) (lo hi : ℕ) → length (slice xs lo hi) ≡ min (hi - lo) (length xs - lo)
unfolding slice
length-slice xs lo hi = omega (arith, length-take (hi - lo) (drop lo xs), length-drop lo xs)

-- `struct.unpack_from` at "<H", "<I" and ">I".
unfoldable pub le16 : Bytes → ℕ → ℕ
le16 xs o = byte xs o + 256 * byte xs (o + 1)

unfoldable pub le32 : Bytes → ℕ → ℕ
unfolding le16
le32 xs o = le16 xs o + 65536 * le16 xs (o + 2)

unfoldable pub be32 : Bytes → ℕ → ℕ
be32 xs o = 16777216 * byte xs o + 65536 * byte xs (o + 1) + 256 * byte xs (o + 2) + byte xs (o + 3)

-- Two slices that meet make one.
pub slice-append :
    (xs : Bytes) (lo mid hi : ℕ)
    → lo ≤ mid
    → mid ≤ hi
    → slice xs lo mid ++ slice xs mid hi ≡ slice xs lo hi
unfolding slice
slice-append xs lo mid hi p q =
    let e : drop (mid - lo) (drop lo xs) ≡ drop mid xs =
      drop-drop (mid - lo) lo xs ∙ ap (λ k. drop k xs) (omega arith) in
    let n : (mid - lo) + (hi - mid) ≡ hi - lo = omega arith in
    ap (λ ys. take (mid - lo) (drop lo xs) ++ take (hi - mid) ys) (sym e)
    ∙ take-append-take (mid - lo) (hi - mid) (drop lo xs)
    ∙ ap (λ k. take k (drop lo xs)) n

-- `data[:len(prefix)] == prefix`
unfoldable pub starts_with : Bytes → Bytes → Bool
starts_with [] xs = true
starts_with (p ∷ ps) [] = false
starts_with (p ∷ ps) (x ∷ xs) = x == p && starts_with ps xs

-- `b"".join(chunks)`
unfoldable pub join : List Bytes → Bytes
join [] = []
join (c ∷ cs) = c ++ join cs

pub slice-empty : (xs : Bytes) (lo hi : ℕ) → hi ≤ lo → slice xs lo hi ≡ []
unfolding slice
slice-empty xs lo hi h = let e : hi - lo ≡ 0 = omega arith in rw e

pub slice-all : (xs : Bytes) → slice xs 0 (length xs) ≡ xs
unfolding slice
slice-all xs = take-all (length xs - 0) xs (omega arith)
