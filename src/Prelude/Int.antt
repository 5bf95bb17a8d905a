-- ===== src/Prelude/Int.antt =====
-- Python's signed integers, over the native numbers.
use Prim.Native.Nat.{ℕ, suc, ◌+◌, ◌-◌, ◌^◌}
use avbox.Prelude.Tests.{leb, ltb, if◌then◌else◌}

-- `negsuc n` is -(n + 1).
pub data ℤ : Type 0 where
  pos : ℕ → ℤ
  negsuc : ℕ → ℤ

-- a - b, as an integer.
abbrev pub sub_ℕ : ℕ → ℕ → ℤ
sub_ℕ a b = if leb b a then pos (a - b) else negsuc (b - a - 1)

-- n + k for a number n.
abbrev pub add_ℕ : ℕ → ℤ → ℤ
add_ℕ n (pos m) = pos (n + m)
add_ℕ n (negsuc m) = sub_ℕ n (suc m)

-- A 32-bit word read as a two's complement number.
abbrev pub signed32 : ℕ → ℤ
signed32 w = if ltb w (2 ^ 31) then pos w else negsuc (2 ^ 32 - 1 - w)
