-- ===== src/Common/Int.antt =====
-- `int` arguments and results, over the native numbers under the library's name.
use Prim.Native.Nat.{ℕ, ◌-◌}
use stable_genius.Common.Tests.{leb, if◌then◌else◌}

-- `negsuc n` is -(n + 1).
pub data ℤ : Type 0 where
  pos : ℕ → ℤ
  negsuc : ℕ → ℤ

-- The result -1, by which the operations report an error.
abbrev pub minus_one : ℤ
minus_one = negsuc 0

-- a - b as an `int`
abbrev pub sub_int : ℕ → ℕ → ℤ
sub_int a b = if leb b a then pos (a - b) else negsuc (b - a - 1)
