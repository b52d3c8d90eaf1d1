-- ===== src/Base/Int.antt =====
-- Signed integers, and the machine words that stand for them. Shared by every module.
use Prim.Native.Nat.{ℕ, ◌+◌, ◌-◌, ◌%◌, ◌<◌, ◌^◌}
use mathlib.Core.Path.{◌≡◌}
use native.Mathlib.Omega.{arith}
use bit_socket_go.Base.Tests.{ltb, if◌then◌else◌}

-- `negsuc n` is -(n + 1).
pub data ℤ : Type 0 where
  pos : ℕ → ℤ
  negsuc : ℕ → ℤ

-- The conversion of an integer to an unsigned word with `m` values.
abbrev pub wrap : ℕ → ℤ → ℕ
wrap m (pos n) = n % m
wrap m (negsuc n) = m - 1 - n % m

-- The conversion of a word with `2 * half` values to a signed integer.
abbrev pub signed_of : ℕ → ℕ → ℤ
signed_of half n = if ltb n half then pos n else negsuc (half + half - 1 - n)

abbrev pub InRange : ℕ → ℤ → Type 0
InRange half (pos n) = n < half
InRange half (negsuc n) = n < half

-- A signed 32-bit integer survives the trip through its unsigned word.
pub signed_of-wrap : (z : ℤ) → InRange (2 ^ 31) z → signed_of (2 ^ 31) (wrap (2 ^ 32) z) ≡ z
signed_of-wrap (pos n) h = ground arith
signed_of-wrap (negsuc n) h = ground arith
