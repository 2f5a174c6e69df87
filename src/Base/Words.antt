-- ===== src/Base/Words.antt =====
-- An `int` is its two's complement bit pattern, a number below 2 ^ 32; bytes in memory are listed
-- from the lowest address, and the host is little-endian (x86).
use Prim.Native.Nat.{ℕ, ◌+◌, ◌-◌, ◌^◌, ◌<◌}
use mathlib.Core.Bool.{Bool, ◌&&◌}
use sist_distrib2c.Base.Tests.{ltb, leb, if◌then◌else◌}

abbrev pub IsByte : ℕ → Type 0
IsByte b = b < 256

abbrev pub IsWord : ℕ → Type 0
IsWord w = w < 2 ^ 32

abbrev pub IsShort : ℕ → Type 0
IsShort s = s < 2 ^ 16

-- The bit pattern of -1.
abbrev pub minus_one : ℕ
minus_one = 2 ^ 32 - 1

-- `i < 0` on an int.
abbrev pub is_negative : ℕ → Bool
is_negative w = leb (2 ^ 31) w

-- `0 < i` on an int.
abbrev pub is_positive : ℕ → Bool
is_positive w = ltb 0 w && ltb w (2 ^ 31)

-- How often `for (int i = 0; i < w; i++)` goes round.
abbrev pub rounds : ℕ → ℕ
rounds w = if ltb w (2 ^ 31) then w else 0

-- The conversion of a short to an int.
abbrev pub extend_short : ℕ → ℕ
extend_short s = if ltb s (2 ^ 15) then s else s + (2 ^ 32 - 2 ^ 16)
