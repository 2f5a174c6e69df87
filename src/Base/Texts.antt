-- ===== src/Base/Texts.antt =====
-- Texts as lists of character codes, without and with the zero that ends a C string.
use Prim.Native.Nat.{ℕ}
use Prim.Native.Char.{code}
use Prim.Native.String.{String}
use mathlib.Core.List.{List, [], ◌∷◌}
use sist_distrib2c.Base.Tests.{◌==◌, if◌then◌else◌}

-- The characters of an ASCII literal.
abbrev pub codes : String → List ℕ
codes String.[] = []
codes (String.◌∷◌ c s) = code c ∷ codes s

-- `std::string(cells)`: the characters before the first zero.
abbrev pub c_string : List ℕ → List ℕ
c_string [] = []
c_string (c ∷ cells) = if c == 0 then [] else c ∷ c_string cells
