-- ===== src/Prelude/Text.antt =====
-- C strings and byte buffers as lists of bytes, without the terminating NUL.
use Prim.Native.Nat.{ℕ}
use Prim.Native.Char.{code}
use Prim.Native.String.{String}
use mathlib.Core.Bool.{Bool, true, false, ◌&&◌}
use mathlib.Core.List.{List, [], ◌∷◌}
use sandals.Prelude.Tests.{◌==◌}

abbrev pub Bytes : Type 0
Bytes = List ℕ

-- The bytes of an ASCII literal.
abbrev pub codes : String → Bytes
codes String.[] = []
codes (String.◌∷◌ c s) = code c ∷ codes s

-- `!strcmp(a, b)`.
abbrev pub str_eq : Bytes → Bytes → Bool
str_eq [] [] = true
str_eq (x ∷ xs) (y ∷ ys) = x == y && str_eq xs ys
str_eq _ _ = false
