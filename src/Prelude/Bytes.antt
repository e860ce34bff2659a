-- ===== src/Prelude/Bytes.antt =====
-- Bytes, casts to the unsigned types, and what the masks of the drivers do to a byte.
pub mod Masks
use hydro_logger.Prelude.Tests.{◌==◌}
use Prim.Native.Nat.{ℕ, ◌%◌, bit_and}
use Prim.Native.String.{String}
use Prim.Native.Char.{code}
use mathlib.Core.List.{List, [], ◌∷◌}
use mathlib.Core.Bool.{Bool, true, false, not, ◌&&◌}

abbrev pub u8 : ℕ → ℕ
u8 n = n % 256

abbrev pub u16 : ℕ → ℕ
u16 n = n % 65536

abbrev pub u32 : ℕ → ℕ
u32 n = n % 4294967296

-- The bytes of a literal; the program's literals are ASCII.
abbrev pub codes : String → List ℕ
codes String.[] = []
codes (String.◌∷◌ c s) = code c ∷ codes s

-- `(v & mask) != 0`
abbrev pub has_bits : ℕ → ℕ → Bool
has_bits v mask = not (bit_and v mask == 0)

-- Texts with the same characters.
unfoldable pub equals : List ℕ → List ℕ → Bool
equals [] [] = true
equals [] (d ∷ t) = false
equals (c ∷ s) [] = false
equals (c ∷ s) (d ∷ t) = c == d && equals s t
