-- ===== src/Structures/Format/Strings/Tests.antt =====
-- Runs of Utf8::format of src/structures/utf8.cpp, and its theorem there.
use cantos.Prelude.{ℕ, ◌≡◌, refl, List, [], ◌∷◌, some}
use Prim.Native.Char.{code}
use Prim.Native.String.{String}
use cantos.Structures.Format.Strings.{number_value, c_string, utf8_string, format}

abbrev codes : String → List ℕ
codes String.[] = []
codes (String.◌∷◌ c s) = code c ∷ codes s

format_runs :
    format (codes "%s %S %d %x") (
      c_string (codes "Hello")
      ∷ utf8_string (codes "World")
      ∷ number_value 69
      ∷ number_value 255
      ∷ [])
    ≡ some (codes "Hello World 69 ff")
unfolding format
format_runs = refl

-- An unsigned number that is negative as an int: each digit's remainder wraps around.
format_wraps : format (codes "%x") (number_value 4294967295 ∷ []) ≡ some (86 ∷ [])
unfolding format
format_wraps = refl
