-- ===== src/Structures/Format/Tests.antt =====
-- Runs of src/structures/stream.cpp, and its theorems there.
use cantos.Prelude.{ℕ, ◌+◌, ◌^◌, ◌%◌, ◌≡◌, refl, false, List, [], ◌∷◌, Option, none, some}
use Prim.Native.Char.{code}
use Prim.Native.String.{String}
use cantos.Structures.Format.{num, str, Writer, writer, writef, number, base_of}
use cantos.Structures.Format.Number.{value, number_lem, IsShort}

abbrev codes : String → List ℕ
codes String.[] = []
codes (String.◌∷◌ c s) = code c ∷ codes s

abbrev output : Option Writer → Option (List ℕ)
output none = none
output (some w) = some w.out

writef_runs :
    output (writef (codes "%s %d %x%%") (writer (str (codes "Hi") ∷ num 4294967227 ∷ num 255 ∷ [])))
    ≡ some (codes "Hi -69 ff%")
unfolding writef number
writef_runs = refl

-- A format that ends in a percent sign is read past its end.
writef_ends : writef (codes "50%") (writer []) ≡ none
unfolding writef
writef_ends = refl

-- The largest octal numbers lose their first digits.
octal_cut : number 8 false (2 ^ 60 + 5) ≡ codes "5"
unfolding number
octal_cut = refl

number_lem_example :
    (value (base_of 111) (number (base_of 111) false (2 ^ 60 + 5))
      ≡ (2 ^ 60 + 5) % base_of 111 ^ 20)
    × IsShort (number (base_of 111) false (2 ^ 60 + 5))
number_lem_example = number_lem 111 false (2 ^ 60 + 5)

abbrev after : Writer
after = record { length = none; args = []; out = codes "12!"; written = 3; slots = [] }
