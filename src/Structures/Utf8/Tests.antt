-- ===== src/Structures/Utf8/Tests.antt =====
-- Runs of src/structures/utf8.cpp, and its theorems there.
use cantos.Prelude.{ℤ, ℕ, ◌≡◌, refl, true, List, [], ◌∷◌, some, arith}
use Prim.Native.Char.{code}
use Prim.Native.String.{String}
use cantos.Structures.Utf8.{Utf8, compare, compare_part, equal, find, find_char, substr, concat}
use cantos.Structures.Utf8.Compare.{compare-equal}
use cantos.Structures.Utf8.Find.{Finds, find-Finds}
use cantos.Structures.Utf8.Copy.{concat-substr}

abbrev codes : String → List ℕ
codes String.[] = []
codes (String.◌∷◌ c s) = code c ∷ codes s

abbrev banana : Utf8
banana = record { string = 0x1000; text = codes "banana" }

abbrev an : Utf8
an = record { string = 0x2000; text = codes "an" }

-- The comparison of a string with a part of itself does not look at the text.
compare_shared : compare_part banana 0 1 banana 1 1 ≡ some (ℤ.pos 0)
unfolding compare_part
compare_shared = refl

find_char_runs : find_char banana b'n' 3 ≡ some (some 4)
unfolding find_char
find_char_runs = refl

find_terminator : find_char banana 0 0 ≡ some (some 6)
unfolding find_char
find_terminator = refl

compare-equal_example :
    ((compare banana an ≡ some (ℤ.pos 0) → banana.text ≡ an.text)
      × (banana.text ≡ an.text → compare banana an ≡ some (ℤ.pos 0)))
    × ((equal banana an ≡ true → banana.text ≡ an.text)
        × (banana.text ≡ an.text → equal banana an ≡ true))
compare-equal_example =
    compare-equal banana an (omega arith) (omega arith) (λ e. absurd (omega arith))

find-Finds_example : Finds banana an 2 5 (find banana an 2)
find-Finds_example =
    find-Finds banana an (omega arith) (omega arith) (λ e. omega arith) 2 (omega arith)
      (omega arith)

concat-substr_example :
    (c : Utf8) × (concat 0x3000 banana an ≡ some c)
    × (substr 0x4000 c 0 6 ≡ some (record { string = 0x4000; text = banana.text }))
    × (substr 0x4000 c 6 2 ≡ some (record { string = 0x4000; text = an.text }))
concat-substr_example = concat-substr 0x3000 0x4000 banana an (omega arith)
