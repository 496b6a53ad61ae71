-- ===== src/Fs/Tests.antt =====
-- Runs of parse_path of src/fs/filesystem.cpp, and the theorem there.
use cantos.Prelude.{ℕ, ◌+◌, ◌≡◌, refl, List, [], ◌∷◌, arith}
use cantos.Structures.Utf8.{Utf8}
use cantos.Fs.{parsed, exhausted, parse_path}
use cantos.Fs.Names.{texts, pieces, collect, parse_path-names}

-- "/a//bc"
abbrev sample : Utf8
sample = record { string = 0xc0300000; text = 0x2f ∷ 0x61 ∷ 0x2f ∷ 0x2f ∷ 0x62 ∷ 0x63 ∷ [] }

abbrev buffers : ℕ → ℕ
buffers at = 0xc0400000 + at

sample_pieces : collect (pieces sample.text) [] ≡ (0x62 ∷ 0x63 ∷ []) ∷ (0x61 ∷ []) ∷ []
sample_pieces = refl

too_little_fuel : parse_path 0 buffers sample [] ≡ exhausted
unfolding parse_path
too_little_fuel = refl

parse_path-names_example :
    (entries : List Utf8) × (parse_path 7 buffers sample [] ≡ parsed entries)
    × (texts entries ≡ collect (pieces sample.text) [])
parse_path-names_example = parse_path-names 7 buffers sample [] (omega arith) (omega arith)
