-- ===== src/Fs.antt =====
-- The paths of src/fs/filesystem.cpp. A FilePathEntry that parse_path makes is its name; a list of names,
-- the innermost first, stands for the parent pointers from an entry on. `buffer` gives the address of
-- the copy that substr makes at a place of the path.
pub mod Names
pub mod Populate
mod Tests
use cantos.Prelude.{
  ℕ, zero, suc, ◌+◌, ◌-◌, Bool, true, false, List, [], ◌∷◌, Option, none, some, ◌==◌, if◌then◌else◌,
}
use cantos.Structures.Utf8.{Utf8, bytes, find_char, substr}

abbrev pub separator : ℕ
separator = 0x2f

abbrev pub npos : ℕ
npos = 0xffffffff

-- How parse_path ends: with the names, in a read behind the string, or with its fuel used up.
pub data Parsed : Type 0 where
  parsed : List Utf8 → Parsed
  fault : Parsed
  exhausted : Parsed

abbrev pub add_name : Utf8 → List Utf8 → List Utf8
add_name fname parents = if bytes fname == 0 then parents else fname ∷ parents

abbrev pub add_rest : Option Utf8 → List Utf8 → Parsed
add_rest none parents = fault
add_rest (some fname) parents = parsed (add_name fname parents)

-- The loop of parse_path from `oldpos` on, and the rest of the string.
pub parse_from : ℕ → (ℕ → ℕ) → Utf8 → ℕ → List Utf8 → Parsed
parse_from zero buffer path oldpos parents = exhausted
parse_from (suc fuel) buffer path oldpos parents = elim (find_char path separator oldpos) [
  | none ↦ fault
  | some none ↦ add_rest (substr (buffer oldpos) path oldpos npos) parents
  | some (some at) ↦ elim (substr (buffer oldpos) path oldpos (at - oldpos)) [
    | none ↦ fault
    | some fname ↦ parse_from fuel buffer path (at + 1) (add_name fname parents)
  ]
]

pub parse_path : ℕ → (ℕ → ℕ) → Utf8 → List Utf8 → Parsed
unfolding parse_from
parse_path fuel buffer path base = parse_from fuel buffer path 0 base
