-- ===== src/Mem/Gdt.antt =====
-- The segment descriptors of src/mem/gdt.cpp, as numbers of 64 bits.
pub mod Fields
mod Tests
use Prim.Native.Nat.{bit_or, bit_and}
use cantos.Prelude.{ℕ, ◌+◌, ◌*◌, ◌/◌, ◌%◌, ◌^◌, List, [], ◌∷◌}

abbrev pub access_present : ℕ
access_present = 0x80

abbrev pub access_executable : ℕ
access_executable = 0x8

abbrev pub access_dc : ℕ
access_dc = 0x4

abbrev pub access_rw : ℕ
access_rw = 0x2

abbrev pub flag_granularity : ℕ
flag_granularity = 0x8

abbrev pub flag_size : ℕ
flag_size = 0x4

-- The word that set_entry makes first.
pub high_word : ℕ → ℕ → ℕ → ℕ → ℕ
high_word base limit flags access =
    bit_or
      (bit_or
        (bit_or (bit_or (bit_or (bit_and limit 0x000f0000) (flags * 2 ^ 20)) (2 ^ 12))
          (access * 2 ^ 8))
        (bit_and (base / 2 ^ 16) 0x000000ff))
      (bit_and base 0xff000000)

-- set_entry: the value of an entry. The base is shifted as a number of 32 bits.
pub set_entry : ℕ → ℕ → ℕ → ℕ → ℕ
unfolding high_word
set_entry base limit flags access =
    bit_or (bit_or (high_word base limit flags access * 2 ^ 32) (base * 2 ^ 16 % 2 ^ 32))
      (bit_and limit 0x0000ffff)

-- The table of gdt_init.
pub table : List ℕ
unfolding set_entry
table =
    set_entry 0 0 0 access_present
    ∷ set_entry 0 0xfffff (bit_or flag_granularity flag_size) (bit_or access_present access_rw)
    ∷ set_entry 0 0xfffff (bit_or flag_granularity flag_size)
        (bit_or (bit_or (bit_or access_present access_executable) access_dc) access_rw)
    ∷ []
