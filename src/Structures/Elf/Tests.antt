-- ===== src/Structures/Elf/Tests.antt =====
-- Lookups of src/structures/elf.cpp in a table of three symbols, and the theorem there.
use cantos.Prelude.{ℕ, ◌≡◌, refl, ◌==◌, if◌then◌else◌, arith}
use cantos.Structures.Elf.{
  Header, SectionHeader, Symbol, Memory, value, Best, sht_symtab, section_by_type,
  runtime_find_symbol_id, load_kernel_elf, runtime_section_data,
}
use cantos.Structures.Elf.Nearest.{
  Nearest, IsTable, length_of, symbol_of, runtime_find_symbol_id-Nearest,
}

abbrev plain : SectionHeader
plain = record {
  name = 0;
  type = 1;
  flags = 0;
  addr = 0x1000;
  offset = 0;
  size = 0;
  link = 0;
  info = 0;
  addralign = 0;
  entsize = 0;
}

abbrev symtab : SectionHeader
symtab = record plain { type = 2; addr = 0xc0008000; size = 48; entsize = 16 }

abbrev symbol_at : ℕ → Symbol
symbol_at v = record { name = v; value = v; size = 0; info = 2; other = 0; shndx = 0 }

-- The symbol table is section 1; its functions are at 0x100, 0x300 and 0x200.
abbrev image : Memory
image = record {
  section = λ a. if a == 0xc000105c then symtab else plain;
  symbol =
      λ a. symbol_at (if a == 0xc0008000 then 0x100 else if a == 0xc0008010 then 0x300 else 0x200);
}

abbrev header : Header
header = record { at = 0xc0001000; shoff = 52; shentsize = 40; shnum = 3; shstrndx = 2 }

find_last : runtime_find_symbol_id image header 0x2ff 2 ≡ value 2
unfolding runtime_find_symbol_id
find_last = refl

find_below : runtime_find_symbol_id image header 0xff 2 ≡ value 0
unfolding runtime_find_symbol_id
find_below = refl

past_the_end : section_by_type image header 1 3 ≡ 3
unfolding section_by_type
past_the_end = refl

-- The copy of a header of the boot loader's, moved to the kernel's addresses.
relocated_addr :
    runtime_section_data
      (load_kernel_elf 0xc0400000 3 40 0xc0001034 2 image).1
      (load_kernel_elf 0xc0400000 3 40 0xc0001034 2 image).0
      0
    ≡ 0xc0001000
unfolding load_kernel_elf
relocated_addr = refl

the_symtab : section_by_type image header sht_symtab 0 ≡ 1
unfolding section_by_type
the_symtab = refl

image-IsTable : IsTable image header 1
image-IsTable = record { sized = refl; there = λ i h. ground arith }

runtime_find_symbol_id-Nearest_example :
    (b : Best) × (runtime_find_symbol_id image header 0x2ff 2 ≡ value b.id)
    × Nearest
        (symbol_of image header (section_by_type image header sht_symtab 0))
        0x2ff
        2
        (length_of image header (section_by_type image header sht_symtab 0))
        b
runtime_find_symbol_id-Nearest_example =
    runtime_find_symbol_id-Nearest image header 0x2ff 2 (rw the_symtab image-IsTable)
