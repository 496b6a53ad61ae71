-- ===== src/Mem/Gdt/Tests.antt =====
-- The descriptors of src/mem/gdt.cpp, and the theorem on them.
use Prim.Native.Nat.{bit_or}
use cantos.Prelude.{◌≡◌, refl, [], ◌∷◌, arith}
use cantos.Mem.Gdt.{set_entry, table}
use cantos.Mem.Gdt.Fields.{base_field, limit_field, flags_field, access_field, set_entry-fields}

table_values : table ≡ 0x0000900000000000 ∷ 0x00cf92000000ffff ∷ 0x00cf9e000000ffff ∷ []
unfolding table
table_values = refl

set_entry-fields_example :
    (base_field (set_entry 0xc0123456 0x12345 0xc 0x92) ≡ 0xc0123456)
    × (limit_field (set_entry 0xc0123456 0x12345 0xc 0x92) ≡ 0x12345)
    × (flags_field (set_entry 0xc0123456 0x12345 0xc 0x92) ≡ 0xc)
    × (access_field (set_entry 0xc0123456 0x12345 0xc 0x92) ≡ bit_or 0x10 0x92)
set_entry-fields_example =
    set_entry-fields 0xc0123456 0x12345 0xc 0x92 (omega arith) (omega arith) (omega arith)
      (omega arith)
