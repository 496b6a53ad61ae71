-- ===== src/Interrupts/Idt/Tests.antt =====
-- The theorems on src/int/idt.cpp and src/int/ioapic.cpp at the keyboard's interrupt.
use cantos.Prelude.{◌*◌, ◌^◌, ◌≡◌, refl, arith, []}
use cantos.Interrupts.Idt.{Idt, done, panicked, install, enable_entry, gate_32_int}
use cantos.Interrupts.Idt.Install.{Installed}
use cantos.Interrupts.Ioapic.{Writes, enable_func, code_selector}
use cantos.Interrupts.Ioapic.Delivery.{Redirected, enable_func-Redirected}

abbrev empty_idt : Idt
empty_idt = record {
  table =
      λ i. record { offset_low = 0; selector = 0; reserved = 0; type_attr = 0; offset_high = 0 };
  functions = λ i. 0;
  functions_err = λ i. 0;
}

not_enabled : install 0x31 0xc0101000 0x10 gate_32_int empty_idt ≡ panicked
unfolding install
not_enabled = refl

-- With a level trigger.
enable_func-Redirected_example :
    (t : Idt) × (w : Writes) × (enable_func 1 0xc0101000
        (0x80 * 2 ^ 8)
        (enable_entry 0x31 0xc0100040 empty_idt)
        []
      ≡ done (t, w))
    × Installed 0x31 0xc0100040 0xc0101000 code_selector gate_32_int empty_idt t
    × Redirected 1 0x31 0x80 [] w
enable_func-Redirected_example =
    enable_func-Redirected 1 0xc0101000 0x80 0xc0100040 empty_idt [] (omega arith) (omega arith)
      (omega arith) (omega arith)
