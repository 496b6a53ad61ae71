-- ===== src/Interrupts/Ioapic.antt =====
-- The redirection entries of src/int/ioapic.cpp. What is written over the two registers of the
-- controller, the latest first, is a list of pairs of an index and a value.
pub mod Delivery
use Prim.Native.Nat.{bit_or}
use cantos.Prelude.{ℕ, ◌+◌, ◌*◌, ◌%◌, ◌^◌, List, [], ◌∷◌}
use cantos.Interrupts.Idt.{Idt, Result, done, panicked, fault, install, gate_32_int}

abbrev pub address_register : ℕ
address_register = 0

abbrev pub data_register : ℕ
data_register = 4

abbrev pub reg_irq : ℕ → ℕ
reg_irq x = x * 2 + 0x10

abbrev pub mask : ℕ
mask = 2 ^ 16

abbrev pub int_ioapic_base : ℕ
int_ioapic_base = 0x30

-- GDT_SELECTOR(0, 0, 2).
abbrev pub code_selector : ℕ
code_selector = 0x10

abbrev pub Writes : Type 0
Writes = List (ℕ × ℕ)

-- _write; the value is cut to 32 bits.
pub write : ℕ → ℕ → Writes → Writes
write reg value w = (data_register, value % 2 ^ 32) ∷ (address_register, reg) ∷ w

pub enable : ℕ → ℕ → ℕ → Writes → Writes
unfolding write
enable irq vector flags w = write (reg_irq irq) (bit_or vector flags) w

pub disable : ℕ → Writes → Writes
unfolding write
disable irq w = write (reg_irq irq) mask w

abbrev pub and_enable : ℕ → ℕ → Writes → Result Idt → Result (Idt × Writes)
and_enable irq flags w (done t) = done (t, enable irq ((int_ioapic_base + irq) % 2 ^ 8) flags w)
and_enable irq flags w panicked = panicked
and_enable irq flags w fault = fault

pub enable_func : ℕ → ℕ → ℕ → Idt → Writes → Result (Idt × Writes)
unfolding enable
enable_func irq func flags t w =
    and_enable irq flags w
      (install ((int_ioapic_base + irq) % 2 ^ 8) func code_selector gate_32_int t)
