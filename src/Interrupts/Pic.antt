-- ===== src/Interrupts/Pic.antt =====
-- The masks of src/int/pic.cpp: what the data ports of the two controllers hold.
pub mod Masks
mod Tests
use Prim.Native.Nat.{bit_or, bit_and}
use cantos.Prelude.{ℕ, ◌+◌, ◌-◌, ◌%◌, ◌^◌, Bool, true, false, ltb, if◌then◌else◌}

pub record Pic : Type 0 where
  pub master : ℕ
  pub slave : ℕ

-- The bytes ~(1 << irq) and 1 << irq.
abbrev pub without_bit : ℕ → ℕ
without_bit irq = 255 - 2 ^ irq % 256

-- inb, a change of the byte, and outb, at the port for a request.
abbrev pub change : (ℕ → ℕ → ℕ) → ℕ → Pic → Pic
change f irq p =
    if ltb irq 8
    then record p { master = f p.master irq }
    else record p { slave = f p.slave (irq - 8) }

pub enable : ℕ → Pic → Pic
enable irq p = change (λ value i. bit_and value (without_bit i)) irq p

pub disable : ℕ → Pic → Pic
disable irq p = change (λ value i. bit_or value (2 ^ i) % 256) irq p
