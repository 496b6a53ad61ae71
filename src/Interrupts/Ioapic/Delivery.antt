-- ===== src/Interrupts/Ioapic/Delivery.antt =====
-- That enable_func of src/int/ioapic.cpp sends an interrupt request to its handler.
use Prim.Native.Nat.{bit_or}
use cantos.Prelude.{ℕ, ap, ◌+◌, ◌*◌, ◌/◌, ◌%◌, ◌<◌, ◌≤◌, ◌≡◌, ◌^◌, ◌∷◌, arith, bit_or-high}
use cantos.Interrupts.Idt.{Idt, done, install, enable_entry, gate_32_int}
use cantos.Interrupts.Idt.Install.{Installed, install-Installed}
use cantos.Interrupts.Ioapic.{
  Writes, address_register, data_register, int_ioapic_base, code_selector, enable, enable_func,
}

-- What the controller is told about a request: which entry, and in it a vector below the flags.
pub record Redirected (irq vector q : ℕ) (before after : Writes) : Type 0 where
  pub value : ℕ
  pub written : after ≡ (data_register, value) ∷ (address_register, 0x10 + 2 * irq) ∷ before
  pub vectored : value % 2 ^ 8 ≡ vector
  pub flagged : value / 2 ^ 8 ≡ q

enable-Redirected :
    (irq vector q : ℕ) (w : Writes)
    → vector < 2 ^ 8
    → q < 2 ^ 24
    → Redirected irq vector q w (enable irq vector (q * 2 ^ 8) w)
unfolding enable
enable-Redirected irq vector q w low flags =
    let whole = bit_or-high 8 q vector low in
    record {
      value = bit_or vector (q * 2 ^ 8) % 2 ^ 32;
      written =
          ap
            (λ (r : ℕ).
              (data_register, bit_or vector (q * 2 ^ 8) % 2 ^ 32) ∷ (address_register, r) ∷ w)
            (omega arith);
      vectored = omega (arith, whole);
      flagged = omega (arith, whole);
    }

enable_func_run :
    (irq v func flags : ℕ) (t t' : Idt) (w : Writes)
    → (int_ioapic_base + irq) % 2 ^ 8 ≡ v
    → install v func code_selector gate_32_int t ≡ done t'
    → enable_func irq func flags t w ≡ done (t', enable irq v flags w)
unfolding enable_func
enable_func_run irq v func flags t t' w vector run =
    let there : install ((int_ioapic_base + irq) % 2 ^ 8) func code_selector gate_32_int t
        ≡ done t' =
      rw vector run in
    rw there (ap (λ (u : ℕ). done (t', enable irq u flags w)) vector)

-- enable_func of a request whose interrupt has an entry point returns; the handler is the one that
-- idt_handle calls for the vector that the controller is told, with the flags above it. The request is
-- one of 16, the flags are above the vector and have 32 bits, and the entry point is not in the first
-- 64 KiB.
pub enable_func-Redirected :
    (irq func q offset : ℕ) (t : Idt) (w : Writes)
    → irq < 16
    → q < 2 ^ 24
    → 0x10000 ≤ offset
    → offset < 2 ^ 32
    → (t' : Idt) × (w' : Writes) × (enable_func irq func
          (q * 2 ^ 8)
          (enable_entry (int_ioapic_base + irq) offset t)
          w
        ≡ done (t', w'))
      × Installed (int_ioapic_base + irq) offset func code_selector gate_32_int t t'
      × Redirected irq (int_ioapic_base + irq) q w w'
enable_func-Redirected irq func q offset t w few flags high word =
    let vector : (int_ioapic_base + irq) % 2 ^ 8 ≡ int_ioapic_base + irq = omega arith in
    let (t', run, installed) =
      install-Installed (int_ioapic_base + irq) offset func code_selector gate_32_int t
        (omega arith) high word in
    (
      t',
      enable irq (int_ioapic_base + irq) (q * 2 ^ 8) w,
      enable_func_run irq (int_ioapic_base + irq) func (q * 2 ^ 8)
          (enable_entry (int_ioapic_base + irq) offset t) t' w vector run,
      installed,
      enable-Redirected irq (int_ioapic_base + irq) q w (omega arith) flags,
    )
