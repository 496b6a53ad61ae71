-- ===== src/Hw/Acpi/Endless.antt =====
-- The searches of src/hw/loacpi.cpp that go wrong.
use cantos.Prelude.{
  ℕ, zero, suc, ◌+◌, ◌<◌, ◌≡◌, refl, true, false, Option, ◌==◌, ltb, add32, arith, u32_mod,
  Bool-cases, inl, inr, ==→eq,
}
use cantos.Hw.Acpi.{
  Copies, exhausted, rsdp_sig_a, type_proc, type_ioapic, type_iso, read32, search_ebda, copy_entry,
  copy_entries,
}

module _ (memory : ℕ → ℕ) where
  -- An entry of another type and of length 0 keeps the loop where it is, so that it never ends.
  pub copy_entries-exhausted :
      (fuel top p : ℕ) (c : Copies)
      → p < top
      → p < u32_mod
      → type_iso < memory p
      → memory (p + 1) ≡ 0
      → copy_entries memory fuel top p c ≡ exhausted
  unfolding copy_entries copy_entry
  copy_entries-exhausted zero top p c inside small type same = refl
  copy_entries-exhausted (suc fuel) top p c inside small type same =
      let within : ltb p top ≡ true = ground arith in
      let no_proc : memory p == type_proc ≡ false = ground arith in
      let no_ioapic : memory p == type_ioapic ≡ false = ground arith in
      let no_iso : memory p == type_iso ≡ false = ground arith in
      let next : add32 p 0 ≡ p = omega (arith, small) in
      rw (copy_entries, within, copy_entry, no_proc, no_ioapic, no_iso, same, next)
        (copy_entries-exhausted fuel top p c inside small type same)

  -- The search of the extended area finds nothing: no word is the one half of the signature and the
  -- predecessor of the other.
  search_ebda-none : (n ptr : ℕ) (rsdp : Option ℕ) → search_ebda memory n ptr rsdp ≡ rsdp
  unfolding search_ebda
  search_ebda-none zero ptr rsdp = refl
  search_ebda-none (suc n) ptr rsdp = elim (Bool-cases (read32 memory ptr == rsdp_sig_a)) [
    | inl half ↦
        let value : read32 memory ptr ≡ rsdp_sig_a = ==→eq (read32 memory ptr) rsdp_sig_a half in
        rw (search_ebda, half, value) (search_ebda-none n (ptr + 16) rsdp)
    | inr other ↦ rw (search_ebda, other) (search_ebda-none n (ptr + 16) rsdp)
  ]
