-- ===== src/Hw/Acpi/Madt.antt =====
-- What read_madt, a case of low_setup in src/hw/loacpi.cpp, leaves of a table.
use cantos.Prelude.{ℕ, ◌+◌, ◌<◌, ◌≡◌, refl, true, false, List, ◌==◌, add32, length, arith}
use cantos.Hw.Acpi.{
  Copies, Acpi, done, no_copies, type_proc, type_ioapic, type_iso, size_proc, size_ioapic, size_iso,
  read32, count_entries, read_madt,
}
use cantos.Hw.Acpi.Entries.{Walk, rows_of, add_rows, Fits, copy_entries_lem}

module _ (memory : ℕ → ℕ) where
  -- The value of the counts when each type has an entry.
  counted :
      (base : ℕ) (a : Acpi) (c : Copies)
      → 0 < length c.procs
      → 0 < length c.ioapics
      → 0 < length c.isos
      → count_entries memory base a c
        ≡ done (record {
          copies = c;
          proc_count = length c.procs;
          ioapic_count = length c.ioapics;
          iso_count = length c.isos;
          lapic_base = base;
          acpi_found = true;
        })
  unfolding count_entries
  counted base a c procs ioapics isos =
      let some_procs : length c.procs == 0 ≡ false = ground arith in
      let some_ioapics : length c.ioapics == 0 ≡ false = ground arith in
      let some_isos : length c.isos == 0 ≡ false = ground arith in
      rw (count_entries, some_procs, some_ioapics, some_isos) refl

  -- What read_madt makes of a table: the copies of its entries, their numbers, and the address of the
  -- local controllers.
  pub read_madt-Copies :
      (madt fuel : ℕ) (entries : List ℕ) (a : Acpi)
      → Walk memory (add32 madt (read32 memory (madt + 4))) (add32 madt 44) entries
      → Fits memory no_copies entries
      → 0 < length (rows_of memory type_proc size_proc entries)
      → 0 < length (rows_of memory type_ioapic size_ioapic entries)
      → 0 < length (rows_of memory type_iso size_iso entries)
      → length entries < fuel
      → read_madt memory fuel madt a
        ≡ done (record {
          copies = add_rows memory no_copies entries;
          proc_count = length (rows_of memory type_proc size_proc entries);
          ioapic_count = length (rows_of memory type_ioapic size_ioapic entries);
          iso_count = length (rows_of memory type_iso size_iso entries);
          lapic_base = read32 memory (madt + 36);
          acpi_found = true;
        })
  unfolding read_madt
  read_madt-Copies madt fuel entries a walk fits procs ioapics isos enough =
      let top = add32 madt (read32 memory (madt + 4)) in
      rw (copy_entries_lem memory entries fuel top (add32 madt 44) no_copies walk fits enough) (
        counted (read32 memory (madt + 36)) a (add_rows memory no_copies entries) procs ioapics
          isos)
