-- ===== src/Hw/Acpi/Setup.antt =====
-- What src/hw/loacpi.cpp leaves for a list of tables with one MADT.
use cantos.Prelude.{
  ℕ, zero, suc, ◌+◌, ◌<◌, ◌≤◌, ◌≡◌, refl, Bool, true, false, List, [], ◌∷◌, ◌++◌, ◌==◌, ltb, leb,
  if◌then◌else◌, add32, length, arith, u32_mod,
}
use cantos.Hw.Acpi.{
  Acpi, done, no_copies, madt_sig, type_proc, type_ioapic, type_iso, size_proc, size_ioapic,
  size_iso, read32, read_tables, read_rsdp,
}
use cantos.Hw.Acpi.Entries.{Walk, rows_of, add_rows, Fits}
use cantos.Hw.Acpi.Madt.{read_madt-Copies}

module _ (memory : ℕ → ℕ) where
  -- The tables that the words from `hdr` to the end of a list point to.
  abbrev pub Tables : ℕ → ℕ → ℕ → List ℕ → Type 0
  Tables step top hdr [] = top ≤ hdr
  Tables step top hdr (t ∷ rest) =
      (hdr < top)
      × (read32 memory hdr ≡ t)
      × (hdr + step < u32_mod)
      × Tables step top (hdr + step) rest

  -- None of the tables is a MADT.
  abbrev pub Others : List ℕ → Type 0
  Others [] = Unit {0}
  Others (t ∷ rest) = (read32 memory t == madt_sig ≡ false) × Others rest

  -- A table is a MADT with these entries, at least one of each type and no more than there is room for.
  pub record IsMadt (madt : ℕ) (entries : List ℕ) : Type 0 where
    pub signature : read32 memory madt ≡ madt_sig
    pub walk : Walk memory (add32 madt (read32 memory (madt + 4))) (add32 madt 44) entries
    pub fits : Fits memory no_copies entries
    pub procs : 0 < length (rows_of memory type_proc size_proc entries)
    pub ioapics : 0 < length (rows_of memory type_ioapic size_ioapic entries)
    pub isos : 0 < length (rows_of memory type_iso size_iso entries)

  -- What is left of it.
  abbrev pub acpi_of : ℕ → List ℕ → Acpi
  acpi_of madt entries = record {
    copies = add_rows memory no_copies entries;
    proc_count = length (rows_of memory type_proc size_proc entries);
    ioapic_count = length (rows_of memory type_ioapic size_ioapic entries);
    iso_count = length (rows_of memory type_iso size_iso entries);
    lapic_base = read32 memory (madt + 36);
    acpi_found = true;
  }

  -- Behind the MADT, the loop changes nothing.
  others_lem :
      (tables : List ℕ) (fuel step top hdr : ℕ) (a : Acpi)
      → Tables step top hdr tables
      → Others tables
      → length tables < fuel
      → read_tables memory fuel step top hdr true a ≡ done (true, a)
  unfolding read_tables
  others_lem tables zero step top hdr a listed others enough = absurd (omega arith)
  others_lem [] (suc fuel) step top hdr a over others enough =
      let past : ltb hdr top ≡ false = ground arith in rw (read_tables, past) refl
  others_lem (t ∷ rest) (suc fuel) step top hdr a (inside, here, small, listed) (other, others)
        enough =
      let within : ltb hdr top ≡ true = ground arith in
      let next : add32 hdr step ≡ hdr + step = omega (arith, small) in
      rw (read_tables, within, here, other, next)
        (others_lem rest fuel step top (hdr + step) a listed others (omega (arith, enough)))

  -- The loop over the tables finds the MADT among the others.
  tables_lem :
      (before : List ℕ) (madt : ℕ) (after entries : List ℕ) (fuel step top hdr : ℕ) (a : Acpi)
      → Tables step top hdr (before ++ (madt ∷ after))
      → Others before
      → Others after
      → IsMadt madt entries
      → length before + suc (length after) + length entries < fuel
      → read_tables memory fuel step top hdr false a ≡ done (true, acpi_of madt entries)
  unfolding read_tables
  tables_lem before madt after entries zero step top hdr a listed skipped others is enough =
      absurd (omega arith)
  tables_lem [] madt after entries (suc fuel) step top hdr a (inside, here, small, listed) skipped
        others is enough =
      let within : ltb hdr top ≡ true = ground arith in
      let next : add32 hdr step ≡ hdr + step = omega (arith, small) in
      let reads =
        read_madt-Copies memory madt fuel entries a is.walk is.fits is.procs is.ioapics is.isos
          (omega (arith, enough)) in
      rw (read_tables, within, here, is.signature, here, reads, next)
        (others_lem after fuel step top (hdr + step) (acpi_of madt entries) listed others
          (omega (arith, enough)))
  tables_lem (t ∷ before) madt after entries (suc fuel) step top hdr a (inside, here, small, listed)
        (other, skipped) others is enough =
      let within : ltb hdr top ≡ true = ground arith in
      let next : add32 hdr step ≡ hdr + step = omega (arith, small) in
      rw (read_tables, within, here, other, next)
        (tables_lem before madt after entries fuel step top (hdr + step) a listed skipped others is
          (omega (arith, enough)))

  -- The list of tables that a descriptor names, and the distance of its words.
  abbrev pub uses_xsdt : ℕ → Bool
  uses_xsdt rsdp = leb 2 (memory (rsdp + 15))

  abbrev pub table_list : ℕ → ℕ
  table_list rsdp = if uses_xsdt rsdp then read32 memory (rsdp + 24) else read32 memory (rsdp + 16)

  abbrev pub list_end : ℕ → ℕ
  list_end rsdp = add32 (table_list rsdp) (read32 memory (table_list rsdp + 4))

  abbrev pub word_size : ℕ → ℕ
  word_size rsdp = if uses_xsdt rsdp then 8 else 4

  -- read_rsdp returns for a descriptor, of either revision, whose list names one MADT among other
  -- tables: it leaves the bytes of the MADT's entries, each type in their order, their numbers and the
  -- address of the local controllers. The MADT has at least one entry of each of the three types and
  -- at most 32, the tables and entries end below 2^32, and the fuel is above their number.
  pub read_rsdp-Copies :
      (rsdp fuel : ℕ) (before : List ℕ) (madt : ℕ) (after entries : List ℕ) (a : Acpi)
      → Tables
          (word_size rsdp)
          (list_end rsdp)
          (add32 (table_list rsdp) 36)
          (before ++ (madt ∷ after))
      → Others before
      → Others after
      → IsMadt madt entries
      → length before + suc (length after) + length entries < fuel
      → read_rsdp memory fuel rsdp a ≡ done (acpi_of madt entries)
  unfolding read_rsdp
  read_rsdp-Copies rsdp fuel before madt after entries a listed skipped others is enough =
      let start = add32 (table_list rsdp) 36 in
      let reads =
        tables_lem before madt after entries fuel (word_size rsdp) (list_end rsdp) start a listed
          skipped others is enough in
      rw (read_rsdp, reads) refl
