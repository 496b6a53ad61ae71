-- ===== src/Hw/Acpi.antt =====
-- The search for the ACPI tables in src/hw/loacpi.cpp. The physical memory is a function from addresses to
-- bytes, and does not change while it is read. The copies of the entries of a table are lists of their
-- bytes, with the padding that the structures have on 32-bit x86. The loops over tables whose length is in
-- the memory take fuel.
pub mod Endless
pub mod Entries
pub mod Madt
pub mod Setup
mod Tests
use Prim.Native.Nat.{bit_and}
use cantos.Prelude.{
  ℕ, zero, suc, ◌+◌, ◌*◌, ◌/◌, ◌%◌, ◌^◌, Bool, true, false, ◌&&◌, List, [], ◌∷◌, ◌++◌, Option, none,
  some, ◌==◌, ltb, leb, if◌then◌else◌, add32, length,
}

abbrev pub rsdp_sig_a : ℕ
rsdp_sig_a = 0x20445352

abbrev pub rsdp_sig_b : ℕ
rsdp_sig_b = 0x20525450

abbrev pub madt_sig : ℕ
madt_sig = 0x43495041

-- MAX_CORES.
abbrev pub madt_copy : ℕ
madt_copy = 32

-- MadtType.
abbrev pub type_proc : ℕ
type_proc = 0

abbrev pub type_ioapic : ℕ
type_ioapic = 1

abbrev pub type_iso : ℕ
type_iso = 2

-- The sizes of MadtProc, MadtIoapic and MadtIso.
abbrev pub size_proc : ℕ
size_proc = 8

abbrev pub size_ioapic : ℕ
size_ioapic = 12

abbrev pub size_iso : ℕ
size_iso = 12

-- The copies of the entries.
pub record Copies : Type 0 where
  pub procs : List (List ℕ)
  pub ioapics : List (List ℕ)
  pub isos : List (List ℕ)

pub record Acpi : Type 0 where
  pub copies : Copies
  pub proc_count : ℕ
  pub ioapic_count : ℕ
  pub iso_count : ℕ
  pub lapic_base : ℕ
  pub acpi_found : Bool

-- How the setup ends: with a value, in low_error(), in a write behind a table, or with its fuel used up.
pub data Result (A : Type 0) : Type 0 where
  done : A → Result A
  stopped : Result A
  fault : Result A
  exhausted : Result A

abbrev pub and_then : {A B : Type 0} → Result A → (A → Result B) → Result B
and_then (done a) k = k a
and_then stopped k = stopped
and_then fault k = fault
and_then exhausted k = exhausted

abbrev pub no_copies : Copies
no_copies = record { procs = []; ioapics = []; isos = [] }

module _ (memory : ℕ → ℕ) where
  abbrev pub read32 : ℕ → ℕ
  read32 a = memory a + memory (a + 1) * 2 ^ 8 + memory (a + 2) * 2 ^ 16 + memory (a + 3) * 2 ^ 24

  -- _memcpy of `n` bytes out of the memory.
  pub bytes_at : ℕ → ℕ → List ℕ
  bytes_at zero a = []
  bytes_at (suc n) a = memory a ∷ bytes_at n (a + 1)

  -- The loops of the search, with `n` addresses left.
  pub search_bios : ℕ → ℕ → Option ℕ → Option ℕ
  search_bios zero ptr rsdp = rsdp
  search_bios (suc n) ptr rsdp =
      search_bios n (ptr + 16)
        (if (read32 ptr == rsdp_sig_a) && (read32 (ptr + 4) == rsdp_sig_b) then some ptr else rsdp)

  pub search_ebda : ℕ → ℕ → Option ℕ → Option ℕ
  search_ebda zero ptr rsdp = rsdp
  search_ebda (suc n) ptr rsdp = search_ebda n (ptr + 16) (
      if (read32 ptr == rsdp_sig_a) && (add32 (read32 ptr) 1 == rsdp_sig_b) then some ptr else rsdp)

  -- The extended area has 64 places to look at, the main one 0x2000.
  pub find_rsdp : Option ℕ
  unfolding search_bios search_ebda
  find_rsdp =
      let base : ℕ = bit_and (read32 0x40e * 2 ^ 4 % 2 ^ 32) 0x000fffff in
      search_bios 0x2000 0x000e0000 (search_ebda 64 (base + base % 16) none)

  -- A copy into the next place of a table.
  abbrev pub add_copy : List (List ℕ) → ℕ → ℕ → (List (List ℕ) → Copies) → Result Copies
  add_copy rows n p keep =
      if ltb (length rows) madt_copy then done (keep (rows ++ (bytes_at n (p + 2) ∷ []))) else fault

  -- The switch over the type of an entry.
  pub copy_entry : ℕ → Copies → Result Copies
  unfolding bytes_at
  copy_entry p c =
      if memory p == type_proc
      then add_copy c.procs size_proc p (λ rows. record c { procs = rows })
      else if memory p == type_ioapic
      then add_copy c.ioapics size_ioapic p (λ rows. record c { ioapics = rows })
      else if memory p == type_iso
      then add_copy c.isos size_iso p (λ rows. record c { isos = rows })
      else done c

  -- The loop over the entries of a table that ends at `top`.
  pub copy_entries : ℕ → ℕ → ℕ → Copies → Result Copies
  unfolding copy_entry
  copy_entries zero top p c = exhausted
  copy_entries (suc fuel) top p c = elim (ltb p top) [
    | true ↦ and_then (copy_entry p c) (λ c'. copy_entries fuel top (add32 p (memory (p + 1))) c')
    | false ↦ done c
  ]

  -- What follows the entries of a table.
  pub count_entries : ℕ → Acpi → Copies → Result Acpi
  count_entries base a c =
      if length c.procs == 0
      then stopped
      else if length c.ioapics == 0
      then stopped
      else if length c.isos == 0
      then stopped
      else done (record {
        copies = c;
        proc_count = length c.procs;
        ioapic_count = length c.ioapics;
        iso_count = length c.isos;
        lapic_base = base;
        acpi_found = true;
      })

  -- The case of a table with the signature of a MADT.
  pub read_madt : ℕ → ℕ → Acpi → Result Acpi
  unfolding copy_entries count_entries
  read_madt fuel madt a =
      and_then (copy_entries fuel (add32 madt (read32 (madt + 4))) (add32 madt 44) no_copies)
        (count_entries (read32 (madt + 36)) a)

  -- The loop over the tables, with `found_madt`.
  pub read_tables : ℕ → ℕ → ℕ → ℕ → Bool → Acpi → Result (Bool × Acpi)
  unfolding read_madt
  read_tables zero step top hdr found a = exhausted
  read_tables (suc fuel) step top hdr found a = elim (ltb hdr top) [
    | false ↦ done (found, a)
    | true ↦ elim (read32 (read32 hdr) == madt_sig) [
      | true ↦
          and_then (read_madt fuel (read32 hdr) a)
            (λ a'. read_tables fuel step top (add32 hdr step) true a')
      | false ↦ read_tables fuel step top (add32 hdr step) found a
    ]
  ]

  abbrev pub need_madt : Bool × Acpi → Result Acpi
  need_madt (true, a) = done a
  need_madt (false, a) = stopped

  abbrev pub without_acpi : Acpi → Acpi
  without_acpi a = record a { acpi_found = false; proc_count = 1; ioapic_count = 1; iso_count = 0 }

  -- low_setup behind the search.
  pub read_rsdp : ℕ → ℕ → Acpi → Result Acpi
  unfolding read_tables
  read_rsdp fuel rsdp a =
      let using_xsdt : Bool = leb 2 (memory (rsdp + 15)) in
      let rsdt : ℕ = if using_xsdt then read32 (rsdp + 24) else read32 (rsdp + 16) in
      and_then
        (read_tables fuel (if using_xsdt then 8 else 4) (add32 rsdt (read32 (rsdt + 4)))
          (add32 rsdt 36) false a)
        need_madt

  pub low_setup : ℕ → Acpi → Result Acpi
  unfolding find_rsdp read_rsdp
  low_setup fuel a = elim find_rsdp [
    | none ↦ done (without_acpi a)
    | some rsdp ↦ read_rsdp fuel rsdp a
  ]
