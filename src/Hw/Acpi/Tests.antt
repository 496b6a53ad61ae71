-- ===== src/Hw/Acpi/Tests.antt =====
-- The setup of src/hw/loacpi.cpp on small memories.
use cantos.Prelude.{ℕ, ◌≡◌, refl, true, List, [], ◌∷◌, ◌==◌, if◌then◌else◌, arith}
use cantos.Hw.Acpi.{Acpi, done, exhausted, no_copies, copy_entries, read_rsdp}
use cantos.Hw.Acpi.Setup.{IsMadt, acpi_of, read_rsdp-Copies}
use cantos.Hw.Acpi.Endless.{copy_entries-exhausted}

-- The bytes that are not 0, with their addresses.
abbrev byte_at : List (ℕ × ℕ) → ℕ → ℕ
byte_at [] a = 0
byte_at ((p, b) ∷ rest) a = if p == a then b else byte_at rest a

-- A descriptor at 100, its list of two tables at 200, and a MADT at 400 with a processor, an I/O controller
-- and an override.
abbrev some_bytes : List (ℕ × ℕ)
some_bytes =
    (116, 200)
    ∷ (204, 44)
    ∷ (237, 2)
    ∷ (240, 144)
    ∷ (241, 1)
    ∷ (400, 0x41)
    ∷ (401, 0x50)
    ∷ (402, 0x49)
    ∷ (403, 0x43)
    ∷ (404, 74)
    ∷ (438, 0xe0)
    ∷ (439, 0xfe)
    ∷ (445, 8)
    ∷ (446, 1)
    ∷ (448, 1)
    ∷ (452, 1)
    ∷ (453, 12)
    ∷ (454, 2)
    ∷ (459, 0xfe)
    ∷ (464, 2)
    ∷ (465, 10)
    ∷ (468, 2)
    ∷ []

abbrev some_acpi : Acpi
some_acpi = record {
  copies = no_copies;
  proc_count = 0;
  ioapic_count = 0;
  iso_count = 0;
  lapic_base = 0;
  acpi_found = true;
}

some_bytes-IsMadt : IsMadt (byte_at some_bytes) 400 (444 ∷ 452 ∷ 464 ∷ [])
some_bytes-IsMadt = record {
  signature = refl;
  walk = (
    refl,
    omega arith,
    omega arith,
    (refl, omega arith, omega arith, (refl, omega arith, omega arith, omega arith)),
  );
  fits = record { procs = omega arith; ioapics = omega arith; isos = omega arith };
  procs = omega arith;
  ioapics = omega arith;
  isos = omega arith;
}

read_rsdp-Copies_example :
    read_rsdp (byte_at some_bytes) 10 100 some_acpi
    ≡ done (acpi_of (byte_at some_bytes) 400 (444 ∷ 452 ∷ 464 ∷ []))
read_rsdp-Copies_example =
    read_rsdp-Copies (byte_at some_bytes) 100 10 (512 ∷ []) 400 [] (444 ∷ 452 ∷ 464 ∷ []) some_acpi
      (omega arith, refl, omega arith, (omega arith, refl, omega arith, omega arith)) (refl, tt) tt
      some_bytes-IsMadt (omega arith)

-- An entry of a local controller's interrupt with its length left at 0.
copy_entries-exhausted_example :
    copy_entries (byte_at ((44, 4) ∷ [])) 1000 50 44 no_copies ≡ exhausted
copy_entries-exhausted_example =
    copy_entries-exhausted (byte_at ((44, 4) ∷ [])) 1000 50 44 no_copies (omega arith) (omega arith)
      (omega arith) refl
