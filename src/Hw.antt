-- ===== src/Hw.antt =====
-- The drivers of src/hw that have state of their own.
pub mod Keyboard
pub mod Pci
pub mod Ps2
pub mod Acpi
