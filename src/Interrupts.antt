-- ===== src/Interrupts.antt =====
-- The interrupts of the kernel (src/int).
pub mod Idt
pub mod Ioapic
pub mod Exceptions
pub mod Commands
pub mod Lapic
pub mod Pic
