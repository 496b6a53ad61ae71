-- ===== src/Main.antt =====
-- The parts of src/main that have state of their own.
pub mod Vga
