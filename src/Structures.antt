-- ===== src/Structures.antt =====
-- The kernel's data structures (src/structures, include/structures).
pub mod Format
pub mod Utf8
pub mod StaticList
pub mod Elf
pub mod LinkedList
pub mod SharedPtr
pub mod Vector
