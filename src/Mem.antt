-- ===== src/Mem.antt =====
-- The kernel's memory: the heap (src/mem/kmem.cpp) and the physical pages (src/mem/page.cpp).
pub mod State
pub mod PageAlloc
pub mod Frames
pub mod Kmem
pub mod Page
pub mod Vm
pub mod Object
pub mod Gdt
