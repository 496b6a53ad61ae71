-- ===== src/Mem/Frames.antt =====
-- What a chain of page records of src/mem/page.cpp stands for: physical pages.
use cantos.Prelude.{ℕ, ◌+◌, ◌*◌, ◌<◌, List, [], ◌∷◌, u32_mod}
use cantos.Mem.State.{Page}
use cantos.Mem.Kmem.Coverage.{inside}
use cantos.Mem.PageAlloc.{page_size}

-- The pages of a chain, as a number that does not wrap.
unfoldable pub total : List Page → ℕ
total [] = 0
total (p ∷ ps) = p.consecutive + total ps

-- How many records of a chain hold the physical address `a`.
unfoldable pub held : ℕ → List Page → ℕ
held a [] = 0
held a (p ∷ ps) = inside a p.mem_base (p.consecutive * page_size) + held a ps

-- No record reaches the end of the physical address space.
abbrev pub Bounded : List Page → Type 0
Bounded [] = Unit {0}
Bounded (p ∷ ps) = (p.mem_base + p.consecutive * page_size < u32_mod) × Bounded ps
