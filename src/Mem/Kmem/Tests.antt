-- ===== src/Mem/Kmem/Tests.antt =====
-- Runs of src/mem/kmem.cpp on a small heap, and its theorems there.
use cantos.Prelude.{
  ℕ, ◌+◌, ◌-◌, ◌%◌, ◌≤◌, ◌<◌, ◌≡◌, refl, Bool, true, false, List, [], ◌∷◌, arith, u32_mod,
}
use cantos.Mem.PageAlloc.{sizeof_page, alloc, kinstall_append, used}
use cantos.Mem.State.{
  FreeEntry, Kmem, Pages, Page, Mem, Run, ok, panic, deadlock, fault, out_of_fuel, ◌>>=◌, ◌>>◌,
}
use cantos.Mem.Frames.{total}
use cantos.Mem.Page.{split}
use cantos.Mem.Page.Split.{Parts, split-Parts}
use cantos.Mem.PageAlloc.Chain.{with_free, alloc-deadlock}
use cantos.Mem.Kmem.{
  find_fit, over_limit, grow, search_end, search, round_size, kmalloc, kfree, kfree_nolock,
  do_kmalloc, sentinel_val,
}
use cantos.Mem.Kmem.Malloc.{Allocated, AtHand, do_kmalloc-Allocated, round_size_lem}
use cantos.Mem.Kmem.Coverage.{Bounded, Ordered, held}
use cantos.Mem.Kmem.Free.{Freed, kfree_nolock-Freed}
use cantos.Mem.Kmem.Roundtrip.{Restored, kmalloc-kfree, kfree-twice}

abbrev entry : FreeEntry
entry = record { at = 0xc0200008; size = 0x1fe0; base = 0xc0200020 }

abbrev spare : FreeEntry
spare = record { at = 0xc0200100; size = 0; base = 0 }

-- One block of 8 KiB, and a live block of 64 bytes right before it.
abbrev heap : Kmem
heap = record {
  free_list = entry ∷ [];
  free_end = 0xc0200008;
  free_free_structs = spare ∷ [];
  memory_total = 0x6000;
  memory_used = 0x60;
  memory_end = 0xc0202000;
  headers = λ a. record { size = 64; sentinel = sentinel_val };
}

abbrev no_pages : Pages
no_pages = record {
  used = [];
  page_id_counter = 0;
  allocation_pointer = 0x200000;
  current_map = record { base = 0x100000; length = 0x7f00000; type = 1 };
  later_maps = [];
  virtual_pointer = 0xc0202000;
  cursor = 514;
  table = λ i. 0;
  page_free = [];
  empty_slot = [];
}

kmalloc-kfree_example :
    (k' : Kmem) × ((kmalloc 1 100 0 >>= kfree 0)
        (record { kmem = heap; pages = no_pages; locked = false })
      ≡ ok tt (record { kmem = k'; pages = no_pages; locked = false }))
    × Restored 0 heap k'
unfolding search find_fit round_size over_limit
kmalloc-kfree_example =
    kmalloc-kfree 0 100 0 0 heap no_pages (omega arith) (omega arith) (omega arith) (omega arith)
      (omega arith) (spare, [], refl) refl

do_kmalloc-Allocated_example :
    (ptr : ℕ) × (k' : Kmem) × ((p : Pages) (b : Bool)
      → do_kmalloc 1 101 0 (record { kmem = heap; pages = p; locked = b })
        ≡ ok ptr (record { kmem = k'; pages = p; locked = b }))
    × Allocated 101 heap ptr k'
    × Ordered 0 k'.free_list
    × Bounded k'.free_list
    × (AtHand heap → AtHand k')
unfolding search find_fit round_size over_limit
do_kmalloc-Allocated_example =
    do_kmalloc-Allocated 0 101 0 0 heap (omega arith) (omega arith) (omega arith) (omega arith) refl

kfree-twice_example :
    (kfree 0 0xc01fffe0 >> kfree 0 0xc01fffe0)
      (record { kmem = heap; pages = no_pages; locked = false })
    ≡ panic
unfolding held
kfree-twice_example =
    kfree-twice 0 0xc01fffe0 0 heap no_pages (omega arith) (omega arith) (omega arith) refl
      (spare, [], refl) (omega arith) (omega arith) (λ a p q. ground arith)

-- The block is merged with the one behind it.
kfree_nolock-Freed_example :
    (k' : Kmem) × (kfree_nolock 0 0xc01fffe0
        (record { kmem = heap; pages = no_pages; locked = true })
      ≡ ok tt (record { kmem = k'; pages = no_pages; locked = true }))
    × Freed heap 0xc01fffe0 0 k'
unfolding held
kfree_nolock-Freed_example =
    kfree_nolock-Freed 0 0xc01fffe0 0 (record { kmem = heap; pages = no_pages; locked = true })
      (omega arith) (omega arith) (omega arith) refl refl (omega arith) (omega arith)
      (λ a p q. ground arith)

round_size_lem_example :
    (round_size 4294967293 % 4 ≡ 0)
    × (sizeof_page ≤ round_size 4294967293)
    × (4294967293 ≤ u32_mod - 4 → 4294967293 ≤ round_size 4294967293)
    × (4294967293 ≤ u32_mod - 4 → round_size 4294967293 ≤ 4294967293 + 20)
    × (u32_mod - 4 < 4294967293 → round_size 4294967293 ≡ sizeof_page)
round_size_lem_example = round_size_lem 4294967293 (omega arith)

abbrev pointer : Run ℕ → ℕ
pointer (ok p m) = p
pointer panic = 1
pointer deadlock = 2
pointer fault = 3
pointer out_of_fuel = 4

-- A request that no block can serve: the record of the new pages is cut off the front of the
-- block, the pages join its end, and the request is served from it.
grown :
    pointer (kmalloc 6 0x2800 0 (record { kmem = heap; pages = no_pages; locked = false }))
    ≡ 0xc0200044
unfolding kmalloc do_kmalloc search search_end grow alloc kinstall_append used round_size
grown = refl

-- Two runs of free pages, of two and of three pages.
abbrev low : Page
low = record { at = 0xc0200200; page_id = 1; mem_base = 0x300000; flags = 1; consecutive = 2 }

abbrev high : Page
high = record { at = 0xc0200240; page_id = 2; mem_base = 0x400000; flags = 1; consecutive = 3 }

split-Parts_example :
    (front back : List Page) × (m' : Mem) × (split 1
        (low ∷ high ∷ [])
        3
        (record { kmem = heap; pages = no_pages; locked = false })
      ≡ ok (front, back) m')
    × Parts (low ∷ high ∷ []) 3 front back
    × (m'.locked ≡ false)
unfolding kmalloc do_kmalloc search round_size total
split-Parts_example =
    split-Parts 1 3 low (high ∷ []) (record { kmem = heap; pages = no_pages; locked = false })
      (omega arith) (omega arith) (omega arith) refl refl

alloc-deadlock_example :
    alloc
      (kmalloc 1)
      2
      0
      3
      (record { kmem = heap; pages = with_free no_pages (low ∷ high ∷ []); locked = false })
    ≡ deadlock
alloc-deadlock_example =
    alloc-deadlock (kmalloc 1) 0 0 3 heap no_pages low (high ∷ []) (omega arith) (omega arith) refl
