-- ===== src/Mem/PageAlloc/Chain.antt =====
-- page::alloc of src/mem/page.cpp out of the list of free pages.
use Prim.Native.Nat.{bit_or}
use cantos.Prelude.{
  ℕ, suc, ◌+◌, ◌<◌, ◌≡◌, Bool, true, false, List, ◌∷◌, ltb, ◌==◌, if◌then◌else◌, arith, add32,
  sub32, mul32, u32_mod,
}
use cantos.Mem.State.{Page, Pages, Kmem, Mem, Cmd, ok, deadlock}
use cantos.Mem.Frames.{total, held}
use cantos.Mem.PageAlloc.{
  page_size, flag_reserved, flag_nolock, kmalloc_reserved, kmalloc_nolock, has_flag, alloc,
  alloc_one, from_free, take_front,
}

abbrev pub mem : Kmem → Pages → Bool → Mem
mem k p b = record { kmem = k; pages = p; locked = b }

-- The state of the pages with `free` for its list of free pages.
abbrev pub with_free : Pages → List Page → Pages
with_free p free = record p { page_free = free }

abbrev pub record_flags : ℕ → ℕ
record_flags flags =
    bit_or (if has_flag flags flag_reserved then kmalloc_reserved else 0) kmalloc_nolock

-- kmalloc serves a request of `size` bytes from the heap `k`, whatever the pages are.
abbrev pub Serves : (ℕ → ℕ → Cmd ℕ) → Kmem → Bool → ℕ → ℕ → Type 0
Serves kmalloc k b size flags =
    (at : ℕ) × (k' : Kmem) × ((p : Pages) → kmalloc size flags (mem k p b) ≡ ok at (mem k' p b))

abbrev taken : ℕ → ℕ → ℕ → Pages → Page → Page
taken flags count at p h = record {
  at = at;
  page_id = p.page_id_counter;
  mem_base = h.mem_base;
  flags = flags;
  consecutive = count;
}

abbrev pub next_id : Pages → Pages
next_id p = record p { page_id_counter = add32 p.page_id_counter 1 }

abbrev left : ℕ → Page → Page
left count h = record h {
  mem_base = add32 h.mem_base (mul32 count page_size);
  consecutive = sub32 h.consecutive count;
}

module _ (kmalloc : ℕ → ℕ → Cmd ℕ) where
  take_whole :
      (flags count : ℕ) (k : Kmem) (p : Pages) (b : Bool) (h : Page) (rest : List Page)
      → ltb count h.consecutive ≡ false
      → alloc_one kmalloc flags count (mem k (with_free p (h ∷ rest)) b)
        ≡ ok (record h { flags = flags }) (mem k (with_free p rest) b)
  unfolding alloc_one from_free take_front
  take_whole flags count k p b h rest whole = rw whole

  -- A chain whose first record is too small, asked for with the mutex to be taken: the call for
  -- the rest waits for the mutex that this call holds.
  pub alloc-deadlock :
      (fuel flags count : ℕ) (k : Kmem) (p : Pages) (h : Page) (rest : List Page)
      → h.consecutive < count
      → count < u32_mod
      → has_flag flags flag_nolock ≡ false
      → alloc kmalloc (suc (suc fuel)) flags count (mem k (with_free p (h ∷ rest)) false) ≡ deadlock
  unfolding alloc
  alloc-deadlock fuel flags count k p h rest small fits locks =
      let some_pages : (count == 0) ≡ false = ground arith in
      let whole : ltb count h.consecutive ≡ false = ground arith in
      let short : ltb h.consecutive count ≡ true = ground arith in
      let more : (sub32 count h.consecutive == 0) ≡ false = ground arith in
      rw (some_pages, locks) (rw (take_whole flags count k p true h rest whole) (rw (short, more)))

  -- What the chain for `count` pages is: that many pages, each of them off the list `free` of free
  -- pages, whose others remain as `free'`.
  pub record Chained (count : ℕ) (free chain free' : List Page) : Type 0 where
    pub size : total chain ≡ count
    pub frames : (a : ℕ) → held a chain + held a free' ≡ held a free
