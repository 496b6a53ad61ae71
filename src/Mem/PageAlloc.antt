-- ===== src/Mem/PageAlloc.antt =====
-- The operations of src/mem/page.cpp that kmalloc itself calls: alloc_nokmalloc, alloc, used and
-- kinstall_append. The kmalloc that `alloc` calls is an argument, since kmalloc calls `alloc`.
pub mod Chain
use Prim.Native.Nat.{bit_and, bit_or}
use cantos.Prelude.{
  ℕ, zero, suc, ◌+◌, ◌-◌, ◌*◌, ◌/◌, ◌%◌, ◌^◌, Bool, true, false, not, ◌&&◌, List, [], ◌∷◌, Option,
  none, some, ltb, leb, ◌==◌, if◌then◌else◌, u32_mod, add32, sub32, mul32,
}
use cantos.Mem.State.{
  Page, Region, Pages, Kmem, Cmd, Run, out_of_fuel, ◌>>=◌, ◌>>◌, pure, do_panic, undefined,
  get_kmem, set_kmem, get_pages, set_pages, lock, unlock, when,
}

abbrev pub page_size : ℕ
page_size = 0x1000

abbrev pub sizeof_page : ℕ
sizeof_page = 20

abbrev pub flag_allocated : ℕ
flag_allocated = 0x01

abbrev pub flag_kernel : ℕ
flag_kernel = 0x02

abbrev pub flag_reserved : ℕ
flag_reserved = 0x04

abbrev pub flag_nolock : ℕ
flag_nolock = 0x08

abbrev pub page_table_present : ℕ
page_table_present = 0x01

abbrev pub page_table_rw : ℕ
page_table_rw = 0x02

abbrev pub total_vm_size : ℕ
total_vm_size = 0x100000000

abbrev pub kmalloc_reserved : ℕ
kmalloc_reserved = 1

abbrev pub kmalloc_nolock : ℕ
kmalloc_nolock = 2

abbrev pub has_flag : ℕ → ℕ → Bool
has_flag flags flag = not (bit_and flags flag == 0)

abbrev pub region_end : Region → ℕ
region_end r = (r.base + r.length) % 2 ^ 64

-- The scan for the next usable entry. Its bound is `mem_table + sizeof(mem_table)`, which counts
-- bytes as entries, so it does not stop at the end of the table.
pub next_region : List Region → Option (Region × List Region)
next_region [] = none
next_region (r ∷ rs) = if r.type == 1 then some (r, rs) else next_region rs

-- What alloc_nokmalloc gives out of the current region for a request of `size` bytes.
pub bump_size : Pages → ℕ → ℕ
bump_size p size =
    if leb (region_end p.current_map) (add32 p.allocation_pointer size)
    then (region_end p.current_map + 2 ^ 64 - p.allocation_pointer) % 2 ^ 64 % u32_mod
    else size

-- The current region is used up: the next one, if the scan finds one that is addressable.
skip_region : Pages → Cmd (Unit {0})
unfolding next_region
skip_region p = elim (next_region p.later_maps) [
  | none ↦ undefined
  | some (r, rs) ↦
      if leb u32_mod r.base
      then do_panic
      else set_pages (record p { current_map = r; later_maps = rs; allocation_pointer = r.base })
]

-- The body of alloc_nokmalloc between lock and unlock.
bump : ℕ → ℕ → Cmd Page
unfolding skip_region bump_size
bump flags count = do
  p ← get_pages
  let size = bump_size p (mul32 count page_size)
  let page : Page = record {
    at = 0;
    page_id = p.page_id_counter;
    mem_base = p.allocation_pointer;
    flags = bit_or flag_allocated flags;
    consecutive = size / page_size;
  }
  let p' : Pages = record p {
    page_id_counter = add32 p.page_id_counter 1;
    allocation_pointer = add32 p.allocation_pointer size;
  }
  if add32 p.allocation_pointer size == region_end p.current_map
      then (skip_region p' >> pure page)
      else (set_pages p' >> pure page)

-- The result is the static page, which every caller copies: its address plays no part.
unfoldable pub alloc_nokmalloc : ℕ → ℕ → Cmd Page
unfolding bump
alloc_nokmalloc flags count =
    if has_flag flags flag_nolock
    then bump flags count
    else (do lock; page ← bump flags count; unlock; pure page)

module _ (kmalloc : ℕ → ℕ → Cmd ℕ) where
  pub alloc_record : ℕ → Cmd ℕ
  alloc_record flags =
      kmalloc sizeof_page
        (bit_or (if has_flag flags flag_reserved then kmalloc_reserved else 0) kmalloc_nolock)

  -- `count` pages off the front of the first free record.
  pub cut_front : ℕ → ℕ → ℕ → Cmd Page
  cut_front flags count at = do
    p ← get_pages
    elim p.page_free [
      | [] ↦ undefined
      | h ∷ rest ↦
          let h' : Page = record h {
            mem_base = add32 h.mem_base (mul32 count page_size);
            consecutive = sub32 h.consecutive count;
          } in
          set_pages
            (record p { page_id_counter = add32 p.page_id_counter 1; page_free = h' ∷ rest })
          >> pure (record {
            at = at;
            page_id = p.page_id_counter;
            mem_base = h.mem_base;
            flags = flags;
            consecutive = count;
          })
    ]

  -- The first free record whole.
  unfoldable pub take_front : ℕ → Cmd Page
  take_front flags = do
    p ← get_pages
    elim p.page_free [
      | [] ↦ undefined
      | h ∷ rest ↦ set_pages (record p { page_free = rest }) >> pure (record h { flags = flags })
    ]

  unfoldable pub from_free : ℕ → ℕ → Page → Cmd Page
  unfolding alloc_record cut_front take_front
  from_free flags count head =
      if ltb count head.consecutive
      then alloc_record flags >>= cut_front flags count
      else take_front flags

  -- No page is free: a new record, and fresh memory.
  pub from_map : ℕ → ℕ → Cmd Page
  unfolding alloc_record alloc_nokmalloc
  from_map flags count = do
    at ← alloc_record flags
    page ← alloc_nokmalloc (bit_or flags flag_nolock) count
    pure (record page { at = at })

  unfoldable pub alloc_one : ℕ → ℕ → Cmd Page
  unfolding from_free from_map
  alloc_one flags count = do
    p ← get_pages
    elim p.page_free [ [] ↦ from_map flags count | h ∷ rest ↦ from_free flags count h ]

  -- page::alloc: the chain of pages, head first; [] is NULL. The rest of the request is asked for
  -- with the mutex still held.
  unfoldable pub alloc : ℕ → ℕ → ℕ → Cmd (List Page)
  unfolding alloc_one
  alloc zero flags count = λ m. out_of_fuel
  alloc (suc fuel) flags count = if count == 0 then pure [] else do
    when (not (has_flag flags flag_nolock)) lock
    page ← alloc_one flags count
    rest ← λ m.
        if ltb page.consecutive count
        then alloc fuel flags (sub32 count page.consecutive) m
        else pure [] m
    when (not (has_flag flags flag_nolock)) unlock
    pure (page ∷ rest)

-- page::used
unfoldable pub used : List Page → Bool → Cmd (Unit {0})
used [] locking = pure tt
used (page ∷ rest) locking = do
  when locking lock
  p ← get_pages
  set_pages (record p { used = page ∷ p.used })
  when locking unlock
  used rest locking

unfoldable pub page_entry : ℕ → ℕ → ℕ → ℕ
page_entry base i page_flags =
    bit_or (bit_or (add32 base (mul32 page_size i)) page_flags) page_table_present

unfoldable pub update : (ℕ → ℕ) → ℕ → ℕ → ℕ → ℕ
update f k v j = if j == k then v else f j

-- The loop of kinstall_append over the pages of one record: `n` rounds from round `i` on.
append_pages : ℕ → ℕ → ℕ → ℕ → ℕ → Cmd ℕ
unfolding page_entry update
append_pages base page_flags i zero first = pure first
append_pages base page_flags i (suc n) first = do
  p ← get_pages
  if leb (total_vm_size - page_size) p.virtual_pointer
      then do_panic
      else set_pages (record p {
        table = update p.table p.cursor (page_entry base i page_flags);
        virtual_pointer = add32 p.virtual_pointer page_size;
        cursor = p.cursor + 1;
      })
        >>= λ _.
            append_pages base page_flags (i + 1) n (if first == 0 then p.virtual_pointer else first)

install_record : Page → ℕ → Bool → Cmd ℕ
unfolding append_pages
install_record page page_flags locking = do
  when locking lock
  first ← append_pages page.mem_base page_flags 0 page.consecutive 0
  p ← get_pages
  k ← get_kmem
  set_kmem (record k { memory_end = p.virtual_pointer })
  when locking unlock
  pure first

-- page::kinstall_append. The pages behind the first are installed with `lock` at its default.
unfoldable pub kinstall_append : List Page → ℕ → Bool → Cmd ℕ
unfolding install_record
kinstall_append [] page_flags locking = undefined
kinstall_append (page ∷ []) page_flags locking = install_record page page_flags locking
kinstall_append (page ∷ q ∷ qs) page_flags locking = do
  first ← install_record page page_flags locking
  kinstall_append (q ∷ qs) page_flags true
  pure first
