-- ===== src/Mem/Page.antt =====
-- src/mem/page.cpp behind the allocator: create, free, count, split, kinstall and kuninstall. The
-- operations that kmalloc calls are in Mem/PageAlloc.antt. invlpg sends no part of the state.
pub mod Split
use Prim.Native.Nat.{bit_or}
use cantos.Prelude.{
  ℕ, zero, suc, ◌+◌, ◌-◌, ◌*◌, ◌/◌, ◌%◌, Bool, true, false, List, [], ◌∷◌, ◌++◌, Option, none, some,
  ltb, leb, ◌==◌, if◌then◌else◌, add32, sub32, mul32,
}
use cantos.Mem.State.{
  Page, Slot, Pages, Mem, Cmd, Run, ok, out_of_fuel, ◌>>=◌, ◌>>◌, pure, undefined, get_pages,
  set_pages, lock, unlock,
}
use cantos.Mem.PageAlloc.{
  page_size, sizeof_page, flag_allocated, kmalloc_reserved, kmalloc_nolock, page_entry, update,
  kinstall_append,
}
use cantos.Mem.Kmem.{kmalloc, kfree_nolock}

abbrev pub kernel_vm_base : ℕ
kernel_vm_base = 0xc0000000

abbrev pub sizeof_slot : ℕ
sizeof_slot = 12

-- page::create
pub create : ℕ → ℕ → ℕ → ℕ → Cmd Page
create fuel base flags count = do
  lock
  at ← kmalloc fuel sizeof_page (kmalloc_reserved + kmalloc_nolock)
  p ← get_pages
  set_pages (record p { page_id_counter = add32 p.page_id_counter 1 })
  unlock
  pure (record {
    at = at;
    page_id = p.page_id_counter;
    mem_base = base;
    flags = bit_or flag_allocated flags;
    consecutive = count;
  })

-- Page::count of a chain, a 32-bit sum.
count_from : ℕ → List Page → ℕ
count_from sum [] = sum
count_from sum (p ∷ ps) = count_from (add32 sum p.consecutive) ps

pub count : List Page → ℕ
unfolding count_from
count ps = count_from 0 ps

-- Page::split: what is left of this chain, and the chain that is returned.
pub split : ℕ → List Page → ℕ → Cmd (List Page × List Page)
unfolding create
split fuel [] n = undefined
split fuel (p ∷ ps) n =
    if ltb p.consecutive n
    then (split fuel ps (sub32 n p.consecutive) >>= λ parts. pure (p ∷ parts.0, parts.1))
    else (create fuel (add32 p.mem_base (mul32 n page_size)) p.flags (sub32 p.consecutive n)
        >>= λ created. pure (record p { consecutive = n } ∷ [], created ∷ ps))

-- _merge_free(first), on the list: the new list, and the record that is left over.
pub merge_pages : ℕ → List Page → List Page × Option Page
merge_pages first [] = ([], none)
merge_pages first (e ∷ []) = (e ∷ [], none)
merge_pages first (e ∷ n ∷ rest) =
    if e.at == first
    then if add32 e.mem_base (mul32 e.consecutive page_size) == n.mem_base
      then (record e { consecutive = add32 e.consecutive n.consecutive } ∷ rest, some n)
      else (e ∷ n ∷ rest, none)
    else let (rest', out) = merge_pages first (n ∷ rest) in (e ∷ rest', out)

free_record : ℕ → Option Page → Cmd (Unit {0})
free_record fuel none = pure tt
free_record fuel (some hold) = kfree_nolock fuel hold.at

pub merge_free : ℕ → ℕ → Cmd (Unit {0})
unfolding merge_pages free_record
merge_free fuel first = do
  p ← get_pages
  let (list, out) = merge_pages first p.page_free
  set_pages (record p { page_free = list })
  free_record fuel out

-- The walk of free to the place of a page, and where it leaves `prev`.
pub insert_page : Page → List Page → List Page
insert_page new [] = new ∷ []
insert_page new (e ∷ es) =
    if ltb e.mem_base new.mem_base then e ∷ insert_page new es else new ∷ e ∷ es

pub prev_page : ℕ → ℕ → List Page → ℕ
prev_page base prev [] = prev
prev_page base prev (e ∷ es) = if ltb e.mem_base base then prev_page base e.at es else prev

-- page::free of one record: the part behind the recursive call.
free_one : ℕ → Page → Cmd (Unit {0})
unfolding insert_page prev_page merge_free
free_one fuel page = do
  lock
  p ← get_pages
  let prev = prev_page page.mem_base 0 p.page_free
  set_pages (record p { page_free = insert_page page p.page_free })
  merge_free fuel page.at
  (if prev == 0 then pure tt else merge_free fuel prev)
  unlock

-- page::free: the chain from its end.
pub free : ℕ → List Page → Cmd (Unit {0})
unfolding free_one
free fuel [] = pure tt
free fuel (p ∷ ps) = do free fuel ps; free_one fuel p

-- _merge_free_slots
pub merge_slots : ℕ → List Slot → List Slot × Option Slot
merge_slots first [] = ([], none)
merge_slots first (e ∷ []) = (e ∷ [], none)
merge_slots first (e ∷ n ∷ rest) =
    if e.at == first
    then if add32 e.base (mul32 e.pages page_size) == n.base
      then (record e { pages = add32 e.pages n.pages } ∷ rest, some n)
      else (e ∷ n ∷ rest, none)
    else let (rest', out) = merge_slots first (n ∷ rest) in (e ∷ rest', out)

free_slot : ℕ → Option Slot → Cmd (Unit {0})
free_slot fuel none = pure tt
free_slot fuel (some hold) = kfree_nolock fuel hold.at

merge_free_slots : ℕ → ℕ → Cmd (Unit {0})
unfolding merge_slots free_slot
merge_free_slots fuel first = do
  p ← get_pages
  let (list, out) = merge_slots first p.empty_slot
  set_pages (record p { empty_slot = list })
  free_slot fuel out

-- The search of kinstall for a hole of `total` pages: the list without those pages, the address
-- where they start, and the slot that is used up.
pub take_slot : ℕ → List Slot → Option (List Slot × ℕ × Option Slot)
take_slot total [] = none
take_slot total (s ∷ ss) =
    if ltb s.pages total
    then elim (take_slot total ss) [
      | none ↦ none
      | some (ss', base, used) ↦ some (s ∷ ss', base, used)
    ]
    else if s.pages == total
    then some (ss, s.base, some s)
    else some (
      record s { pages = sub32 s.pages total; base = add32 s.base (mul32 total page_size) } ∷ ss,
      s.base,
      none,
    )

-- The writes of kinstall for one record: `n` entries from `entry` on. The bound of the loop is
-- that of the first record, whichever record is written.
pub write_entries : (ℕ → ℕ) → ℕ → ℕ → ℕ → ℕ → ℕ → ℕ → ℕ
unfolding page_entry update
write_entries table entry base page_flags i zero = table
write_entries table entry base page_flags i (suc n) =
    write_entries (update table entry (page_entry base i page_flags)) (entry + 1) base page_flags
      (i + 1) n

pub write_chain : ℕ → (ℕ → ℕ) → ℕ → ℕ → List Page → ℕ → ℕ
unfolding write_entries
write_chain rounds table entry page_flags [] = table
write_chain rounds table entry page_flags (p ∷ ps) =
    write_chain rounds (write_entries table entry p.mem_base page_flags 0 rounds) (entry + rounds)
      page_flags ps

abbrev pub entry_of : ℕ → ℕ
entry_of base = sub32 base kernel_vm_base / page_size

-- kinstall where a hole was found.
install_at : ℕ → List Page → ℕ → List Slot → ℕ → Option Slot → Cmd ℕ
unfolding write_chain free_slot
install_at rounds chain page_flags slots base used = do
  p ← get_pages
  set_pages (record p { table = write_chain rounds p.table (entry_of base) page_flags chain })
  unlock
  pure base

fill_slot : ℕ → List Page → ℕ → List Slot → ℕ → Option Slot → Cmd ℕ
unfolding install_at
fill_slot fuel [] page_flags slots base used = undefined
fill_slot fuel (page ∷ rest) page_flags slots base used = do
  p ← get_pages
  set_pages (record p { empty_slot = slots })
  free_slot fuel used
  (if base == 0
      then (unlock >> kinstall_append (page ∷ rest) page_flags true)
      else install_at page.consecutive (page ∷ rest) page_flags slots base used)

-- page::kinstall
pub kinstall : ℕ → List Page → ℕ → Cmd ℕ
unfolding take_slot fill_slot count
kinstall fuel chain page_flags = do
  lock
  p ← get_pages
  elim (take_slot (count chain) p.empty_slot) [
    | some (slots, base, used) ↦ fill_slot fuel chain page_flags slots base used
    | none ↦ unlock >> kinstall_append chain page_flags true
  ]

pub insert_slot : Slot → List Slot → List Slot
insert_slot new [] = new ∷ []
insert_slot new (e ∷ es) = if ltb e.base new.base then e ∷ insert_slot new es else new ∷ e ∷ es

pub prev_slot : ℕ → ℕ → List Slot → ℕ
prev_slot base prev [] = prev
prev_slot base prev (e ∷ es) = if ltb e.base base then prev_slot base e.at es else prev

pub clear_entries : (ℕ → ℕ) → ℕ → ℕ → ℕ → ℕ
unfolding update
clear_entries table entry zero = table
clear_entries table entry (suc n) = clear_entries (update table entry 0) (entry + 1) n

-- page::kuninstall of one record; the result is where the next one starts. The place in the list is
-- found before the kmalloc, which changes no slot.
uninstall_one : ℕ → ℕ → Page → Cmd ℕ
unfolding insert_slot prev_slot clear_entries merge_free_slots
uninstall_one fuel base page = do
  lock
  at ← kmalloc fuel sizeof_slot kmalloc_nolock
  p ← get_pages
  let prev = prev_slot base 0 p.empty_slot
  let slot : Slot = record { at = at; base = base; pages = page.consecutive }
  set_pages (record p {
    empty_slot = insert_slot slot p.empty_slot;
    table = clear_entries p.table (entry_of base) page.consecutive;
  })
  merge_free_slots fuel at
  (if prev == 0 then pure tt else merge_free_slots fuel prev)
  unlock
  pure (add32 base (mul32 page.consecutive page_size))

pub kuninstall : ℕ → ℕ → List Page → Cmd (Unit {0})
unfolding uninstall_one
kuninstall fuel base [] = pure tt
kuninstall fuel base (p ∷ ps) = uninstall_one fuel base p >>= λ next. kuninstall fuel next ps
