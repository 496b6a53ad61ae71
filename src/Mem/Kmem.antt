-- ===== src/Mem/Kmem.antt =====
-- src/mem/kmem.cpp: kmalloc, kfree and their helpers. `_verify` and the printing of debug builds
-- are empty in the configuration of include/config.hpp (DEBUG_MEM is 0).
pub mod Coverage
pub mod Free
pub mod Malloc
pub mod Roundtrip
mod Tests
use Prim.Native.Nat.{bit_or}
use cantos.Prelude.{
  ℕ, zero, suc, ◌+◌, ◌-◌, ◌*◌, ◌/◌, ◌%◌, Bool, true, false, not, ◌&&◌, ◌||◌, List, [], ◌∷◌, ◌++◌,
  Option, none, some, ltb, leb, ◌==◌, if◌then◌else◌, add32, sub32, mul32,
}
use cantos.Mem.State.{
  FreeEntry, Header, Kmem, Page, Mem, Cmd, Run, ok, panic, out_of_fuel, ◌>>=◌, ◌>>◌, pure, do_panic,
  undefined, get_kmem, set_kmem, lock, unlock, when,
}
use cantos.Mem.PageAlloc.{
  page_size, sizeof_page, flag_kernel, flag_reserved, flag_nolock, page_table_rw, kmalloc_reserved,
  kmalloc_nolock, has_flag, alloc, used, kinstall_append,
}

abbrev pub sizeof_header : ℕ
sizeof_header = 8

abbrev pub sizeof_free : ℕ
sizeof_free = 12

abbrev pub minimum_pages : ℕ
minimum_pages = 2

abbrev pub sentinel_val : ℕ
sentinel_val = 0x4b4d454d

abbrev pub sentinel_freed : ℕ
sentinel_freed = 0x46524545

abbrev pub is_nil : List FreeEntry → Bool
is_nil [] = true
is_nil (x ∷ xs) = false

-- _merge_free(first), on the list: the entry at `first` swallows the next one if they touch. The
-- second part is the structure that is left over, and whether `first` is now the last entry.
pub merge_list : ℕ → List FreeEntry → List FreeEntry × Option (FreeEntry × Bool)
merge_list first [] = ([], none)
merge_list first (e ∷ []) = (e ∷ [], none)
merge_list first (e ∷ n ∷ rest) =
    if e.at == first
    then if add32 e.base e.size == n.base
      then (record e { size = add32 e.size n.size } ∷ rest, some (n, is_nil rest))
      else (e ∷ n ∷ rest, none)
    else let (rest', out) = merge_list first (n ∷ rest) in (e ∷ rest', out)

pub merge_free : ℕ → Kmem → Kmem
merge_free first k =
    let (list, out) = merge_list first k.free_list in
    elim out [
      | none ↦ k
      | some (hold, last) ↦ record k {
        free_list = list;
        free_free_structs = hold ∷ k.free_free_structs;
        free_end = if last then first else k.free_end;
      }
    ]

-- The size that do_kmalloc looks for: a multiple of four, at least that of a page record.
pub round_size : ℕ → ℕ
round_size size =
    let aligned = if size % 4 == 0 then size else add32 size (4 - size % 4) in
    if ltb aligned sizeof_page then sizeof_page else aligned

-- The first free block that is large enough, with the blocks on either side of it and the address
-- of the structure before it (`prev`).
pub record Fit : Type 0 where
  pub before : List FreeEntry
  pub free : FreeEntry
  pub after : List FreeEntry
  pub prev : ℕ

pub find_fit : ℕ → ℕ → List FreeEntry → Option Fit
find_fit needed prev [] = none
find_fit needed prev (e ∷ es) =
    if leb needed e.size
    then some (record { before = []; free = e; after = es; prev = prev })
    else elim (find_fit needed e.at es) [
      | none ↦ none
      | some f ↦ some (record f { before = e ∷ f.before })
    ]

-- The address of the last structure, where the search ends when nothing fits.
pub last_at : ℕ → List FreeEntry → ℕ
last_at prev [] = prev
last_at prev (e ∷ es) = last_at e.at es

abbrev pub with_nolock : ℕ → ℕ
with_nolock flags = bit_or flags kmalloc_nolock

-- A write of a header.
pub set_header : (ℕ → Header) → ℕ → Header → ℕ → Header
set_header hs at h a = if a == at then h else hs a

-- The block that was found, handed out whole: the pointer and the new state.
pub take_whole : Kmem → Fit → ℕ × Kmem
unfolding set_header
take_whole k f =
    let whole = sub32 f.free.size sizeof_header in
    (
      add32 f.free.base sizeof_header,
      record k {
        free_list = f.before ++ f.after;
        free_end = if f.free.at == k.free_end then f.prev else k.free_end;
        free_free_structs = f.free ∷ k.free_free_structs;
        headers =
            set_header k.headers f.free.base (record { size = whole; sentinel = sentinel_val });
        memory_used = add32 k.memory_used (add32 whole sizeof_header);
      },
    )

-- Its front part, with the block shrunk.
pub take_part : Kmem → Fit → ℕ → ℕ × Kmem
unfolding set_header
take_part k f size =
    let needed = add32 size sizeof_header in
    let shrunk : FreeEntry = record f.free {
      size = sub32 f.free.size needed;
      base = add32 f.free.base needed;
    } in
    (
      add32 f.free.base sizeof_header,
      record k {
        free_list = f.before ++ (shrunk ∷ f.after);
        headers =
            set_header k.headers f.free.base (record { size = size; sentinel = sentinel_val });
        memory_used = add32 k.memory_used needed;
      },
    )

-- Whole if what would remain cannot hold a header.
pub take_fit : Kmem → Fit → ℕ → ℕ × Kmem
unfolding take_whole take_part
take_fit k f size =
    if leb f.free.size (add32 (add32 size sizeof_header) sizeof_header)
    then take_whole k f
    else take_part k f size

-- The reserve: an ordinary request may not use the last two pages.
pub over_limit : Kmem → ℕ → ℕ → Bool
over_limit k needed flags =
    (ltb (sub32 k.memory_total (minimum_pages * page_size)) (k.memory_used + needed)
      || ltb k.memory_total (minimum_pages * page_size))
    && not (has_flag flags kmalloc_reserved)

-- A structure by its address, in use or left over.
pub find_struct : ℕ → List FreeEntry → Option FreeEntry
find_struct at [] = none
find_struct at (e ∷ es) = if e.at == at then some e else find_struct at es

-- `prev->base + prev->size == address`, for a `prev` that is not NULL.
pub ends_at : Kmem → ℕ → ℕ → Bool
unfolding find_struct
ends_at k prev address =
    not (prev == 0) && elim (find_struct prev (k.free_list ++ k.free_free_structs)) [
      | none ↦ false
      | some e ↦ add32 e.base e.size == address
    ]

abbrev pub size_of : Kmem → ℕ → ℕ
size_of k prev = elim (find_struct prev (k.free_list ++ k.free_free_structs)) [
  | none ↦ 0
  | some e ↦ e.size
]

pub pages_needed : Kmem → ℕ → ℕ → ℕ
unfolding ends_at find_struct
pages_needed k prev needed =
    let bytes = add32 (add32 needed sizeof_page) sizeof_free in
    add32 minimum_pages
      ((if ends_at k prev k.memory_end then sub32 bytes (size_of k prev) else bytes) / page_size)

-- `prev->size += amount`, wherever the structure is.
pub grow_struct : ℕ → ℕ → List FreeEntry → List FreeEntry
grow_struct at amount [] = []
grow_struct at amount (e ∷ es) =
    if e.at == at
    then record e { size = add32 e.size amount } ∷ es
    else e ∷ grow_struct at amount es

-- `free_end->next = free`: what stood behind `free_end` is cut off.
pub append_end : ℕ → FreeEntry → List FreeEntry → List FreeEntry
append_end end new [] = []
append_end end new (e ∷ es) = if e.at == end then e ∷ new ∷ [] else e ∷ append_end end new es

-- The new pages at `loc`, `bytes` of them in the first record, put on the free list.
pub install_free : Kmem → ℕ → ℕ → ℕ → Kmem
unfolding ends_at find_struct grow_struct append_end set_header
install_free k prev loc bytes =
    let fresh : FreeEntry = record {
      at = add32 loc sizeof_header;
      size = sub32 bytes (sizeof_header + sizeof_free);
      base = add32 loc (sizeof_header + sizeof_free);
    } in
    if ends_at k prev loc
    then record k {
      free_list = grow_struct prev bytes k.free_list;
      free_free_structs = grow_struct prev bytes k.free_free_structs;
    }
    else record k {
      free_list = if k.free_end == 0 then fresh ∷ [] else append_end k.free_end fresh k.free_list;
      free_end = fresh.at;
      headers = set_header k.headers loc (record { size = sizeof_free; sentinel = sentinel_val });
    }

install_chain : List Page → Kmem → ℕ → ℕ → Cmd (Unit {0})
unfolding install_free
install_chain [] k prev loc = undefined
install_chain (page ∷ rest) k prev loc =
    set_kmem (install_free k prev loc (mul32 page.consecutive page_size))

-- The part of do_kmalloc behind "Allocate a new page", up to the second try.
grow : (ℕ → ℕ → Cmd ℕ) → ℕ → ℕ → ℕ → Cmd (Unit {0})
unfolding pages_needed alloc kinstall_append install_chain used
grow kmalloc fuel prev needed = do
  k ← get_kmem
  let pages = pages_needed k prev needed
  chain ← alloc kmalloc fuel (flag_kernel + flag_reserved + flag_nolock) pages
  loc ← kinstall_append chain page_table_rw false
  k' ← get_kmem
  let total : Kmem = record k' { memory_total = add32 k'.memory_total (mul32 pages page_size) }
  install_chain chain total prev loc
  used chain false

pub search : Kmem → ℕ → ℕ → Option Fit
unfolding over_limit find_fit
search k needed flags = if over_limit k needed flags then none else find_fit needed 0 k.free_list

-- `prev` where the search ends with no block: NULL if the search was not made.
search_end : Kmem → ℕ → ℕ → ℕ
unfolding over_limit last_at
search_end k needed flags = if over_limit k needed flags then 0 else last_at 0 k.free_list

-- kmalloc with and without its lock; the pointer 0 is NULL.
locked_call : ℕ → Cmd ℕ → Cmd ℕ
locked_call flags body =
    if has_flag flags kmalloc_nolock then body else (do lock; p ← body; unlock; pure p)

-- The block that was found is handed out, or `retry` asks for pages and tries again.
pub serve : Kmem → ℕ → Cmd ℕ → Option Fit → Cmd ℕ
unfolding take_fit
serve k size retry none = retry
serve k size retry (some f) = set_kmem (take_fit k f size).1 >> pure (take_fit k f size).0

-- do_kmalloc, whose second try is the outer kmalloc with KMALLOC_NOLOCK.
pub do_kmalloc : ℕ → ℕ → ℕ → Cmd ℕ
do_kmalloc zero size flags m = out_of_fuel
do_kmalloc (suc fuel) size flags m =
    let rounded = round_size size in
    let needed = add32 rounded sizeof_header in
    let retry : Cmd ℕ =
      grow (λ s g. locked_call g (do_kmalloc fuel s g)) fuel (search_end m.kmem needed flags) needed
      >> do_kmalloc fuel rounded (with_nolock flags) in
    let found = search m.kmem needed flags in
    if size == 0 then ok 0 m else serve m.kmem rounded retry found m

pub kmalloc : ℕ → ℕ → ℕ → Cmd ℕ
unfolding do_kmalloc serve locked_call
kmalloc fuel size flags = locked_call flags (do_kmalloc fuel size flags)

pop_struct : ℕ → List FreeEntry → Cmd ℕ
unfolding kmalloc
pop_struct fuel [] = kmalloc fuel sizeof_free (kmalloc_reserved + kmalloc_nolock)
pop_struct fuel (e ∷ es) = do
  k ← get_kmem
  set_kmem (record k { free_free_structs = es })
  pure e.at

-- _get_struct
get_struct : ℕ → Cmd ℕ
unfolding pop_struct
get_struct fuel = do k ← get_kmem; pop_struct fuel k.free_free_structs

-- The walk of kfree to the place of `base`, with the new entry linked in there.
pub insert_entry : FreeEntry → List FreeEntry → List FreeEntry
insert_entry new [] = new ∷ []
insert_entry new (e ∷ es) = if ltb e.base new.base then e ∷ insert_entry new es else new ∷ e ∷ es

-- Where that walk leaves `prev`, and whether it leaves `now` at NULL.
pub prev_of : ℕ → ℕ → List FreeEntry → ℕ
prev_of base prev [] = prev
prev_of base prev (e ∷ es) = if ltb e.base base then prev_of base e.at es else prev

pub all_below : ℕ → List FreeEntry → Bool
all_below base [] = true
all_below base (e ∷ es) = ltb e.base base && all_below base es

abbrev pub linked : FreeEntry → Kmem → Kmem
linked new k = record k {
  free_list = insert_entry new k.free_list;
  free_end = if all_below new.base k.free_list then new.at else k.free_end;
}

-- The part of kfree_nolock behind _get_struct: the entry in its place, merged with its neighbours.
pub link_free : FreeEntry → Kmem → Kmem
unfolding insert_entry prev_of all_below merge_free
link_free new k =
    let prev = prev_of new.base 0 k.free_list in
    let merged = merge_free new.at (linked new k) in
    if is_nil k.free_list
    then linked new k
    else if prev == 0
    then merged
    else merge_free prev merged

-- The header of the block at `at` as kfree leaves it.
pub mark_freed : ℕ → Kmem → Kmem
unfolding set_header
mark_freed at k = record k {
  headers = set_header k.headers at (record (k.headers at) { sentinel = sentinel_freed });
}

-- The block at `at` of `full` bytes goes into the list, under the structure `struct`.
pub give_back : ℕ → ℕ → ℕ → Kmem → Kmem
unfolding link_free
give_back at full struct k =
    let after = link_free (record { at = struct; size = full; base = at }) k in
    record after { memory_used = sub32 after.memory_used full }

-- kfree_nolock; the pointer is behind its header, whose sentinel must be that of a live block.
pub kfree_nolock : ℕ → ℕ → Cmd (Unit {0})
kfree_nolock fuel ptr m =
    let at = sub32 ptr sizeof_header in
    let hdr = m.kmem.headers at in
    let run : Cmd (Unit {0}) = do
      set_kmem (mark_freed at m.kmem)
      struct ← get_struct fuel
      k ← get_kmem
      set_kmem (give_back at (add32 hdr.size sizeof_header) struct k)
    in if ptr == 0
      then ok tt m
      else if hdr.sentinel == sentinel_freed
      then panic
      else if hdr.sentinel == sentinel_val
      then run m
      else panic

pub kfree : ℕ → ℕ → Cmd (Unit {0})
unfolding kfree_nolock
kfree fuel ptr = do lock; kfree_nolock fuel ptr; unlock
