-- ===== src/Mem/Vm.antt =====
-- The address spaces of src/mem/vm.cpp: the page tables of a vm::Map, insert and clear. The tables
-- are those that logical_tables->tables points to; `tables` is none for a NULL. invlpg changes no
-- part of this state. page::alloc, page::kinstall and page::kuninstall are those of Mem.
pub mod Entries
pub mod Filled
pub mod Insert
pub mod Clear
pub mod Tests
use Prim.Native.Nat.{bit_or}
use cantos.Prelude.{
  ℕ, zero, suc, ◌+◌, ◌-◌, ◌*◌, ◌/◌, ◌%◌, ◌<◌, ◌^◌, Bool, true, false, List, [], ◌∷◌, Option, none,
  some, ltb, leb, ◌==◌, if◌then◌else◌, add32, ℤ, pos, negsuc,
}
use cantos.Mem.State.{Page, Cmd, ◌>>=◌, ◌>>◌, pure, do_panic, undefined}
use cantos.Mem.PageAlloc.{
  page_size, flag_kernel, page_table_present, page_table_rw, page_entry, update, alloc,
}
use cantos.Mem.Kmem.{kmalloc}
use cantos.Mem.Page.{kinstall, kuninstall, free, kernel_vm_base}

-- PAGE_TABLE_LENGTH, and the part of it below the kernel's tables.
abbrev pub page_table_length : ℕ
page_table_length = 0x400

abbrev pub user_tables : ℕ
user_tables = 0x300

abbrev pub no_cpu : ℕ
no_cpu = 0xffffffff

-- logical_tables->pages and logical_tables->tables at one slot.
pub record Table : Type 0 where
  pub page : List Page
  pub at : ℕ
  pub entries : ℕ → ℕ

-- object::ObjectInMap, with the object and the map by number; `id` stands for its address.
pub record ObjectInMap : Type 0 where
  pub id : ℕ
  pub object : ℕ
  pub map : ℕ
  pub base : ℕ
  pub offset : ℤ
  pub pages : ℕ

pub record Map : Type 0 where
  pub objects_in_maps : List ObjectInMap
  pub pid : ℕ
  pub task_id : ℕ
  pub using_cpu : ℕ
  pub physical_dir : List Page
  pub logical_at : ℕ
  pub logical_dir : ℕ → ℕ
  pub tables : ℕ → Option Table

abbrev pub set_table : ℕ → Table → Map → Map
set_table slot t m = record m { tables = λ s. if s == slot then some t else m.tables s }

-- `page->mem_base`, which is behind a NULL pointer if the allocation gave no page.
abbrev pub mem_base_of : List Page → Cmd ℕ
mem_base_of [] = undefined
mem_base_of (p ∷ ps) = pure p.mem_base

-- Map::Map; `kernel_dir` is page::page_dir.
abbrev pub initial_entry : (ℕ → ℕ) → ℕ → ℕ
initial_entry kernel_dir i =
    if ltb i page_table_length then if leb user_tables i then kernel_dir i else 0 else 0

pub create_map : ℕ → (ℕ → ℕ) → ℕ → ℕ → Bool → Cmd Map
create_map fuel kernel_dir pid task_id kernel = do
  dir ← alloc (kmalloc fuel) fuel (if kernel then flag_kernel else 0) 1
  at ← kinstall fuel dir page_table_rw
  pure (record {
    objects_in_maps = [];
    pid = pid;
    task_id = task_id;
    using_cpu = no_cpu;
    physical_dir = dir;
    logical_at = at;
    logical_dir = initial_entry kernel_dir;
    tables = λ s. none;
  })

-- The part of _new_table for a slot without a table.
pub fresh_table : ℕ → ℕ → ℕ → Map → Cmd Map
fresh_table fuel slot page_flags m = do
  chain ← alloc (kmalloc fuel) fuel 0 1
  at ← kinstall fuel chain (bit_or page_flags page_table_rw)
  base ← mem_base_of chain
  pure (record (set_table slot (record { page = chain; at = at; entries = λ i. 0 }) m) {
    logical_dir = update m.logical_dir slot (bit_or (bit_or base page_table_present) page_flags);
  })

-- The table of a slot: logical_tables has no slot for the kernel's addresses.
abbrev pub slot_of : ℕ → ℕ
slot_of addr = addr / 2 ^ 22

abbrev pub index_of : ℕ → ℕ
index_of addr = addr / 2 ^ 12 % 2 ^ 10

pub with_table : Map → ℕ → Option Table → Cmd Map → (Table → Cmd Map) → Cmd Map
with_table m slot t absent present =
    if ltb slot user_tables then elim t [ none ↦ absent | some t ↦ present t ] else undefined

-- `tables[slot]->entries[index] = v`
abbrev pub write_entry : Map → ℕ → ℕ → ℕ → Table → Map
write_entry m slot index v t =
    set_table slot (record t { entries = λ i. if i == index then v else t.entries i }) m

pub put_entry : Map → ℕ → ℕ → ℕ → Cmd Map
unfolding with_table
put_entry m slot index v =
    with_table m slot (m.tables slot) undefined (λ t. pure (write_entry m slot index v t))

pub put : Map → ℕ → ℕ → Cmd Map
unfolding put_entry
put m addr v = put_entry m (slot_of addr) (index_of addr) v

-- The table that insert wants, made if there is none.
pub ensure_at : ℕ → ℕ → ℕ → Map → Cmd Map
unfolding with_table
ensure_at fuel slot page_flags m =
    with_table m slot (m.tables slot) (fresh_table fuel slot page_flags m) (λ t. pure m)

pub ensure : ℕ → ℕ → ℕ → Map → Cmd Map
unfolding ensure_at
ensure fuel addr page_flags m = ensure_at fuel (slot_of addr) page_flags m

-- One round of the loop of insert for a page from min_addr on.
pub map_page : ℕ → ℕ → ℕ → ℕ → ℕ → Map → Cmd Map
unfolding ensure put
map_page fuel addr base i page_flags m =
    ensure fuel addr page_flags m >>= λ m'. put m' addr (page_entry base i page_flags)

pub insert_above : ℕ → ℕ → ℕ → ℕ → ℕ → ℕ → Map → Cmd Map
unfolding map_page
insert_above fuel min addr base i page_flags m =
    if leb min addr then map_page fuel addr base i page_flags m else pure m

-- The loop over the pages of one record, `n` rounds from round `i` on: the map, and the address
-- behind the record unless insert has returned.
unfoldable pub insert_record : ℕ → ℕ → ℕ → ℕ → ℕ → ℕ → ℕ → ℕ → Map → Cmd (Option ℕ × Map)
unfolding insert_above
insert_record fuel base page_flags min max addr i zero m = pure (some addr, m)
insert_record fuel base page_flags min max addr i (suc n) m =
    insert_above fuel min addr base i page_flags m >>= λ m'.
    let rest = insert_record fuel base page_flags min max (addr + page_size) (i + 1) n m' in
    if leb max (addr + page_size) then pure (none, m') else rest

-- Map::insert for an address that is not negative, of the records from one on.
pub insert_chain : ℕ → ℕ → ℕ → ℕ → ℕ → List Page → Map → Cmd Map
insert_chain fuel page_flags min max addr [] m = pure m
insert_chain fuel page_flags min max addr (p ∷ ps) m =
    if leb max addr
    then pure m
    else insert_record fuel p.mem_base page_flags min max addr 0 p.consecutive m >>= λ (next, m').
        elim next [ none ↦ pure m' | some addr' ↦ insert_chain fuel page_flags min max addr' ps m' ]

-- Map::insert.
unfoldable pub insert : ℕ → ℤ → List Page → ℕ → ℕ → ℕ → Map → Cmd Map
unfolding insert_chain
insert fuel (negsuc a) ps page_flags min max m = pure m
insert fuel (pos a) [] page_flags min max m = if leb max a then pure m else undefined
insert fuel (pos a) (p ∷ ps) page_flags min max m =
    insert_chain fuel page_flags min max a (p ∷ ps) m

-- Map::clear, `n` rounds from an address on. A slot without a table is a NULL pointer.
pub clear_from : ℕ → ℕ → Map → Cmd Map
unfolding put
clear_from addr zero m = pure m
clear_from addr (suc n) m = put m addr 0 >>= λ m'. clear_from (addr + page_size) n m'

pub clear : ℤ → ℕ → Map → Cmd Map
unfolding clear_from
clear (negsuc a) n m = pure m
clear (pos a) n m = clear_from a n m

-- Map::enter and Map::exit: a map is entered by one processor at a time.
pub enter : ℕ → Map → Cmd Map
enter cpu m = if m.using_cpu == no_cpu then pure (record m { using_cpu = cpu }) else do_panic

pub exit : Map → Map
exit m = record m { using_cpu = no_cpu }

-- The loop of Map::~Map over the last `n` slots.
pub free_tables : ℕ → ℕ → Map → Cmd (Unit {0})
free_tables fuel zero m = pure tt
free_tables fuel (suc n) m = elim (m.tables (user_tables - suc n)) [
  | none ↦ free_tables fuel n m
  | some t ↦ kuninstall fuel t.at t.page >> free fuel t.page >> free_tables fuel n m
]

-- Map::~Map behind the clearing of its objects.
pub destroy_map : ℕ → Map → Cmd (Unit {0})
unfolding free_tables
destroy_map fuel m = do
  free_tables fuel user_tables m
  kuninstall fuel m.logical_at m.physical_dir
  free fuel m.physical_dir
