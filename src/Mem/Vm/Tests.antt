-- ===== src/Mem/Vm/Tests.antt =====
-- Runs of src/mem/vm.cpp on concrete maps, and the theorems at them.
use cantos.Prelude.{ℕ, ◌*◌, ◌≡◌, refl, false, List, [], ◌∷◌, some, pos, negsuc, ◌-◌, arith}
use cantos.Mem.State.{Mem, Page, Run, ok, panic, ◌>>=◌}
use cantos.Mem.PageAlloc.{page_size, page_entry}
use cantos.Mem.Frames.{total}
use cantos.Mem.Vm.{Map, Table, no_cpu, insert, insert_record, clear, enter}
use cantos.Mem.Vm.Entries.{entry, HasTables}
use cantos.Mem.Vm.Filled.{within, frame_entry, Filled}
use cantos.Mem.Vm.Insert.{insert-Filled}
use cantos.Mem.Vm.Clear.{clear-insert}

abbrev pub empty_table : Table
empty_table = record { page = []; at = 0xd0000000; entries = λ i. 0 }

abbrev pub empty_map : Map
empty_map = record {
  objects_in_maps = [];
  pid = 1;
  task_id = 2;
  using_cpu = no_cpu;
  physical_dir = [];
  logical_at = 0xd0001000;
  logical_dir = λ i. 0;
  tables = λ s. some empty_table;
}

abbrev pub frame : ℕ → ℕ → Page
frame base n = record { at = 0; page_id = 0; mem_base = base; flags = 0; consecutive = n }

abbrev pub idle : Mem
idle = record {
  kmem = record {
    free_list = [];
    free_end = 0;
    free_free_structs = [];
    memory_total = 0;
    memory_used = 0;
    memory_end = 0;
    headers = λ at. record { size = 0; sentinel = 0 };
  };
  pages = record {
    used = [];
    page_id_counter = 0;
    allocation_pointer = 0;
    current_map = record { base = 0; length = 0; type = 1 };
    later_maps = [];
    virtual_pointer = 0;
    cursor = 0;
    table = λ i. 0;
    page_free = [];
    empty_slot = [];
  };
  locked = false;
}

-- Two records, five pages, of which the map takes those from 0x5000 to below 0x9000.
abbrev chain : List Page
chain = frame 0x100000 2 ∷ frame 0x200000 3 ∷ []

empty_map-HasTables : HasTables empty_map
empty_map-HasTables slot h = (empty_table, refl)

entry_after : Run Map → ℕ → ℕ
entry_after (ok m mem) k = entry m k
entry_after r k = 0

insert_skips : entry_after (insert 0 (pos 0x4000) chain 2 0x5000 0x9000 empty_map idle) 4 ≡ 0
unfolding insert insert_record entry_after
insert_skips = refl

insert_second :
    entry_after (insert 0 (pos 0x4000) chain 2 0x5000 0x9000 empty_map idle) 7 ≡ 0x201003
unfolding insert insert_record page_entry entry_after
insert_second = refl

insert_negative : insert 0 (negsuc 0x3fff) chain 2 0 0x9000 empty_map idle ≡ ok empty_map idle
unfolding insert
insert_negative = refl

enter_taken : enter 1 (record empty_map { using_cpu = 0 }) idle ≡ panic
unfolding enter
enter_taken = refl

insert-Filled_example :
    (m' : Map) × (insert 0
        (pos (4 * page_size))
        chain
        2
        (5 * page_size)
        (9 * page_size)
        empty_map
        idle
      ≡ ok m' idle)
    × Filled empty_map m' (within 5 9 4 (total chain)) (λ j. frame_entry chain 2 (j - 4))
insert-Filled_example =
    insert-Filled 0 2 5 9 4 (frame 0x100000 2) (frame 0x200000 3 ∷ []) empty_map idle (omega arith)
      empty_map-HasTables

clear-insert_example :
    (m' : Map) × ((insert 0 (pos (4 * page_size)) chain 2 (4 * page_size) (9 * page_size) empty_map
          >>= clear (pos (4 * page_size)) (total chain))
        idle
      ≡ ok m' idle)
    × ((j : ℕ) → entry m' j ≡ entry empty_map j)
unfolding total
clear-insert_example =
    clear-insert 0 2 4 9 4 (frame 0x100000 2) (frame 0x200000 3 ∷ []) empty_map idle (omega arith)
      (omega arith) empty_map-HasTables (λ j _. refl)
