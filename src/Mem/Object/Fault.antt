-- ===== src/Mem/Object/Fault.antt =====
-- What a page fault in an object leaves: Map::resolve_fault of src/mem/vm.cpp.
use cantos.Prelude.{
  ℕ, ◌+◌, ◌*◌, ◌/◌, ◌<◌, ◌≤◌, ◌≡◌, true, List, [], ◌∷◌, some, ◌==◌, if◌then◌else◌, u32_mod,
}
use cantos.Mem.State.{Mem, ok, Page}
use cantos.Mem.PageAlloc.{page_size}
use cantos.Mem.Vm.{ObjectInMap}
use cantos.Mem.Vm.Entries.{entry}
use cantos.Mem.Vm.Filled.{frame_entry, Filled}
use cantos.Mem.Object.{Object, Space, next_offset, contains, resolve_fault}
use cantos.Mem.Object.Mapping.{Placed}

-- Page `q` of the object is below max_pages, and the next page that is there comes behind it.
pub record Vacant (o : Object) (q : ℕ) : Type 0 where
  pub small : o.max_pages * page_size < u32_mod
  pub inside : q < o.max_pages
  pub behind :
      (next : ℕ) → next_offset (q * page_size) o.pages ≡ some next → (q + 1) * page_size ≤ next
  pub bounded : (next : ℕ) → next_offset (q * page_size) o.pages ≡ some next → next < u32_mod

-- A fault at `addr`, in page `q` of the object that is first in the list of the map.
pub record Faulting (s : Space) (map addr q : ℕ) (oim : ObjectInMap) : Type 0 where
  pub rest : List ObjectInMap
  pub first : (s.maps map).objects_in_maps ≡ oim ∷ rest
  pub here : oim.map ≡ map
  pub hit : contains oim addr ≡ true
  pub alone : (s.objects oim.object).objects_in_maps ≡ oim ∷ []
  pub placed : Placed oim
  pub page : addr / page_size + placed.f ≡ placed.b + q
  pub small : addr < u32_mod
  pub low : placed.b + q < 0x100000
  pub vacant : Vacant (s.objects oim.object) q

-- What a fault that is resolved leaves: the page that do_generate gave is mapped at the address, and the rest is as it was.
pub record Resolved (fuel : ℕ) (s : Space) (map addr q : ℕ) (o : Object) (mem : Mem) : Type 0 where
  pub p : Page
  pub ps : List Page
  pub s' : Space
  pub mem' : Mem
  pub generated : o.do_generate (q * page_size) 1 mem ≡ ok (p ∷ ps) mem'
  pub run : resolve_fault fuel map addr s mem ≡ ok (true, s') mem'
  pub cells :
      (j : ℕ)
      → entry (s'.maps map) j ≡ (
          if j == addr / page_size
          then frame_entry (p ∷ ps) o.page_flags 0
          else entry (s.maps map) j)
