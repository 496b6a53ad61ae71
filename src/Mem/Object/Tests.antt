-- ===== src/Mem/Object/Tests.antt =====
-- Runs of the objects on the scenes of the test in src/mem/object.cpp, and the theorems at one.
use cantos.Prelude.{ℕ, ◌+◌, ◌≡◌, refl, Bool, false, List, [], ◌∷◌, pos, arith}
use cantos.Mem.State.{Mem, Page, Run, ok, Cmd}
use cantos.Mem.Frames.{total}
use cantos.Mem.PageAlloc.{page_entry}
use cantos.Mem.Vm.{ObjectInMap, insert, insert_record}
use cantos.Mem.Vm.Entries.{entry}
use cantos.Mem.Vm.Tests.{empty_map, frame, idle}
use cantos.Mem.Object.{PageEntry, Object, Space, generate_empty, resolve_fault}
use cantos.Mem.Object.Mapping.{Placed}
use cantos.Mem.Object.Generate.{Sound}

abbrev provider : ℕ → ℕ → Cmd (List Page)
provider addr n mem = ok (frame (0x300000 + addr) n ∷ []) mem

abbrev part : ObjectInMap
part = record { id = 0; object = 0; map = 0; base = 0x2000; offset = pos 0; pages = 2 }

abbrev loaded : PageEntry
loaded = record { offset = 0; page = frame 0x500000 1 ∷ [] }

abbrev increments : Object
increments = record {
  objects_in_maps = part ∷ [];
  pages = loaded ∷ [];
  max_pages = 5;
  page_flags = 2;
  object_flags = 0;
  do_generate = provider;
}

abbrev scene : Space
scene = record {
  maps = λ i. record empty_map { objects_in_maps = part ∷ [] };
  objects = λ i. increments;
  next_id = 1;
}

mapped_entry : Run (Bool × Space) → ℕ → ℕ
mapped_entry (ok (found, s) mem) k = entry (s.maps 0) k
mapped_entry r k = 0

fault_maps : mapped_entry (resolve_fault 0 0 0x3004 scene idle) 3 ≡ 0x301003
unfolding resolve_fault mapped_entry insert insert_record page_entry
fault_maps = refl

fault_outside : resolve_fault 0 0 0x4000 scene idle ≡ ok (false, scene) idle
unfolding resolve_fault
fault_outside = refl

-- The same object with EmptyObject::do_generate, and the memory with a free record of as many pages as
-- are asked for.
abbrev empties : Object
empties = record increments { do_generate = generate_empty 2 }

abbrev empty_scene : Space
empty_scene = record scene { objects = λ i. empties }

abbrev with_free_pages : ℕ → Mem
with_free_pages n = record idle { pages = record idle.pages { page_free = frame 0x600000 n ∷ [] } }

part-Placed : Placed part
part-Placed = record { b = 2; f = 0; base = refl; offset = refl; user = omega arith }

empties-Sound : Sound empties
unfolding total
empties-Sound = record {
  small = omega arith;
  laid_out = (omega arith, omega arith);
  placed = (part-Placed, tt);
}
