-- ===== src/Mem/Object/Generate.antt =====
-- What Object::generate of src/mem/object.cpp keeps and adds.
use cantos.Prelude.{ℕ, ◌*◌, ◌<◌, ◌≡◌, refl, List, [], ◌∷◌, arith, u32_mod}
use cantos.Mem.State.{Mem, ok, Page, Cmd}
use cantos.Mem.PageAlloc.{page_size}
use cantos.Mem.Frames.{total}
use cantos.Mem.Vm.{Map}
use cantos.Mem.Object.{PageEntry, Object, Space, link_entry, set_object}
use cantos.Mem.Object.Layout.{LaidOut}
use cantos.Mem.Object.Mapping.{AllPlaced, AllTables}

-- A call of do_generate in this memory gives as many pages as it is asked for.
abbrev pub Provides : (ℕ → ℕ → Cmd (List Page)) → ℕ → ℕ → Mem → Type 0
Provides do_generate addr n mem =
    (chain : List Page) × (mem' : Mem) × (do_generate addr n mem ≡ ok chain mem')
    × (total chain ≡ n)

-- An object whose pages lie in order, apart and below max_pages, which lies below 4 GiB.
pub record Sound (o : Object) : Type 0 where
  pub small : o.max_pages * page_size < u32_mod
  pub laid_out : LaidOut 0 (o.max_pages * page_size) o.pages
  pub placed : AllPlaced o.objects_in_maps

pub chain_of :
    (chain : List Page) → 0 < total chain → (p : Page) × (ps : List Page) × (chain ≡ p ∷ ps)
unfolding total
chain_of [] h = absurd (omega arith)
chain_of (p ∷ ps) h = (p, ps, refl)

-- What generate leaves of an object and of the maps.
pub record Generated (id : ℕ) (s' : Space) : Type 0 where
  pub sound : Sound (s'.objects id)
  pub tables : AllTables s'.maps

-- The space behind an addition of an entry to an object.
abbrev pub with_entry : ℕ → Object → PageEntry → (ℕ → Map) → Space → Space
with_entry id o new maps s =
    record (set_object id (record o { pages = link_entry new o.pages }) s) { maps = maps }
