-- ===== src/Mem/Object.antt =====
-- The memory objects of src/mem/object.cpp and the operations of src/mem/vm.cpp on them: objects
-- make their pages when they are asked for them, and map them where they are in use. Maps and
-- objects are numbered. The virtual do_generate is a field of the object.
pub mod Layout
pub mod Mapping
pub mod Generate
pub mod Fault
mod Tests
use cantos.Prelude.{
  ℕ, zero, suc, ◌+◌, ◌-◌, ◌*◌, ◌/◌, ◌%◌, ◌^◌, Bool, true, false, ◌&&◌, List, [], ◌∷◌, ◌++◌, Option,
  none, some, ltb, leb, ◌==◌, if◌then◌else◌, add32, sub32, mul32, u32_mod, ℤ, pos, negsuc, subℕ,
  minus, plus,
}
use cantos.Mem.State.{Page, Cmd, ◌>>=◌, ◌>>◌, pure}
use cantos.Mem.PageAlloc.{page_size, alloc}
use cantos.Mem.Kmem.{kmalloc}
use cantos.Mem.Page.{free, count}
use cantos.Mem.Vm.{Map, ObjectInMap, insert, clear, destroy_map}

pub record PageEntry : Type 0 where
  pub offset : ℕ
  pub page : List Page

-- A list of entries stands for the next pointers.
pub record Object : Type 0 where
  pub objects_in_maps : List ObjectInMap
  pub pages : List PageEntry
  pub max_pages : ℕ
  pub page_flags : ℕ
  pub object_flags : ℕ
  pub do_generate : ℕ → ℕ → Cmd (List Page)

-- `next_id` numbers the ObjectInMap records.
pub record Space : Type 0 where
  pub maps : ℕ → Map
  pub objects : ℕ → Object
  pub next_id : ℕ

abbrev pub set_map : ℕ → Map → (ℕ → Map) → ℕ → Map
set_map id m maps i = if i == id then m else maps i

abbrev pub set_object : ℕ → Object → Space → Space
set_object id o s = record s { objects = λ i. if i == id then o else s.objects i }

pub create_object : ℕ → ℕ → ℕ → (ℕ → ℕ → Cmd (List Page)) → Object
create_object max_pages page_flags object_flags do_generate = record {
  objects_in_maps = [];
  pages = [];
  max_pages = max_pages;
  page_flags = page_flags;
  object_flags = object_flags;
  do_generate = do_generate;
}

-- EmptyObject::do_generate.
pub generate_empty : ℕ → ℕ → ℕ → Cmd (List Page)
generate_empty fuel addr n = alloc (kmalloc fuel) fuel 0 n

-- The loop of Object::~Object.
pub free_entries : ℕ → List PageEntry → Cmd (Unit {0})
free_entries fuel [] = pure tt
free_entries fuel (e ∷ es) = free fuel e.page >> free_entries fuel es

-- The cap at max_pages. Where generate returns for an address out of range, the count is 0.
abbrev pub cap : ℕ → ℕ → ℕ → ℕ
cap max_pages addr n =
    if ltb max_pages (add32 (addr / page_size) n)
    then (if ltb max_pages (addr / page_size) then 0 else max_pages - addr / page_size)
    else n

-- `next->offset` behind the search, none for NULL.
abbrev pub next_offset : ℕ → List PageEntry → Option ℕ
next_offset addr [] = none
next_offset addr (e ∷ es) = if ltb e.offset addr then next_offset addr es else some e.offset

abbrev pub limit : ℕ → ℕ → Option ℕ → ℕ
limit addr n none = n
limit addr n (some next) =
    if leb next (add32 addr (mul32 n page_size)) then sub32 next addr / page_size else n

abbrev pub pages_to_load : Object → ℕ → ℕ → ℕ
pages_to_load o addr n = limit addr (cap o.max_pages addr n) (next_offset addr o.pages)

-- The new entry behind prev.
abbrev pub link_entry : PageEntry → List PageEntry → List PageEntry
link_entry new [] = new ∷ []
link_entry new (e ∷ es) = if ltb e.offset new.offset then e ∷ link_entry new es else new ∷ e ∷ es

-- Where a page of an object lies in a map, and the end of the object there.
abbrev pub mapped_at : ObjectInMap → ℕ → ℤ
mapped_at oim offset = minus (add32 oim.base offset) oim.offset

abbrev pub end_of : ObjectInMap → ℕ
end_of oim = add32 oim.base (mul32 oim.pages page_size)

pub insert_all : ℕ → ℕ → ℕ → List Page → List ObjectInMap → (ℕ → Map) → Cmd (ℕ → Map)
insert_all fuel page_flags addr chain [] maps = pure maps
insert_all fuel page_flags addr chain (oim ∷ oims) maps =
    insert fuel (mapped_at oim addr) chain page_flags oim.base (end_of oim) (maps oim.map) >>= λ m.
    insert_all fuel page_flags addr chain oims (set_map oim.map m maps)

-- Object::generate behind the early returns.
pub generate_pages : ℕ → ℕ → Object → ℕ → ℕ → Space → Cmd Space
unfolding insert_all
generate_pages fuel id o addr n s = o.do_generate addr n >>= λ chain.
    insert_all fuel o.page_flags addr chain o.objects_in_maps s.maps >>= λ maps.
    pure
      (record (set_object id
        (record o { pages = link_entry (record { offset = addr; page = chain }) o.pages }) s) {
          maps = maps;
        })

-- Object::generate of the object numbered `id`.
pub generate : ℕ → ℕ → ℕ → ℕ → Space → Cmd Space
unfolding generate_pages
generate fuel id addr n s =
    if pages_to_load (s.objects id) addr n == 0
    then pure s
    else generate_pages fuel id (s.objects id) addr (pages_to_load (s.objects id) addr n) s

pub insert_entries : ℕ → ℕ → ObjectInMap → List PageEntry → Map → Cmd Map
insert_entries fuel page_flags oim [] m = pure m
insert_entries fuel page_flags oim (e ∷ es) m =
    insert fuel (mapped_at oim e.offset) e.page page_flags oim.base (end_of oim) m >>= λ m'.
    insert_entries fuel page_flags oim es m'

-- Object::add_object_in_map.
pub add_object_in_map : ℕ → ObjectInMap → Space → Cmd Space
unfolding insert_entries
add_object_in_map fuel oim s =
    insert_entries fuel (s.objects oim.object).page_flags oim (s.objects oim.object).pages
      (s.maps oim.map)
    >>= λ m.
        pure
          (record (set_object oim.object
            (record (s.objects oim.object) {
              objects_in_maps = oim ∷ (s.objects oim.object).objects_in_maps;
            })
            s) { maps = set_map oim.map m s.maps })

pub unmap_entries : ObjectInMap → List PageEntry → Map → Cmd Map
unmap_entries oim [] m = pure m
unmap_entries oim (e ∷ es) m =
    clear (mapped_at oim e.offset) (count e.page) m >>= λ m'. unmap_entries oim es m'

-- list::remove on the pointers of an object.
abbrev pub remove_id : ℕ → List ObjectInMap → List ObjectInMap
remove_id id [] = []
remove_id id (oim ∷ oims) = if oim.id == id then remove_id id oims else oim ∷ remove_id id oims

-- Object::remove_object_in_map.
pub remove_object_in_map : ObjectInMap → Space → Cmd Space
unfolding unmap_entries
remove_object_in_map oim s =
    unmap_entries oim (s.objects oim.object).pages (s.maps oim.map) >>= λ m.
    pure
      (record (set_object oim.object
        (record (s.objects oim.object) {
          objects_in_maps = remove_id oim.id (s.objects oim.object).objects_in_maps;
        })
        s) { maps = set_map oim.map m s.maps })

-- The conversion of an int64_t to a uint32_t.
abbrev pub to_u32 : ℤ → ℕ
to_u32 (pos a) = a % u32_mod
to_u32 (negsuc a) = u32_mod - 1 - a % u32_mod

abbrev pub less : ℤ → ℕ → ℤ
less (pos a) b = subℕ a b
less (negsuc a) b = negsuc (a + b)

abbrev pub contains : ObjectInMap → ℕ → Bool
contains oim addr = leb oim.base addr && ltb addr (end_of oim)

-- The address that resolve_fault has generated.
abbrev pub fault_offset : ObjectInMap → ℕ → ℕ
fault_offset oim addr = to_u32 (less (plus (sub32 addr oim.base) oim.offset) (addr % page_size))

-- Map::resolve_fault, over the objects of the map.
pub resolve_in : ℕ → ℕ → List ObjectInMap → Space → Cmd (Bool × Space)
unfolding generate
resolve_in fuel addr [] s = pure (false, s)
resolve_in fuel addr (oim ∷ oims) s =
    if contains oim addr
    then generate fuel oim.object (fault_offset oim addr) 1 s >>= (λ s'. pure (true, s'))
    else resolve_in fuel addr oims s

pub resolve_fault : ℕ → ℕ → ℕ → Space → Cmd (Bool × Space)
unfolding resolve_in
resolve_fault fuel map addr s = resolve_in fuel addr (s.maps map).objects_in_maps s

abbrev pub set_objects_in_maps : ℕ → List ObjectInMap → Space → Space
set_objects_in_maps map oims s = record s {
  maps = set_map map (record (s.maps map) { objects_in_maps = oims }) s.maps;
}

-- Map::add_object, with the constructor of the ObjectInMap.
pub add_object : ℕ → ℕ → ℕ → ℕ → ℤ → ℕ → Space → Cmd Space
unfolding add_object_in_map
add_object fuel map object base offset pages s =
    let oim : ObjectInMap = record {
      id = s.next_id;
      object = object;
      map = map;
      base = base;
      offset = offset;
      pages = pages;
    } in
    add_object_in_map fuel oim (record s { next_id = s.next_id + 1 }) >>= λ s'.
    pure (set_objects_in_maps map (oim ∷ (s'.maps map).objects_in_maps) s')

-- Map::remove_object over the rest of the objects of a map: what is kept.
pub remove_from : ℕ → List ObjectInMap → Space → Cmd (List ObjectInMap × Space)
unfolding remove_object_in_map
remove_from object [] s = pure ([], s)
remove_from object (oim ∷ oims) s =
    if oim.object == object
    then remove_object_in_map oim s >>= (λ s'. remove_from object oims s')
    else remove_from object oims s >>= (λ (kept, s'). pure (oim ∷ kept, s'))

pub remove_object : ℕ → ℕ → Space → Cmd Space
unfolding remove_from
remove_object map object s = remove_from object (s.maps map).objects_in_maps s >>= λ (kept, s').
    pure (set_objects_in_maps map kept s')

-- Map::remove_object_at.
pub remove_first : ℕ → ℕ → List ObjectInMap → Space → Cmd (List ObjectInMap × Space)
unfolding remove_object_in_map
remove_first object base [] s = pure ([], s)
remove_first object base (oim ∷ oims) s =
    if (oim.object == object) && (oim.base == base)
    then remove_object_in_map oim s >>= (λ s'. pure (oims, s'))
    else remove_first object base oims s >>= (λ (kept, s'). pure (oim ∷ kept, s'))

pub remove_object_at : ℕ → ℕ → ℕ → Space → Cmd Space
unfolding remove_first
remove_object_at map object base s =
    remove_first object base (s.maps map).objects_in_maps s >>= λ (kept, s').
    pure (set_objects_in_maps map kept s')

-- list::clear on the objects of a map.
pub remove_all : List ObjectInMap → Space → Cmd Space
unfolding remove_object_in_map
remove_all [] s = pure s
remove_all (oim ∷ oims) s = remove_object_in_map oim s >>= λ s'. remove_all oims s'

-- Map::~Map.
pub delete_map : ℕ → ℕ → Space → Cmd Space
unfolding remove_all
delete_map fuel map s =
    remove_all (s.maps map).objects_in_maps s >>= λ s'. destroy_map fuel (s'.maps map) >> pure s'
