-- ===== src/Mem/State.antt =====
-- The state of src/mem/kmem.cpp and src/mem/page.cpp, and commands over it. The two call one
-- another (kmalloc allocates pages, page::alloc allocates its records), so they share one state.
use cantos.Prelude.{ℕ, Bool, true, false, List, if◌then◌else◌}

-- kmem_free_t: `at` is the address of the structure, 0 is NULL, and the `next` pointers are the
-- order of the list that holds it.
pub record FreeEntry : Type 0 where
  pub at : ℕ
  pub size : ℕ
  pub base : ℕ

-- kmem_header_t, with KMEM_SENTINEL set as include/config.hpp does.
pub record Header : Type 0 where
  pub size : ℕ
  pub sentinel : ℕ

-- The static variables of kmem.cpp and `map.memory_end`; `headers` is the memory at the addresses
-- where headers lie.
pub record Kmem : Type 0 where
  pub free_list : List FreeEntry
  pub free_end : ℕ
  pub free_free_structs : List FreeEntry
  pub memory_total : ℕ
  pub memory_used : ℕ
  pub memory_end : ℕ
  pub headers : ℕ → Header

-- page::Page, in a chain that is a list.
pub record Page : Type 0 where
  pub at : ℕ
  pub page_id : ℕ
  pub mem_base : ℕ
  pub flags : ℕ
  pub consecutive : ℕ

-- multiboot::entry_t, the fields that page.cpp reads.
pub record Region : Type 0 where
  pub base : ℕ
  pub length : ℕ
  pub type : ℕ

-- _empty_virtual_slot_s
pub record Slot : Type 0 where
  pub at : ℕ
  pub base : ℕ
  pub pages : ℕ

-- The static variables of page.cpp. `current_map` is the entry pointed at and `later_maps` those
-- behind it; `cursor` counts entries of the kernel's page tables, which are `table`.
pub record Pages : Type 0 where
  pub used : List Page
  pub page_id_counter : ℕ
  pub allocation_pointer : ℕ
  pub current_map : Region
  pub later_maps : List Region
  pub virtual_pointer : ℕ
  pub cursor : ℕ
  pub table : ℕ → ℕ
  pub page_free : List Page
  pub empty_slot : List Slot

-- `locked` is the flag of kmem::mutex.
pub record Mem : Type 0 where
  pub kmem : Kmem
  pub pages : Pages
  pub locked : Bool

-- How a command ends: with a value, in panic(), waiting for a mutex that the caller itself holds,
-- in undefined behaviour (a NULL dereference, a read past an array), or with its fuel used up,
-- which stands for no behaviour of the code.
pub data Run {ℓ} (A : Type ℓ) : Type ℓ where
  ok : A → Mem → Run A
  panic : Run A
  deadlock : Run A
  fault : Run A
  out_of_fuel : Run A

abbrev pub Cmd : Type 0 → Type 0
Cmd A = Mem → Run A

module _ {A B : Type 0} where
  abbrev pub and_then : Run A → (A → Cmd B) → Run B
  and_then (ok a m) k = k a m
  and_then panic k = panic
  and_then deadlock k = deadlock
  and_then fault k = fault
  and_then out_of_fuel k = out_of_fuel

  infixl 5 ◌>>=◌ ◌>>◌
  abbrev pub ◌>>=◌ : Cmd A → (A → Cmd B) → Cmd B
  m >>= k = λ s. and_then (m s) k

  abbrev pub ◌>>◌ : Cmd A → Cmd B → Cmd B
  m >> n = m >>= λ _. n

abbrev pub pure : {A : Type 0} → A → Cmd A
pure = ok

abbrev pub do_panic : {A : Type 0} → Cmd A
do_panic m = panic

abbrev pub undefined : {A : Type 0} → Cmd A
undefined m = fault

abbrev pub get_kmem : Cmd Kmem
get_kmem m = ok m.kmem m

abbrev pub set_kmem : Kmem → Cmd (Unit {0})
set_kmem k m = ok tt (record m { kmem = k })

abbrev pub get_pages : Cmd Pages
get_pages m = ok m.pages m

abbrev pub set_pages : Pages → Cmd (Unit {0})
set_pages p m = ok tt (record m { pages = p })

-- kmem::mutex.lock() by a caller that nobody else can release it for, and unlock().
abbrev pub lock : Cmd (Unit {0})
lock m = if m.locked then deadlock else ok tt (record m { locked = true })

abbrev pub unlock : Cmd (Unit {0})
unlock m = ok tt (record m { locked = false })

abbrev pub when : Bool → Cmd (Unit {0}) → Cmd (Unit {0})
when b c = if b then c else pure tt
