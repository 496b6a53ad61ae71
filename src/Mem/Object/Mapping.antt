-- ===== src/Mem/Object/Mapping.antt =====
-- Where the pages of an object of src/mem/object.cpp come to lie in the maps that use it.
use cantos.Prelude.{
  ℕ, suc, ◌+◌, ◌-◌, ◌*◌, ◌%◌, ◌<◌, ◌≤◌, ◌≡◌, refl, ap, Bool, true, false, ◌&&◌, List, [], ◌∷◌, leb,
  ◌==◌, arith, leb→le, not_leb→lt, Bool-cases, inl, inr, pos, negsuc, ◌∙◌, subℕ-le, subℕ-lt,
  u32_mod,
}
use native.Mathlib.Decide.{ℕ_discrete}
use cantos.Mem.State.{Mem, ok, Page}
use cantos.Mem.PageAlloc.{page_size}
use cantos.Mem.Frames.{total}
use cantos.Mem.Vm.{Map, ObjectInMap, insert}
use cantos.Mem.Vm.Entries.{HasTables, user_pages}
use cantos.Mem.Vm.Filled.{within, frame_entry, Filled, Filled-same}
use cantos.Mem.Vm.Insert.{insert-Filled, insert-negative}
use cantos.Mem.Object.{mapped_at, end_of, insert_all, set_map}

-- An object in a map from page `b` on, below the kernel's pages, with its page `f` at the front.
pub record Placed (oim : ObjectInMap) : Type 0 where
  pub b : ℕ
  pub f : ℕ
  pub base : oim.base ≡ b * page_size
  pub offset : oim.offset ≡ pos (f * page_size)
  pub user : b + oim.pages ≤ user_pages

abbrev pub AllPlaced : List ObjectInMap → Type 0
AllPlaced [] = Unit {0}
AllPlaced (oim ∷ oims) = Placed oim × AllPlaced oims

module _ (oim : ObjectInMap) (placed : Placed oim) where
  pub end_of-Placed : end_of oim ≡ (placed.b + oim.pages) * page_size
  end_of-Placed =
      let base : oim.base ≡ placed.b * page_size = placed.base in
      let user : placed.b + oim.pages ≤ user_pages = placed.user in rw base (omega (arith, user))

  mapped_at-after :
      (q : ℕ)
      → placed.b + q < 0x100000
      → placed.f ≤ placed.b + q
      → mapped_at oim (q * page_size) ≡ pos ((placed.b + q - placed.f) * page_size)
  mapped_at-after q small from =
      let base : oim.base ≡ placed.b * page_size = placed.base in
      let offset : oim.offset ≡ pos (placed.f * page_size) = placed.offset in
      let sum : (placed.b * page_size + q * page_size) % u32_mod ≡ (placed.b + q) * page_size =
        omega (arith, small) in
      let gap : (placed.b + q) * page_size - placed.f * page_size
          ≡ (placed.b + q - placed.f) * page_size =
        omega (arith, from) in
      rw (base, offset, sum)
        (subℕ-le ((placed.b + q) * page_size) (placed.f * page_size) (omega (arith, from))
          ∙ ap pos gap)

  mapped_at-before :
      (q : ℕ)
      → placed.b + q < 0x100000
      → placed.b + q < placed.f
      → (a : ℕ) × (mapped_at oim (q * page_size) ≡ negsuc a)
  mapped_at-before q small before =
      let base : oim.base ≡ placed.b * page_size = placed.base in
      let offset : oim.offset ≡ pos (placed.f * page_size) = placed.offset in
      let sum : (placed.b * page_size + q * page_size) % u32_mod ≡ (placed.b + q) * page_size =
        omega (arith, small) in
      (
        placed.f * page_size - suc ((placed.b + q) * page_size),
        rw (base, offset, sum)
            (subℕ-lt ((placed.b + q) * page_size) (placed.f * page_size) (omega (arith, before))),
      )

  -- The pages of a chain from page `q` of the object on, where the map has them.
  abbrev pub seen : ℕ → ℕ → ℕ → Bool
  seen q n j =
      leb placed.f (placed.b + q)
      && within placed.b (placed.b + oim.pages) (placed.b + q - placed.f) n j

  pub insert_mapped :
      (fuel page_flags q : ℕ) (p : Page) (ps : List Page) (m : Map) (mem : Mem)
      → placed.b + q < 0x100000
      → HasTables m
      → (m' : Map) × (insert fuel
            (mapped_at oim (q * page_size))
            (p ∷ ps)
            page_flags
            oim.base
            (end_of oim)
            m
            mem
          ≡ ok m' mem)
        × Filled m m'
            (seen q (total (p ∷ ps)))
            (λ j. frame_entry (p ∷ ps) page_flags (j - (placed.b + q - placed.f)))
  insert_mapped fuel page_flags q p ps m mem small full =
      elim (Bool-cases (leb placed.f (placed.b + q))) [
        | inl from ↦
            let le : placed.f ≤ placed.b + q = leb→le _ _ from in
            let base : oim.base ≡ placed.b * page_size = placed.base in
            let (m', run, filled) =
              insert-Filled fuel page_flags placed.b (placed.b + oim.pages)
                (placed.b + q - placed.f) p ps m mem placed.user full in
            (
              m',
              rw (mapped_at-after q small le, end_of-Placed, base) run,
              Filled-same filled (λ j. rw from refl),
            )
        | inr before ↦
            let lt : placed.b + q < placed.f = not_leb→lt _ _ before in
            let (a, below) = mapped_at-before q small lt in
            (
              m,
              rw below (insert-negative fuel a page_flags oim.base (end_of oim) (p ∷ ps) m mem),
              record { cells = λ j. rw before refl; tables = full },
            )
      ]

abbrev pub AllTables : (ℕ → Map) → Type 0
AllTables maps = (id : ℕ) → HasTables (maps id)

pub set_map-tables :
    (id : ℕ) (m : Map) (maps : ℕ → Map)
    → HasTables m
    → AllTables maps
    → AllTables (set_map id m maps)
set_map-tables id m maps here all i = elim (ℕ_discrete i id) [
  | yes same ↦ let hit : (i == id) ≡ true = ground arith in rw hit here
  | no other ↦ let miss : (i == id) ≡ false = ground arith in rw miss (all i)
]

-- The pages of an object below 4 GiB stay there in each map.
abbrev pub Below : ℕ → (oims : List ObjectInMap) → AllPlaced oims → Type 0
Below q [] placed = Unit {0}
Below q (oim ∷ oims) (here, placed) = (here.b + q < 0x100000) × Below q oims placed

-- A chain gets into all the maps of an object, which keep their tables.
pub insert_all-tables :
    (fuel page_flags q : ℕ) (p : Page) (ps : List Page) (oims : List ObjectInMap) (maps : ℕ → Map)
    (mem : Mem) (placed : AllPlaced oims)
    → Below q oims placed
    → AllTables maps
    → (maps' : ℕ → Map) × (insert_all fuel page_flags (q * page_size) (p ∷ ps) oims maps mem
        ≡ ok maps' mem)
      × AllTables maps'
unfolding insert_all
insert_all-tables fuel page_flags q p ps [] maps mem placed small all = (maps, refl, all)
insert_all-tables fuel page_flags q p ps (oim ∷ oims) maps mem (here, placed) (low, small) all =
    let (m, run, filled) =
      insert_mapped oim here fuel page_flags q p ps (maps oim.map) mem low (all oim.map) in
    let (maps', later, all') =
      insert_all-tables fuel page_flags q p ps oims (set_map oim.map m maps) mem placed small
        (set_map-tables oim.map m maps filled.tables all) in
    (maps', rw (run, later) refl, all')
