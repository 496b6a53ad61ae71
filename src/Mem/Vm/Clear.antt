-- ===== src/Mem/Vm/Clear.antt =====
-- What Map::clear of src/mem/vm.cpp leaves in a map that has all its tables.
use cantos.Prelude.{
  ℕ, zero, suc, ◌+◌, ◌-◌, ◌*◌, ◌≤◌, ◌≡◌, refl, Bool, true, false, ◌&&◌, List, ◌∷◌, ltb, leb, ◌==◌,
  if◌then◌else◌, arith, pos, Bool-cases, inl, inr,
}
use cantos.Mem.State.{Mem, ok, Page, ◌>>=◌}
use cantos.Mem.PageAlloc.{page_size}
use cantos.Mem.Frames.{total}
use cantos.Mem.Vm.{Map, clear_from, clear, insert}
use cantos.Mem.Vm.Entries.{entry, HasTables, put-Written, user_pages}
use cantos.Mem.Vm.Filled.{within, frame_entry}
use cantos.Mem.Vm.Insert.{insert-Filled}

-- Page `j` is one of the `n` pages from page `q` on.
abbrev pub among : ℕ → ℕ → ℕ → Bool
among q n j = leb q j && ltb j (q + n)

-- A clear that leaves the memory as it is.
pub record Cleared (m m' : Map) (q n : ℕ) : Type 0 where
  pub cells : (j : ℕ) → entry m' j ≡ (if among q n j then 0 else entry m j)
  pub tables : HasTables m'

cleared_step :
    (q n j old : ℕ)
    → (if among (q + 1) n j then 0 else if j == q then 0 else old)
      ≡ (if among q (suc n) j then 0 else old)
cleared_step q n j old = ground arith

clear_from-Cleared :
    (n q : ℕ) (m : Map) (mem : Mem)
    → q + n ≤ user_pages
    → HasTables m
    → (m' : Map) × (clear_from (q * page_size) n m mem ≡ ok m' mem) × Cleared m m' q n
unfolding clear_from
clear_from-Cleared zero q m mem inside full = (
  m,
  refl,
  record {
    cells = λ j. let out : among q 0 j ≡ false = ground arith in rw out refl;
    tables = full;
  },
)
clear_from-Cleared (suc n) q m mem inside full =
    let (m1, run, written) = put-Written m q 0 mem (omega arith) full in
    let (m2, later, rest) = clear_from-Cleared n (q + 1) m1 mem (omega arith) written.tables in
    let next_page : (q + 1) * page_size ≡ q * page_size + page_size = omega arith in
    (
      m2,
      rw (run, ← next_page, later) refl,
      record {
        cells = λ j. rw (rest.cells j, written.cells j) (cleared_step q n j (entry m j));
        tables = rest.tables;
      },
    )

-- Map::clear at a page boundary of a map with all its tables: it succeeds, exactly the entries of
-- the pages it names become zero, and every other entry is what it was. The pages lie below the
-- kernel's addresses.
pub clear-Cleared :
    (n q : ℕ) (m : Map) (mem : Mem)
    → q + n ≤ user_pages
    → HasTables m
    → (m' : Map) × (clear (pos (q * page_size)) n m mem ≡ ok m' mem) × Cleared m m' q n
unfolding clear
clear-Cleared n q m mem inside full = clear_from-Cleared n q m mem inside full

uncover :
    (lo hi q n j new old : ℕ)
    → (among q n j ≡ true → old ≡ 0)
    → (if among q n j then 0 else if within lo hi q n j then new else old) ≡ old
uncover lo hi q n j new old unmapped = elim (Bool-cases (among q n j)) [
  | inl here ↦ rw (here, unmapped here) refl
  | inr away ↦
      let untouched : within lo hi q n j ≡ false = ground arith in rw (away, untouched) refl
]

-- An insert of a chain and a clear of as many pages at the same place give back the entries of a
-- map with all its tables, where the pages were not mapped before. The pages lie below the kernel's
-- addresses.
pub clear-insert :
    (fuel page_flags lo hi q : ℕ) (p : Page) (ps : List Page) (m : Map) (mem : Mem)
    → hi ≤ user_pages
    → q + total (p ∷ ps) ≤ user_pages
    → HasTables m
    → ((j : ℕ) → among q (total (p ∷ ps)) j ≡ true → entry m j ≡ 0)
    → (m' : Map) × ((insert fuel
              (pos (q * page_size))
              (p ∷ ps)
              page_flags
              (lo * page_size)
              (hi * page_size)
              m
            >>= clear (pos (q * page_size)) (total (p ∷ ps)))
          mem
        ≡ ok m' mem)
      × ((j : ℕ) → entry m' j ≡ entry m j)
clear-insert fuel page_flags lo hi q p ps m mem upper inside full unmapped =
    let n = total (p ∷ ps) in
    let (m1, run, filled) = insert-Filled fuel page_flags lo hi q p ps m mem upper full in
    let (m2, later, cleared) = clear-Cleared n q m1 mem inside filled.tables in
    (
      m2,
      rw (run, later) refl,
      λ j.
          rw (cleared.cells j, filled.cells j)
            (uncover lo hi q n j (frame_entry (p ∷ ps) page_flags (j - q)) (entry m j)
              (unmapped j)),
    )
