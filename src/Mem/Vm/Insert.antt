-- ===== src/Mem/Vm/Insert.antt =====
-- What Map::insert of src/mem/vm.cpp leaves in a map that has all its tables.
use cantos.Prelude.{
  ℕ, zero, suc, ◌+◌, ◌-◌, ◌*◌, ◌<◌, ◌≤◌, ◌≡◌, refl, ap, true, false, List, [], ◌∷◌, none, some, ltb,
  leb, if◌then◌else◌, arith, leb→le, not_leb→lt, pos, negsuc, Bool-cases, inl, inr,
}
use cantos.Mem.State.{Mem, ok, Page}
use cantos.Mem.PageAlloc.{page_size, page_entry}
use cantos.Mem.Frames.{total}
use cantos.Mem.Vm.{Map, map_page, insert_above, insert_record, insert_chain, insert}
use cantos.Mem.Vm.Filled.{
  within, frame_entry, Filled, Filled-ext, Filled-same, Filled-append, Filled-none, single,
}
use cantos.Mem.Vm.Entries.{entry, HasTables, Written, put-Written, ensure-none, user_pages}

map_page-Written :
    (fuel k base i page_flags : ℕ) (m : Map) (mem : Mem)
    → k < user_pages
    → HasTables m
    → (m' : Map) × (map_page fuel (k * page_size) base i page_flags m mem ≡ ok m' mem)
      × Written m m' k (page_entry base i page_flags)
unfolding map_page
map_page-Written fuel k base i page_flags m mem inside full =
    let (m', run, written) = put-Written m k (page_entry base i page_flags) mem inside full in
    (m', rw (ensure-none fuel m k page_flags mem inside full) run, written)

module _ (fuel base page_flags lo hi : ℕ) (mem : Mem) (inside : hi ≤ user_pages) where
  above-Filled :
      (q i : ℕ) (m : Map)
      → q < hi
      → HasTables m
      → (m' : Map) × (insert_above fuel (lo * page_size) (q * page_size) base i page_flags m mem
          ≡ ok m' mem)
        × Filled m m' (within lo hi q 1) (λ j. page_entry base (i + j - q) page_flags)
  unfolding insert_above
  above-Filled q i m h full = elim (Bool-cases (leb lo q)) [
    | inl from ↦
        let at : leb (lo * page_size) (q * page_size) ≡ true = ground arith in
        let (m', run, written) =
          map_page-Written fuel q base i page_flags m mem (omega arith) full in
        (
          m',
          rw at run,
          record {
            cells =
                λ j. rw (written.cells j) (single lo hi q j i base page_flags (entry m j) from h);
            tables = written.tables;
          },
        )
    | inr below ↦
        let at : leb (lo * page_size) (q * page_size) ≡ false = ground arith in
        (
          m,
          rw at refl,
          record {
            cells = λ j. let out : within lo hi q 1 j ≡ false = ground arith in rw out refl;
            tables = full;
          },
        )
  ]

  insert_record-Filled :
      (n q i : ℕ) (m : Map)
      → q < hi
      → HasTables m
      → (m' : Map) × (insert_record fuel base page_flags
            (lo * page_size)
            (hi * page_size)
            (q * page_size)
            i
            n
            m
            mem
          ≡ ok ((if leb hi (q + n) then none else some ((q + n) * page_size)), m') mem)
        × Filled m m' (within lo hi q n) (λ j. page_entry base (i + j - q) page_flags)
  unfolding insert_record
  insert_record-Filled zero q i m h full =
      let more : leb hi (q + 0) ≡ false = ground arith in
      let here : q + 0 ≡ q = omega arith in
      (
        m,
        rw (more, here) refl,
        Filled-none m lo hi q (λ j. page_entry base (i + j - q) page_flags) full,
      )
  insert_record-Filled (suc n) q i m h full =
      let (m1, run, first) = above-Filled q i m h full in
      elim (Bool-cases (leb hi (q + 1))) [
        | inl last ↦
            let le : hi ≤ q + 1 = leb→le hi (q + 1) last in
            let stop : leb (hi * page_size) (q * page_size + page_size) ≡ true = ground arith in
            let behind : leb hi (q + suc n) ≡ true = ground arith in
            let capped : (j : ℕ) → within lo hi q 1 j ≡ within lo hi q (suc n) j =
              λ j. ground arith in
            (m1, rw (run, stop, behind) refl, Filled-same first capped)
        | inr more ↦
            let lt : q + 1 < hi = not_leb→lt hi (q + 1) more in
            let (m2, later, rest) = insert_record-Filled n (q + 1) (i + 1) m1 lt first.tables in
            let go : leb (hi * page_size) (q * page_size + page_size) ≡ false = ground arith in
            let next_page : (q + 1) * page_size ≡ q * page_size + page_size = omega arith in
            let behind : q + 1 + n ≡ q + suc n = omega arith in
            let index : (j : ℕ) → i + 1 + j - (q + 1) ≡ i + j - q = λ j. omega arith in
            (
              m2,
              rw (run, go, ← next_page, later, behind) refl,
              Filled-same
                  (Filled-append lo hi q 1 n first
                    (Filled-ext rest (λ j _. ap (λ x. page_entry base x page_flags) (index j))))
                  (λ j. ground arith),
            )
      ]

module _ (fuel page_flags lo hi : ℕ) (mem : Mem) (inside : hi ≤ user_pages) where
  frame_entry-head :
      (p : Page) (ps : List Page) (q j : ℕ)
      → within lo hi q p.consecutive j ≡ true
      → page_entry p.mem_base (0 + j - q) page_flags ≡ frame_entry (p ∷ ps) page_flags (j - q)
  frame_entry-head p ps q j changed =
      let first : ltb (j - q) p.consecutive ≡ true = ground (arith, changed) in
      let index : 0 + j - q ≡ j - q = omega arith in rw (first, index) refl

  frame_entry-tail :
      (p : Page) (ps : List Page) (q j : ℕ)
      → within lo hi (q + p.consecutive) (total ps) j ≡ true
      → frame_entry ps page_flags (j - (q + p.consecutive))
        ≡ frame_entry (p ∷ ps) page_flags (j - q)
  frame_entry-tail p ps q j changed =
      let later : ltb (j - q) p.consecutive ≡ false = ground (arith, changed) in
      let index : j - (q + p.consecutive) ≡ j - q - p.consecutive = omega arith in
      rw (later, index) refl

  insert_chain-Filled :
      (ps : List Page) (q : ℕ) (m : Map)
      → HasTables m
      → (m' : Map) × (insert_chain fuel page_flags
            (lo * page_size)
            (hi * page_size)
            (q * page_size)
            ps
            m
            mem
          ≡ ok m' mem)
        × Filled m m' (within lo hi q (total ps)) (λ j. frame_entry ps page_flags (j - q))
  unfolding insert_chain total
  insert_chain-Filled [] q m full =
      (m, refl, Filled-none m lo hi q (λ j. frame_entry [] page_flags (j - q)) full)
  insert_chain-Filled (p ∷ ps) q m full = elim (Bool-cases (leb hi q)) [
    | inl past ↦
        let le : hi ≤ q = leb→le hi q past in
        let stop : leb (hi * page_size) (q * page_size) ≡ true = ground arith in
        (
          m,
          rw stop refl,
          Filled-same (Filled-none m lo hi q (λ j. frame_entry (p ∷ ps) page_flags (j - q)) full)
              (λ j. ground arith),
        )
    | inr before ↦
        let lt : q < hi = not_leb→lt hi q before in
        let go : leb (hi * page_size) (q * page_size) ≡ false = ground arith in
        let (m1, run, first) =
          insert_record-Filled fuel p.mem_base page_flags lo hi mem inside p.consecutive q 0 m lt
            full in
        let head = Filled-ext first (frame_entry-head p ps q) in
        elim (Bool-cases (leb hi (q + p.consecutive))) [
          | inl last ↦
              let le : hi ≤ q + p.consecutive = leb→le hi (q + p.consecutive) last in
              (m1, rw (go, run, last) refl, Filled-same head (λ j. ground arith))
          | inr more ↦
              let (m2, later, rest) = insert_chain-Filled ps (q + p.consecutive) m1 first.tables in
              (
                m2,
                rw (go, run, more) later,
                Filled-append lo hi q p.consecutive (total ps) head
                    (Filled-ext rest (frame_entry-tail p ps q)),
              )
        ]
  ]

-- Map::insert at a page boundary into a map with all its tables: it succeeds without an allocation,
-- the pages of the chain that lie between min_addr and max_addr get their entries, and every other
-- entry is what it was. The chain is not empty, and the boundaries lie below the kernel's addresses.
pub insert-Filled :
    (fuel page_flags lo hi q : ℕ) (p : Page) (ps : List Page) (m : Map) (mem : Mem)
    → hi ≤ user_pages
    → HasTables m
    → (m' : Map) × (insert fuel
          (pos (q * page_size))
          (p ∷ ps)
          page_flags
          (lo * page_size)
          (hi * page_size)
          m
          mem
        ≡ ok m' mem)
      × Filled m m' (within lo hi q (total (p ∷ ps))) (λ j. frame_entry (p ∷ ps) page_flags (j - q))
unfolding insert
insert-Filled fuel page_flags lo hi q p ps m mem inside full =
    insert_chain-Filled fuel page_flags lo hi mem inside (p ∷ ps) q m full

-- An address below zero is left alone.
pub insert-negative :
    (fuel a page_flags lo hi : ℕ) (ps : List Page) (m : Map) (mem : Mem)
    → insert fuel (negsuc a) ps page_flags lo hi m mem ≡ ok m mem
unfolding insert
insert-negative fuel a page_flags lo hi ps m mem = refl
