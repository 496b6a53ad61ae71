-- ===== src/Mem/Vm/Filled.antt =====
-- The entries of a map behind an insert of src/mem/vm.cpp, put together from those of its rounds.
use cantos.Prelude.{
  ℕ, ◌+◌, ◌-◌, ◌<◌, ◌≤◌, ◌≡◌, refl, sym, Bool, true, false, ◌&&◌, List, [], ◌∷◌, ltb, leb, ◌==◌,
  if◌then◌else◌, arith, leb→le, Bool-cases, inl, inr,
}
use native.Mathlib.Decide.{ℕ_discrete}
use cantos.Mem.State.{Page}
use cantos.Mem.PageAlloc.{page_entry}
use cantos.Mem.Vm.{Map}
use cantos.Mem.Vm.Entries.{entry, HasTables}

-- Page `j` lies from page `q` on, below page `q + n`, and in the pages from `lo` to below `hi`.
abbrev pub within : ℕ → ℕ → ℕ → ℕ → ℕ → Bool
within lo hi q n j = leb lo j && ltb j hi && leb q j && ltb j (q + n)

-- The entry for each page of a chain of records.
abbrev pub frame_entry : List Page → ℕ → ℕ → ℕ
frame_entry [] page_flags i = 0
frame_entry (p ∷ ps) page_flags i =
    if ltb i p.consecutive
    then page_entry p.mem_base i page_flags
    else frame_entry ps page_flags (i - p.consecutive)

-- A run that leaves the memory as it is and the entries changed by `new` where `changed` says so.
pub record Filled (m m' : Map) (changed : ℕ → Bool) (new : ℕ → ℕ) : Type 0 where
  pub cells : (j : ℕ) → entry m' j ≡ (if changed j then new j else entry m j)
  pub tables : HasTables m'

pub Filled-ext :
    {m m' : Map} {changed : ℕ → Bool} {new new' : ℕ → ℕ}
    → Filled m m' changed new
    → ((j : ℕ) → changed j ≡ true → new j ≡ new' j)
    → Filled m m' changed new'
Filled-ext {m = m} {m' = m'} {changed = changed} {new = new} {new' = new'} filled same = record {
  cells = λ j. elim (Bool-cases (changed j)) [
    | inl yes' ↦
        let cell : entry m' j ≡ (if changed j then new j else entry m j) = filled.cells j in
        rw (cell, yes') (same j yes')
    | inr no' ↦
        let cell : entry m' j ≡ (if changed j then new j else entry m j) = filled.cells j in
        rw (cell, no') refl
  ];
  tables = filled.tables;
}

pub Filled-same :
    {m m' : Map} {changed changed' : ℕ → Bool} {new : ℕ → ℕ}
    → Filled m m' changed new
    → ((j : ℕ) → changed j ≡ changed' j)
    → Filled m m' changed' new
Filled-same filled same = record {
  cells = λ j. rw (sym (same j)) (filled.cells j);
  tables = filled.tables;
}

overlay :
    (lo hi q n k j new old : ℕ)
    → (if within lo hi (q + n) k j then new else if within lo hi q n j then new else old)
      ≡ (if within lo hi q (n + k) j then new else old)
overlay lo hi q n k j new old = ground arith

pub Filled-append :
    {m m1 m2 : Map} (lo hi q n k : ℕ) {new : ℕ → ℕ}
    → Filled m m1 (within lo hi q n) new
    → Filled m1 m2 (within lo hi (q + n) k) new
    → Filled m m2 (within lo hi q (n + k)) new
Filled-append {m = m} lo hi q n k {new = new} first later = record {
  cells = λ j. rw (later.cells j, first.cells j) (overlay lo hi q n k j (new j) (entry m j));
  tables = later.tables;
}

pub Filled-none :
    (m : Map) (lo hi q : ℕ) (new : ℕ → ℕ) → HasTables m → Filled m m (within lo hi q 0) new
Filled-none m lo hi q new full = record {
  cells = λ j. let out : within lo hi q 0 j ≡ false = ground arith in rw out refl;
  tables = full;
}

pub single :
    (lo hi q j i base page_flags old : ℕ)
    → leb lo q ≡ true
    → q < hi
    → (if j == q then page_entry base i page_flags else old)
      ≡ (if within lo hi q 1 j then page_entry base (i + j - q) page_flags else old)
single lo hi q j i base page_flags old from h = elim (ℕ_discrete j q) [
  | yes same ↦
      let above : lo ≤ q = leb→le lo q from in
      let hit : (j == q) ≡ true = ground arith in
      let inside : within lo hi q 1 j ≡ true = ground arith in
      let index : i + j - q ≡ i = omega arith in rw (hit, inside, index) refl
  | no other ↦
      let miss : (j == q) ≡ false = ground arith in
      let outside : within lo hi q 1 j ≡ false = ground arith in rw (miss, outside) refl
]
