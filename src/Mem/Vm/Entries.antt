-- ===== src/Mem/Vm/Entries.antt =====
-- The page tables of src/mem/vm.cpp as one table by page number.
use cantos.Prelude.{
  ℕ, ◌*◌, ◌/◌, ◌%◌, ◌<◌, ◌≡◌, refl, true, false, Option, none, some, ltb, ◌==◌, if◌then◌else◌,
  arith,
}
use native.Mathlib.Decide.{ℕ_discrete}
use cantos.Mem.State.{Mem, ok}
use cantos.Mem.PageAlloc.{page_size}
use cantos.Mem.Vm.{
  Map, Table, user_tables, slot_of, index_of, write_entry, with_table, put_entry, put, ensure_at,
  ensure,
}

-- The pages of the user's part of the address space.
abbrev pub user_pages : ℕ
user_pages = user_tables * 0x400

abbrev pub entry_in : Option Table → ℕ → ℕ
entry_in none i = 0
entry_in (some t) i = t.entries i

-- The entry of page `k`.
abbrev pub entry : Map → ℕ → ℕ
entry m k = entry_in (m.tables (k / 0x400)) (k % 0x400)

-- Every slot of the user's part has a table.
abbrev pub HasTables : Map → Type 0
HasTables m = (slot : ℕ) → slot < user_tables → (t : Table) × (m.tables slot ≡ some t)

pub slot_of-page : (q : ℕ) → slot_of (q * page_size) ≡ q / 0x400
slot_of-page q = omega arith

pub index_of-page : (q : ℕ) → index_of (q * page_size) ≡ q % 0x400
index_of-page q = omega arith

-- What a write of the entry of page `k` leaves.
pub record Written (m m' : Map) (k v : ℕ) : Type 0 where
  pub cells : (j : ℕ) → entry m' j ≡ (if j == k then v else entry m j)
  pub tables : HasTables m'

module _ (m : Map) (k v : ℕ) (t : Table) (there : m.tables (k / 0x400) ≡ some t)
    (full : HasTables m) where
  write_entry-cells :
      (j : ℕ)
      → entry (write_entry m (k / 0x400) (k % 0x400) v t) j ≡ (if j == k then v else entry m j)
  write_entry-cells j = elim (ℕ_discrete (j / 0x400) (k / 0x400)) [
    | yes same ↦
        let here : m.tables (j / 0x400) ≡ some t = rw same there in
        let this : (j / 0x400 == k / 0x400) ≡ true = ground arith in
        let index : (j % 0x400 == k % 0x400) ≡ (j == k) = ground arith in
        rw (this, here, index) refl
    | no other ↦
        let that : (j / 0x400 == k / 0x400) ≡ false = ground arith in
        let apart : (j == k) ≡ false = ground arith in rw (that, apart) refl
  ]

  write_entry-HasTables : HasTables (write_entry m (k / 0x400) (k % 0x400) v t)
  write_entry-HasTables s h = elim (ℕ_discrete s (k / 0x400)) [
    | yes same ↦ let this : (s == k / 0x400) ≡ true = ground arith in rw this (_, refl)
    | no other ↦ let that : (s == k / 0x400) ≡ false = ground arith in rw that (full s h)
  ]

put_entry-ok :
    (m : Map) (slot index v : ℕ) (mem : Mem) (t : Table)
    → slot < user_tables
    → m.tables slot ≡ some t
    → put_entry m slot index v mem ≡ ok (write_entry m slot index v t) mem
unfolding put_entry with_table
put_entry-ok m slot index v mem t h there =
    let user : ltb slot user_tables ≡ true = ground arith in rw (user, there) refl

put_entry-page :
    (m : Map) (k v : ℕ) (mem : Mem) (t : Table)
    → k < user_pages
    → m.tables (k / 0x400) ≡ some t
    → put_entry m (slot_of (k * page_size)) (index_of (k * page_size)) v mem
      ≡ ok (write_entry m (k / 0x400) (k % 0x400) v t) mem
put_entry-page m k v mem t inside there =
    rw (slot_of-page k, index_of-page k)
      (put_entry-ok m (k / 0x400) (k % 0x400) v mem t (omega arith) there)

-- A write to page `k` of a map with all its tables succeeds.
pub put-Written :
    (m : Map) (k v : ℕ) (mem : Mem)
    → k < user_pages
    → HasTables m
    → (m' : Map) × (put m (k * page_size) v mem ≡ ok m' mem) × Written m m' k v
unfolding put
put-Written m k v mem inside full =
    let (t, there) = full (k / 0x400) (omega arith) in
    (
      write_entry m (k / 0x400) (k % 0x400) v t,
      put_entry-page m k v mem t inside there,
      record {
        cells = write_entry-cells m k v t there full;
        tables = write_entry-HasTables m k v t there full;
      },
    )

ensure_at-none :
    (fuel : ℕ) (m : Map) (slot page_flags : ℕ) (mem : Mem) (t : Table)
    → slot < user_tables
    → m.tables slot ≡ some t
    → ensure_at fuel slot page_flags m mem ≡ ok m mem
unfolding ensure_at with_table
ensure_at-none fuel m slot page_flags mem t h there =
    let user : ltb slot user_tables ≡ true = ground arith in rw (user, there) refl

ensure_at-page :
    (fuel : ℕ) (m : Map) (k page_flags : ℕ) (mem : Mem) (t : Table)
    → k < user_pages
    → m.tables (k / 0x400) ≡ some t
    → ensure_at fuel (slot_of (k * page_size)) page_flags m mem ≡ ok m mem
ensure_at-page fuel m k page_flags mem t inside there =
    rw (slot_of-page k) (ensure_at-none fuel m (k / 0x400) page_flags mem t (omega arith) there)

-- Such a map needs no new table.
pub ensure-none :
    (fuel : ℕ) (m : Map) (k page_flags : ℕ) (mem : Mem)
    → k < user_pages
    → HasTables m
    → ensure fuel (k * page_size) page_flags m mem ≡ ok m mem
unfolding ensure
ensure-none fuel m k page_flags mem inside full =
    let (t, there) = full (k / 0x400) (omega arith) in
    ensure_at-page fuel m k page_flags mem t inside there
