-- ===== src/Structures/Elf/Nearest.antt =====
-- That the search of src/structures/elf.cpp for a symbol gives the nearest one below an address.
use cantos.Prelude.{
  ℕ, zero, suc, ◌+◌, ◌-◌, ◌/◌, ◌<◌, ◌≤◌, ◌≡◌, refl, ◌⊎◌, inl, inr, false, ◌&&◌, ltb, leb, ◌==◌,
  ==→eq, not_==→ne, arith, Bool-cases, add32, mul32,
}
use native.Mathlib.Decide.{ℕ_discrete}
use cantos.Structures.Elf.{
  Header, SectionHeader, Symbol, Memory, value, Best, better, find_from, find_in, entries,
  runtime_symbol, follow, section_header, section_by_type, runtime_find_symbol_id, sht_symtab,
  runtime_section_data, null, entry_at,
}

-- Entry `i` of the symbol table in a section, where it is in memory.
abbrev pub symbol_of : Memory → Header → ℕ → ℕ → Symbol
symbol_of m h section i = m.symbol (
    add32 (runtime_section_data m h section)
      (mul32 i (m.section (section_header h section)).entsize))

-- A symbol of the type at or below the address.
abbrev pub Matches : ℕ → ℕ → Symbol → Type 0
Matches addr type s = (s.info ≡ type) × (s.value ≤ addr)

-- The best of the first `n` symbols: none of them is nearer, and it is one of them, or else the
-- search has found nothing and stands at entry 0.
pub record Nearest (symbols : ℕ → Symbol) (addr type n : ℕ) (b : Best) : Type 0 where
  pub least : (j : ℕ) → j < n → Matches addr type (symbols j) → b.delta ≤ addr - (symbols j).value
  pub chosen :
      ((b.delta ≡ 0xffffffff) × (b.id ≡ 0))
      ⊎ ((b.id < n) × Matches addr type (symbols b.id) × (b.delta ≡ addr - (symbols b.id).value))

module _ (symbols : ℕ → Symbol) (addr type : ℕ) where
  Nearest-keep :
      (n : ℕ) (b : Best)
      → Nearest symbols addr type n b
      → (Matches addr type (symbols n) → b.delta ≤ addr - (symbols n).value)
      → Nearest symbols addr type (n + 1) b
  Nearest-keep n b nearest last = record {
    least = λ j h matches. elim (ℕ_discrete j n) [
      | yes same ↦ rw same (last (rw same at matches))
      | no other ↦ nearest.least j (omega arith) matches
    ];
    chosen = elim nearest.chosen [
      | inl nothing ↦ inl nothing
      | inr (inside, matches, distance) ↦ inr (omega (arith, inside), matches, distance)
    ];
  }

  better-Nearest :
      (n : ℕ) (b : Best)
      → Nearest symbols addr type n b
      → Nearest symbols addr type (n + 1) (better addr type n (symbols n) b)
  better-Nearest n b nearest =
      let s = symbols n in
      elim (Bool-cases (s.info == type)) [
        | inr other ↦
            rw other (
              Nearest-keep n b nearest (λ (kind, below). absurd (not_==→ne s.info type other kind)))
        | inl kind ↦ elim (Bool-cases (leb s.value addr && ltb (addr - s.value) b.delta)) [
          | inr farther ↦
              rw (kind, farther)
                (Nearest-keep n b nearest (λ (same, below). ground (arith, farther, below)))
          | inl nearer ↦
              rw (kind, nearer)
                (record {
                  least = λ j h matches. elim (ℕ_discrete j n) [
                    | yes same ↦ rw same (omega arith)
                    | no different ↦
                        let old = nearest.least j (omega arith) matches in
                        ground (arith, old, nearer)
                  ];
                  chosen =
                      inr (omega arith, (==→eq s.info type kind, ground (arith, nearer)), refl);
                })
        ]
      ]

module _ (m : Memory) (h : Header) (section : ℕ) where
  -- The number of entries of a table.
  abbrev pub length_of : ℕ
  length_of =
      (m.section (section_header h section)).size / (m.section (section_header h section)).entsize

  abbrev pub pointer_of : ℕ → ℕ
  pointer_of i =
      add32 (runtime_section_data m h section)
        (mul32 i (m.section (section_header h section)).entsize)

  -- A table whose entries have a size, none of them at address 0.
  pub record IsTable : Type 0 where
    pub sized : ((m.section (section_header h section)).entsize == 0) ≡ false
    pub there : (i : ℕ) → i < length_of → (pointer_of i == null) ≡ false

  entry-inside :
      (s : SectionHeader) (data_at i : ℕ)
      → (s.entsize == 0) ≡ false
      → i < s.size / s.entsize
      → entry_at s data_at i ≡ value (add32 data_at (mul32 i s.entsize))
  unfolding entries
  entry-inside s data_at i sized inside =
      let below : leb (s.size / s.entsize) i ≡ false = ground (arith, inside) in
      rw (sized, below) refl

  runtime_symbol-inside :
      (i : ℕ) → IsTable → i < length_of → runtime_symbol m h section i ≡ value (pointer_of i)
  unfolding runtime_symbol
  runtime_symbol-inside i table inside =
      entry-inside (m.section (section_header h section)) (runtime_section_data m h section) i
        table.sized inside

  follow-there : (a : ℕ) → (a == null) ≡ false → follow m a ≡ value (m.symbol a)
  follow-there a there = rw there refl

  find_from-Nearest :
      (addr type n i : ℕ) (b : Best)
      → IsTable
      → i + n ≤ length_of
      → Nearest (symbol_of m h section) addr type i b
      → (b' : Best) × (find_from m h section addr type i n b ≡ value b')
        × Nearest (symbol_of m h section) addr type (i + n) b'
  unfolding find_from
  find_from-Nearest addr type zero i b table inside nearest =
      let same : i + 0 ≡ i = omega arith in (b, refl, rw same nearest)
  find_from-Nearest addr type (suc n) i b table inside nearest =
      let (b', ends, nearest') =
        find_from-Nearest addr type n (i + 1) (better addr type i (symbol_of m h section i) b) table
          (omega (arith, inside)) (better-Nearest (symbol_of m h section) addr type i b nearest) in
      let pointer = runtime_symbol-inside i table (omega (arith, inside)) in
      let followed = follow-there (pointer_of i) (table.there i (omega (arith, inside))) in
      let same : i + 1 + n ≡ i + suc n = omega arith in
      (b', rw pointer (rw followed ends), rw same at nearest')

find_in-Nearest :
    (m : Memory) (h : Header) (section addr type : ℕ)
    → IsTable m h section
    → (b : Best) × (find_in m h section addr type ≡ value b)
      × Nearest (symbol_of m h section) addr type (length_of m h section) b
unfolding find_in entries
find_in-Nearest m h section addr type table =
    let start : Best = record { id = 0; delta = 0xffffffff } in
    let sized : ((m.section (section_header h section)).entsize == 0) ≡ false = table.sized in
    let none_yet : Nearest (symbol_of m h section) addr type 0 start = record {
      least = λ j below. absurd (omega (arith, below));
      chosen = inl (refl, refl);
    } in
    let (b, ends, nearest) =
      find_from-Nearest m h section addr type (length_of m h section) 0 start table (omega arith)
        none_yet in
    let all : 0 + length_of m h section ≡ length_of m h section = omega arith in
    (b, rw sized ends, rw all at nearest)

-- runtimeFindSymbolId in the symbol table that sectionByType gives: it reads every entry, and comes to
-- the nearest symbol of the type at or below the address, or to entry 0 where there is none within
-- 2^32 - 2 bytes. The entries have a size, and none of them lies at address 0.
pub runtime_find_symbol_id-Nearest :
    (m : Memory) (h : Header) (addr type : ℕ)
    → IsTable m h (section_by_type m h sht_symtab 0)
    → (b : Best) × (runtime_find_symbol_id m h addr type ≡ value b.id)
      × Nearest
          (symbol_of m h (section_by_type m h sht_symtab 0))
          addr
          type
          (length_of m h (section_by_type m h sht_symtab 0))
          b
unfolding runtime_find_symbol_id
runtime_find_symbol_id-Nearest m h addr type table =
    let (b, ends, nearest) =
      find_in-Nearest m h (section_by_type m h sht_symtab 0) addr type table in
    (b, rw ends refl, nearest)
