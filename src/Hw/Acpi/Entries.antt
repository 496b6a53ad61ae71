-- ===== src/Hw/Acpi/Entries.antt =====
-- What src/hw/loacpi.cpp reads out of a MADT.
use cantos.Prelude.{
  ℕ, zero, suc, ◌+◌, ◌<◌, ◌≤◌, ◌≡◌, refl, sym, ap, ◌∙◌, true, false, List, [], ◌∷◌, ◌++◌, ◌==◌, ltb,
  if◌then◌else◌, add32, length, length-append, arith, u32_mod, Bool-cases, inl, inr, ==→eq,
}
use mathlib.Core.List.{append-nil, append_assoc}
use cantos.Hw.Acpi.{
  Copies, done, madt_copy, type_proc, type_ioapic, type_iso, size_proc, size_ioapic, size_iso,
  bytes_at, copy_entry, copy_entries,
}

module _ (memory : ℕ → ℕ) where
  -- The addresses of the entries from `p` up to the end of a table.
  abbrev pub Walk : ℕ → ℕ → List ℕ → Type 0
  Walk top p [] = top ≤ p
  Walk top p (a ∷ rest) =
      (p ≡ a) × (a < top) × (a + memory (a + 1) < u32_mod) × Walk top (a + memory (a + 1)) rest

  -- The entries of one type, each as its first bytes behind the length.
  abbrev pub rows_of : ℕ → ℕ → List ℕ → List (List ℕ)
  rows_of type n [] = []
  rows_of type n (a ∷ rest) =
      if memory a == type
      then bytes_at memory n (a + 2) ∷ rows_of type n rest
      else rows_of type n rest

  abbrev pub add_rows : Copies → List ℕ → Copies
  add_rows c entries = record {
    procs = c.procs ++ rows_of type_proc size_proc entries;
    ioapics = c.ioapics ++ rows_of type_ioapic size_ioapic entries;
    isos = c.isos ++ rows_of type_iso size_iso entries;
  }

  -- The tables have room for the entries.
  pub record Fits (c : Copies) (entries : List ℕ) : Type 0 where
    pub procs : length c.procs + length (rows_of type_proc size_proc entries) ≤ madt_copy
    pub ioapics : length c.ioapics + length (rows_of type_ioapic size_ioapic entries) ≤ madt_copy
    pub isos : length c.isos + length (rows_of type_iso size_iso entries) ≤ madt_copy

  -- One entry: the switch puts it behind those of its type, and leaves room for the others.
  record Copied (a : ℕ) (rest : List ℕ) (c : Copies) : Type 0 where
    after : Copies
    run : copy_entry memory a c ≡ done after
    same : add_rows after rest ≡ add_rows c (a ∷ rest)
    fits : Fits after rest

  -- A row that goes behind `rows`, when `more` is what there is to add.
  record Room (rows : List (List ℕ)) (row : List ℕ) (more : List (List ℕ)) : Type 0 where
    space : ltb (length rows) madt_copy ≡ true
    next : (rows ++ (row ∷ [])) ++ more ≡ rows ++ (row ∷ more)
    fits : length (rows ++ (row ∷ [])) + length more ≤ madt_copy

  room :
      (rows : List (List ℕ)) (row : List ℕ) (more : List (List ℕ))
      → length rows + suc (length more) ≤ madt_copy
      → Room rows row more
  room rows row more enough = record {
    space = ground (arith, enough);
    next = append_assoc rows (row ∷ []) more;
    fits = omega (arith, enough, length-append rows (row ∷ []));
  }

  copies_path :
      {ps ps' is is' ss ss' : List (List ℕ)}
      → ps ≡ ps'
      → is ≡ is'
      → ss ≡ ss'
      → Path Copies
          (record { procs = ps; ioapics = is; isos = ss })
          (record { procs = ps'; ioapics = is'; isos = ss' })
  copies_path p q r = λ i. record { procs = p i; ioapics = q i; isos = r i }

  -- The rows of a table, with those that an entry of another type adds: none.
  kept :
      (type n a : ℕ) (rest : List ℕ) (rows : List (List ℕ))
      → memory a == type ≡ false
      → rows ++ rows_of type n (a ∷ rest) ≡ rows ++ rows_of type n rest
  kept type n a rest rows test = rw test refl

  stays :
      (type n a : ℕ) (rest : List ℕ) (rows : List (List ℕ))
      → memory a == type ≡ false
      → length rows + length (rows_of type n (a ∷ rest)) ≤ madt_copy
      → length rows + length (rows_of type n rest) ≤ madt_copy
  stays type n a rest rows test = rw test (λ fit. fit)

  takes :
      (type n a : ℕ) (rest : List ℕ) (rows : List (List ℕ))
      → memory a == type ≡ true
      → length rows + length (rows_of type n (a ∷ rest)) ≤ madt_copy
      → Room rows (bytes_at memory n (a + 2)) (rows_of type n rest)
  takes type n a rest rows test =
      rw test (room rows (bytes_at memory n (a + 2)) (rows_of type n rest))

  grown :
      (type n a : ℕ) (rest : List ℕ) (rows : List (List ℕ))
      → memory a == type ≡ true
      → Room rows (bytes_at memory n (a + 2)) (rows_of type n rest)
      → (rows ++ (bytes_at memory n (a + 2) ∷ [])) ++ rows_of type n rest
        ≡ rows ++ rows_of type n (a ∷ rest)
  grown type n a rest rows test r = rw test r.next

  proc-Copied :
      (a : ℕ) (rest : List ℕ) (c : Copies)
      → memory a == type_proc ≡ true
      → Fits c (a ∷ rest)
      → Copied a rest c
  unfolding copy_entry
  proc-Copied a rest c test fits =
      let value : memory a ≡ 0 = ==→eq (memory a) 0 test in
      let no_ioapic : memory a == type_ioapic ≡ false = rw value refl in
      let no_iso : memory a == type_iso ≡ false = rw value refl in
      let r = takes type_proc size_proc a rest c.procs test fits.procs in
      record {
        after = record c { procs = c.procs ++ (bytes_at memory size_proc (a + 2) ∷ []) };
        run = rw (value, r.space) refl;
        same =
            copies_path (grown type_proc size_proc a rest c.procs test r)
              (sym (kept type_ioapic size_ioapic a rest c.ioapics no_ioapic))
              (sym (kept type_iso size_iso a rest c.isos no_iso));
        fits = record {
          procs = r.fits;
          ioapics = stays type_ioapic size_ioapic a rest c.ioapics no_ioapic fits.ioapics;
          isos = stays type_iso size_iso a rest c.isos no_iso fits.isos;
        };
      }

  ioapic-Copied :
      (a : ℕ) (rest : List ℕ) (c : Copies)
      → memory a == type_ioapic ≡ true
      → Fits c (a ∷ rest)
      → Copied a rest c
  unfolding copy_entry
  ioapic-Copied a rest c test fits =
      let value : memory a ≡ 1 = ==→eq (memory a) 1 test in
      let no_proc : memory a == type_proc ≡ false = rw value refl in
      let no_iso : memory a == type_iso ≡ false = rw value refl in
      let r = takes type_ioapic size_ioapic a rest c.ioapics test fits.ioapics in
      record {
        after = record c { ioapics = c.ioapics ++ (bytes_at memory size_ioapic (a + 2) ∷ []) };
        run = rw (value, r.space) refl;
        same =
            copies_path (sym (kept type_proc size_proc a rest c.procs no_proc))
              (grown type_ioapic size_ioapic a rest c.ioapics test r)
              (sym (kept type_iso size_iso a rest c.isos no_iso));
        fits = record {
          procs = stays type_proc size_proc a rest c.procs no_proc fits.procs;
          ioapics = r.fits;
          isos = stays type_iso size_iso a rest c.isos no_iso fits.isos;
        };
      }

  iso-Copied :
      (a : ℕ) (rest : List ℕ) (c : Copies)
      → memory a == type_iso ≡ true
      → Fits c (a ∷ rest)
      → Copied a rest c
  unfolding copy_entry
  iso-Copied a rest c test fits =
      let value : memory a ≡ 2 = ==→eq (memory a) 2 test in
      let no_proc : memory a == type_proc ≡ false = rw value refl in
      let no_ioapic : memory a == type_ioapic ≡ false = rw value refl in
      let r = takes type_iso size_iso a rest c.isos test fits.isos in
      record {
        after = record c { isos = c.isos ++ (bytes_at memory size_iso (a + 2) ∷ []) };
        run = rw (value, r.space) refl;
        same =
            copies_path (sym (kept type_proc size_proc a rest c.procs no_proc))
              (sym (kept type_ioapic size_ioapic a rest c.ioapics no_ioapic))
              (grown type_iso size_iso a rest c.isos test r);
        fits = record {
          procs = stays type_proc size_proc a rest c.procs no_proc fits.procs;
          ioapics = stays type_ioapic size_ioapic a rest c.ioapics no_ioapic fits.ioapics;
          isos = r.fits;
        };
      }

  copy_entry-Copied : (a : ℕ) (rest : List ℕ) (c : Copies) → Fits c (a ∷ rest) → Copied a rest c
  unfolding copy_entry
  copy_entry-Copied a rest c fits = elim (Bool-cases (memory a == type_proc)) [
    | inl proc ↦ proc-Copied a rest c proc fits
    | inr no_proc ↦ elim (Bool-cases (memory a == type_ioapic)) [
      | inl ioapic ↦ ioapic-Copied a rest c ioapic fits
      | inr no_ioapic ↦ elim (Bool-cases (memory a == type_iso)) [
        | inl iso ↦ iso-Copied a rest c iso fits
        | inr no_iso ↦ record {
          after = c;
          run = rw (no_proc, no_ioapic, no_iso) refl;
          same =
              copies_path (sym (kept type_proc size_proc a rest c.procs no_proc))
                (sym (kept type_ioapic size_ioapic a rest c.ioapics no_ioapic))
                (sym (kept type_iso size_iso a rest c.isos no_iso));
          fits = record {
            procs = stays type_proc size_proc a rest c.procs no_proc fits.procs;
            ioapics = stays type_ioapic size_ioapic a rest c.ioapics no_ioapic fits.ioapics;
            isos = stays type_iso size_iso a rest c.isos no_iso fits.isos;
          };
        }
      ]
    ]
  ]

  -- The loop returns with the entries behind those that were there.
  pub copy_entries_lem :
      (entries : List ℕ) (fuel top p : ℕ) (c : Copies)
      → Walk top p entries
      → Fits c entries
      → length entries < fuel
      → copy_entries memory fuel top p c ≡ done (add_rows c entries)
  unfolding copy_entries
  copy_entries_lem entries zero top p c walk fits enough = absurd (omega arith)
  copy_entries_lem [] (suc fuel) top p c over fits enough =
      let past : ltb p top ≡ false = ground arith in
      let same : c ≡ add_rows c [] =
        sym (copies_path (append-nil c.procs) (append-nil c.ioapics) (append-nil c.isos)) in
      rw (copy_entries, past) (ap done same)
  copy_entries_lem (a ∷ rest) (suc fuel) top p c (here, inside, small, walk) fits enough =
      let copied = copy_entry-Copied a rest c fits in
      let within : ltb a top ≡ true = ground arith in
      let next : add32 a (memory (a + 1)) ≡ a + memory (a + 1) = omega (arith, small) in
      let later =
        copy_entries_lem rest fuel top (a + memory (a + 1)) copied.after walk copied.fits
          (omega (arith, enough)) in
      let run : copy_entries memory (suc fuel) top a c ≡ done (add_rows c (a ∷ rest)) =
        rw (copy_entries, within, copied.run, next) (later ∙ ap done copied.same) in
      rw here run
