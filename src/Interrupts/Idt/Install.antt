-- ===== src/Interrupts/Idt/Install.antt =====
-- That install of src/int/idt.cpp makes an interrupt reach its handler.
use Prim.Native.Nat.{bit_or}
use cantos.Prelude.{
  ℕ, ◌+◌, ◌*◌, ◌/◌, ◌%◌, ◌<◌, ◌≤◌, ◌≡◌, ◌≢◌, refl, true, false, ◌==◌, ◌^◌, ltb, arith, bit_and-word,
}
use cantos.Interrupts.Idt.{
  Entry, Idt, done, panicked, idt_length, flag_present, set_at, enable_entry, update_entry, install,
  idt_handle,
}

-- An entry that is present: where its gate leads, its selector and its type.
pub record Present (e : Entry) (offset selector type_attr : ℕ) : Type 0 where
  pub leads : e.offset_low + e.offset_high * 2 ^ 16 ≡ offset
  pub selects : e.selector ≡ selector
  pub cleared : e.reserved ≡ 0
  pub typed : e.type_attr ≡ bit_or type_attr flag_present

-- The table after an interrupt has been given a handler: only that interrupt has changed.
pub record Installed (id offset handler selector type_attr : ℕ) (before after : Idt) : Type 0 where
  pub present : Present (after.table id) offset selector type_attr
  pub handled : idt_handle id after ≡ done handler
  pub others :
      (j : ℕ) → j ≢ id → (after.table j ≡ before.table j) × (after.functions j ≡ before.functions j)
  pub errors : (j : ℕ) → after.functions_err j ≡ before.functions_err j

-- install behind enable_entry returns, the gate leads to the entry point that enable_entry was given,
-- the handler is the one that idt_handle calls for the interrupt, and no other interrupt changes. The
-- entry point is not in the first 64 KiB.
pub install-Installed :
    (id offset handler selector type_attr : ℕ) (t : Idt)
    → id < idt_length
    → 0x10000 ≤ offset
    → offset < 2 ^ 32
    → (t' : Idt) × (install id handler selector type_attr (enable_entry id offset t) ≡ done t')
      × Installed id offset handler selector type_attr t t'
unfolding install enable_entry idt_handle
install-Installed id offset handler selector type_attr t small high word =
    let same : (id == id) ≡ true = ground arith in
    let in_table : ltb id idt_length ≡ true = ground arith in
    let some_high : (offset / 2 ^ 16 % 2 ^ 16 == 0) ≡ false = ground arith in
    (
      record (enable_entry id offset t) {
        functions = set_at id handler t.functions;
        table =
            set_at id
              (update_entry ((enable_entry id offset t).table id) selector
                (bit_or type_attr flag_present))
              (enable_entry id offset t).table;
      },
      rw (same, some_high) refl,
      record {
        present = record {
          leads = rw (same, bit_and-word offset) (omega arith);
          selects = rw same refl;
          cleared = rw same refl;
          typed = rw same refl;
        };
        handled = rw (same, in_table) refl;
        others = λ j other. (ground arith, ground arith);
        errors = λ j. refl;
      },
    )

-- install of an interrupt that has no entry point panics.
pub install-panics :
    (id handler selector type_attr : ℕ) (t : Idt)
    → (t.table id).offset_high ≡ 0
    → install id handler selector type_attr t ≡ panicked
unfolding install
install-panics id handler selector type_attr t none_yet = rw none_yet refl
