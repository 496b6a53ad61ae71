-- ===== src/Interrupts/Idt.antt =====
-- The interrupt descriptor table of src/int/idt.cpp. A handler stands for its address, and 0 for none.
pub mod Install
mod Tests
use Prim.Native.Nat.{bit_or, bit_and}
use cantos.Prelude.{ℕ, ◌+◌, ◌/◌, ◌%◌, ◌^◌, Bool, true, false, ◌==◌, ltb, if◌then◌else◌}

abbrev pub idt_length : ℕ
idt_length = 256

abbrev pub flag_present : ℕ
flag_present = 0x80

abbrev pub gate_32_int : ℕ
gate_32_int = 0xe

-- entry_t.
pub record Entry : Type 0 where
  pub offset_low : ℕ
  pub selector : ℕ
  pub reserved : ℕ
  pub type_attr : ℕ
  pub offset_high : ℕ

pub record Idt : Type 0 where
  pub table : ℕ → Entry
  pub functions : ℕ → ℕ
  pub functions_err : ℕ → ℕ

-- How an operation ends: with a value, in panic(), or in a read behind an array.
pub data Result (A : Type 0) : Type 0 where
  done : A → Result A
  panicked : Result A
  fault : Result A

abbrev pub set_at {ℓ} : {A : Type ℓ} → ℕ → A → (ℕ → A) → ℕ → A
set_at i x f j = if j == i then x else f j

pub enable_entry : ℕ → ℕ → Idt → Idt
enable_entry vector offset t = record t {
  table =
      set_at vector
        (record (t.table vector) {
          offset_low = bit_and offset 0xffff;
          offset_high = offset / 2 ^ 16 % 2 ^ 16;
        })
        t.table;
}

abbrev pub update_entry : Entry → ℕ → ℕ → Entry
update_entry e selector type_attr = record e {
  selector = selector;
  reserved = 0;
  type_attr = type_attr;
}

-- What install does once the handler is stored.
abbrev pub describe : ℕ → ℕ → ℕ → Idt → Result Idt
describe id selector type_attr t =
    if (t.table id).offset_high == 0
    then panicked
    else done (record t {
      table =
          set_at id (update_entry (t.table id) selector (bit_or type_attr flag_present)) t.table;
    })

pub install : ℕ → ℕ → ℕ → ℕ → Idt → Result Idt
install id offset selector type_attr t =
    describe id selector type_attr (record t { functions = set_at id offset t.functions })

pub install_with_error : ℕ → ℕ → ℕ → ℕ → Idt → Result Idt
install_with_error id offset selector type_attr t =
    describe id selector type_attr (record t { functions_err = set_at id offset t.functions_err })

-- The handler that idt_handle calls, or 0 where it calls none.
pub idt_handle : ℕ → Idt → Result ℕ
idt_handle vector t = if ltb vector idt_length then done (t.functions vector) else fault

pub idt_handle_with_error : ℕ → Idt → Result ℕ
idt_handle_with_error vector t =
    if ltb vector idt_length then done (t.functions_err vector) else fault
