-- ===== src/Structures/Format.antt =====
-- The formatting of src/structures/stream.cpp (Stream::writef), on which printk stands. A C string
-- is the list of its bytes without the terminator; a run ends in `none` where the code reads past
-- that terminator, past the arguments, or negates INT_MIN.
pub mod Count
pub mod Number
pub mod Strings
mod Tests
use cantos.Prelude.{
  ℕ, zero, suc, ◌+◌, ◌-◌, ◌*◌, ◌/◌, ◌%◌, ◌^◌, Bool, true, false, not, ◌&&◌, ◌||◌, List, [], ◌∷◌,
  ◌++◌, Option, none, some, ltb, leb, ◌==◌, if◌then◌else◌, length, u32_mod,
}

abbrev pub num_buffer_size : ℕ
num_buffer_size = 20

-- _num_to_str, a uint8_t.
pub num_to_str : ℕ → Bool → ℕ
num_to_str value uppercase =
    if ltb value 10
    then (value + 0x30) % 256
    else if uppercase
    then (value + 0x41 - 0xa) % 256
    else (value + 0x61 - 0xa) % 256

-- The loop that fills the buffer from its end: `n` places are left before `buffer`.
pub fill : ℕ → ℕ → Bool → ℕ → List ℕ → List ℕ
unfolding num_to_str
fill zero base uppercase val buffer = buffer
fill (suc n) base uppercase val buffer =
    fill n base uppercase (val / base) (num_to_str (val % base) uppercase ∷ buffer)

-- `start` moves over zeros, but not over the last place.
pub strip : List ℕ → List ℕ
strip [] = []
strip (c ∷ []) = c ∷ []
strip (c ∷ d ∷ ds) = if c == b'0' then strip (d ∷ ds) else c ∷ d ∷ ds

-- The digits that are written for an unsigned long long.
pub number : ℕ → Bool → ℕ → List ℕ
unfolding fill strip
number base uppercase val = strip (fill num_buffer_size base uppercase val [])

-- A variadic argument: a number of at most 64 bits, a string, or the target of %n.
pub data Arg : Type 0 where
  num : ℕ → Arg
  str : List ℕ → Arg
  slot : Arg

-- `length` is none outside a directive; `slots` is what %n stored, last first.
pub record Writer : Type 0 where
  pub length : Option ℕ
  pub args : List Arg
  pub out : List ℕ
  pub written : ℕ
  pub slots : List ℕ

pub write : List ℕ → Writer → Writer
write bytes w = record w { out = w.out ++ bytes; written = w.written + length bytes }

abbrev pub base_of : ℕ → ℕ
base_of cur =
    if cur == b'x' || (cur == b'X' || cur == b'p') then 16 else if cur == b'o' then 8 else 10

abbrev pub is_signed : ℕ → Bool
is_signed cur = cur == b'd' || cur == b'i'

-- What va_arg reads of an argument at each length; int and long have 32 bits.
abbrev pub read_arg : ℕ → ℕ → ℕ
read_arg length val = if leb 2 length then val % 2 ^ 64 else val % u32_mod

-- The sign and the magnitude for %d and %i, which look at the low 32 bits only.
pub signed_part : ℕ → Option (List ℕ × ℕ)
signed_part val =
    let low = val % u32_mod in
    if ltb low (2 ^ 31)
    then some ([], val)
    else if low == 2 ^ 31
    then none
    else some (b'-' ∷ [], u32_mod - low)

-- The part behind `case 'i':`.
write_number : ℕ → ℕ → Writer → Option Writer
unfolding signed_part number write
write_number cur val w =
    if is_signed cur
    then elim (signed_part val) [
      | none ↦ none
      | some (sign, magnitude) ↦
          some (write (number (base_of cur) (cur == b'X') magnitude) (write sign w))
    ]
    else some (write (number (base_of cur) (cur == b'X') val) w)

number_directive : ℕ → ℕ → Writer → List Arg → Option Writer
unfolding write_number
number_directive cur length w [] = none
number_directive cur length w (num val ∷ args) =
    write_number cur (read_arg length val) (
      write (if cur == b'p' then b'0' ∷ b'x' ∷ [] else [])
        (record w { length = none; args = args }))
number_directive cur length w (str s ∷ args) = none
number_directive cur length w (slot ∷ args) = none

string_directive : Writer → List Arg → Option Writer
unfolding write
string_directive w [] = none
string_directive w (num val ∷ args) = none
string_directive w (str s ∷ args) = some (write s (record w { length = none; args = args }))
string_directive w (slot ∷ args) = none

slot_directive : Writer → List Arg → Option Writer
slot_directive w [] = none
slot_directive w (num val ∷ args) = none
slot_directive w (str s ∷ args) = none
slot_directive w (slot ∷ args) =
    some (record w { length = none; args = args; slots = w.written ∷ w.slots })

abbrev pub is_number : ℕ → Bool
is_number cur =
    (cur == b'p' || (cur == b'x' || cur == b'X')) || ((cur == b'o' || cur == b'u') || is_signed cur)

-- The switch; a character with no case is passed over.
pub directive : ℕ → ℕ → Writer → Option Writer
unfolding number_directive string_directive slot_directive write
directive cur length w =
    if cur == b'%'
    then some (write (b'%' ∷ []) (record w { length = none }))
    else if cur == b'n'
    then slot_directive w w.args
    else if cur == b'l'
    then some (record w { length = some (if leb 2 length then 2 else length + 1) })
    else if is_number cur
    then number_directive cur length w w.args
    else if cur == b's'
    then string_directive w w.args
    else some (record w { length = none })

pub step : ℕ → Writer → Option ℕ → Option Writer
unfolding directive write
step cur w none =
    if cur == b'%' then some (record w { length = some 0 }) else some (write (cur ∷ []) w)
step cur w (some length) = directive cur length w

-- Stream::writef over the rest of the format; in a directive the terminator is passed over, too.
pub writef : List ℕ → Writer → Option Writer
unfolding step
writef [] w = elim w.length [ none ↦ some w | some length ↦ none ]
writef (cur ∷ fmt) w = elim (step cur w w.length) [ none ↦ none | some w' ↦ writef fmt w' ]

abbrev pub writer : List Arg → Writer
writer args = record { length = none; args = args; out = []; written = 0; slots = [] }
