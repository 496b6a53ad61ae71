-- ===== src/Structures/Format/Strings.antt =====
-- Utf8::format of src/structures/utf8.cpp. It is writef of src/structures/stream.cpp once more, but
-- for an int in place of the unsigned long long, for %S, and for the bytes being kept in a vector.
-- A run ends in `none` where it would for writef.
pub mod Agrees
mod Tests
use cantos.Prelude.{
  ℕ, zero, suc, ◌+◌, ◌-◌, ◌/◌, ◌%◌, ◌^◌, Bool, true, false, ◌||◌, List, [], ◌∷◌, ◌++◌, Option, none,
  some, ltb, leb, ◌==◌, if◌then◌else◌, length, u32_mod,
}
use cantos.Structures.Format.{num_to_str, strip, num_buffer_size, base_of, is_signed, is_number}

-- A variadic argument.
pub data Value : Type 0 where
  number_value : ℕ → Value
  c_string : List ℕ → Value
  utf8_string : List ℕ → Value
  slot_value : Value

pub record Formatter : Type 0 where
  pub length : Option ℕ
  pub args : List Value
  pub out : List ℕ
  pub slots : List ℕ

abbrev pub push_back : List ℕ → Formatter → Formatter
push_back bytes f = record f { out = f.out ++ bytes }

-- An int, as whether it is negative and its magnitude, of any argument's low 32 bits.
abbrev pub int_of : ℕ → Bool × ℕ
int_of val =
    let low = val % u32_mod in if ltb low (2 ^ 31) then (false, low) else (true, u32_mod - low)

-- The loop that fills the buffer. Division rounds towards zero, and a negative remainder wraps
-- around in the uint8_t that num_to_str takes.
pub int_fill : ℕ → ℕ → Bool → Bool → ℕ → List ℕ → List ℕ
unfolding num_to_str
int_fill zero base uppercase negative val buffer = buffer
int_fill (suc n) base uppercase negative val buffer =
    let digit = if negative then (256 - val % base) % 256 else val % base in
    int_fill n base uppercase negative (val / base) (num_to_str digit uppercase ∷ buffer)

pub int_number : ℕ → Bool → Bool × ℕ → List ℕ
unfolding int_fill strip
int_number base uppercase val = strip (int_fill num_buffer_size base uppercase val.0 val.1 [])

-- The sign of %d and %i: the lowest int cannot be negated.
pub push_number : ℕ → Bool × ℕ → Formatter → Option Formatter
unfolding int_number
push_number cur val f =
    if is_signed cur
    then if val.0
      then if val.1 == 2 ^ 31
        then none
        else some (
            push_back (int_number (base_of cur) (cur == b'X') (false, val.1))
              (push_back (b'-' ∷ []) f))
      else some (push_back (int_number (base_of cur) (cur == b'X') val) f)
    else some (push_back (int_number (base_of cur) (cur == b'X') val) f)

pub push_argument : ℕ → Formatter → List Value → Option Formatter
unfolding push_number
push_argument cur f [] = none
push_argument cur f (number_value val ∷ args) =
    if is_number cur
    then push_number cur (int_of val) (
        push_back (if cur == b'p' then b'0' ∷ b'x' ∷ [] else [])
          (record f { length = none; args = args }))
    else none
push_argument cur f (c_string s ∷ args) =
    if cur == b's' then some (push_back s (record f { length = none; args = args })) else none
push_argument cur f (utf8_string s ∷ args) =
    if cur == b'S' then some (push_back s (record f { length = none; args = args })) else none
push_argument cur f (slot_value ∷ args) =
    if cur == b'n'
    then some (record f { length = none; args = args; slots = length f.out ∷ f.slots })
    else none

-- The switch; a character with no case is passed over.
pub format_directive : ℕ → ℕ → Formatter → Option Formatter
unfolding push_argument
format_directive cur length f =
    if cur == b'%'
    then some (push_back (b'%' ∷ []) (record f { length = none }))
    else if cur == b'l'
    then some (record f { length = some (if leb 2 length then 2 else length + 1) })
    else if (cur == b'n') || ((cur == b's') || ((cur == b'S') || is_number cur))
    then push_argument cur f f.args
    else some (record f { length = none })

pub format_step : ℕ → Formatter → Option ℕ → Option Formatter
unfolding format_directive
format_step cur f none =
    if cur == b'%' then some (record f { length = some 0 }) else some (push_back (cur ∷ []) f)
format_step cur f (some length) = format_directive cur length f

-- The loop over the rest of the format.
pub format_from : List ℕ → Formatter → Option Formatter
unfolding format_step
format_from [] f = elim f.length [ none ↦ some f | some length ↦ none ]
format_from (cur ∷ fmt) f = elim (format_step cur f f.length) [
  | none ↦ none
  | some f' ↦ format_from fmt f'
]

-- Utf8::format.
pub format : List ℕ → List Value → Option (List ℕ)
unfolding format_from
format fmt args =
    elim (format_from fmt (record { length = none; args = args; out = []; slots = [] })) [
      | none ↦ none
      | some f ↦ some f.out
    ]
