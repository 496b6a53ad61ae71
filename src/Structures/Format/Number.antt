-- ===== src/Structures/Format/Number.antt =====
-- The digits that src/structures/stream.cpp writes stand for the number.
use cantos.Prelude.{
  ℕ, zero, suc, ◌+◌, ◌-◌, ◌*◌, ◌/◌, ◌%◌, ◌^◌, ◌≤◌, ◌<◌, ◌≡◌, refl, ◌∙◌, ap, ◌≢◌, ◌⊎◌, inl, inr,
  Bool, List, [], ◌∷◌, ltb, ◌==◌, if◌then◌else◌, arith, tests, Bool-cases, length,
}
use cantos.Structures.Format.{base_of}
use native.Mathlib.Nat.{div-add-mod, mod-lt, mul-le-mul_left}
use cantos.Structures.Format.{num_to_str, fill, strip, number, num_buffer_size}

-- The value of a digit, and of a row of digits that follows a number.
pub digit_value : ℕ → ℕ
digit_value c = if ltb c 58 then c - 48 else if ltb c 91 then c - 55 else c - 87

pub value_from : ℕ → ℕ → List ℕ → ℕ
value_from base n [] = n
value_from base n (c ∷ cs) = value_from base (n * base + digit_value c) cs

abbrev pub value : ℕ → List ℕ → ℕ
value base cs = value_from base 0 cs

digit_value-num_to_str : (d : ℕ) (u : Bool) → d < 16 → digit_value (num_to_str d u) ≡ d
unfolding digit_value num_to_str
digit_value-num_to_str d u h = ground arith

-- base ^ n times q, by the rounds of the loop.
scale : ℕ → ℕ → ℕ → ℕ
scale zero base q = q
scale (suc n) base q = base * scale n base q

-- What `n` rounds write in front of a buffer is a number from which `v` differs by a multiple of
-- base ^ n.
fill_lem :
    (n base : ℕ) (u : Bool) (v : ℕ) (buffer : List ℕ)
    → 0 < base
    → base ≤ 16
    → (w q : ℕ) × (value_from base 0 (fill n base u v buffer) ≡ value_from base w buffer)
      × (w + scale n base q ≡ v)
      × (w < scale n base 1)
unfolding fill value_from scale
fill_lem zero base u v buffer pos small = (0, v, refl, omega arith, omega arith)
fill_lem (suc n) base u v buffer pos small =
    let (w, q, same, parts, bound) =
      fill_lem n base u (v / base) (num_to_str (v % base) u ∷ buffer) pos small in
    let digit = digit_value-num_to_str (v % base) u (omega (arith, mod-lt v pos)) in
    (
      w * base + v % base,
      q,
      same ∙ ap (λ d. value_from base (w * base + d) buffer) digit,
      omega (arith, ap (λ t. base * t) parts, div-add-mod v base),
      omega (arith, mul-le-mul_left base bound, mod-lt v pos),
    )

length-fill :
    (n base : ℕ) (u : Bool) (v : ℕ) (buffer : List ℕ)
    → length (fill n base u v buffer) ≡ n + length buffer
unfolding fill
length-fill zero base u v buffer = omega arith
length-fill (suc n) base u v buffer =
    length-fill n base u (v / base) (num_to_str (v % base) u ∷ buffer) ∙ omega arith

-- Zeros in front add nothing.
value-strip : (base : ℕ) (cs : List ℕ) → value base (strip cs) ≡ value base cs
unfolding strip value_from digit_value
value-strip base [] = refl
value-strip base (c ∷ []) = refl
value-strip base (c ∷ d ∷ ds) = elim (Bool-cases (c == b'0')) [
  | inl zeros ↦
      rw zeros (value-strip base (d ∷ ds) ∙ ap (λ n. value_from base n (d ∷ ds)) (ground arith))
  | inr digit ↦ rw digit
]

-- One digit, or a first digit that is no zero.
abbrev pub IsShort : List ℕ → Type 0
IsShort [] = ⊥
IsShort (c ∷ []) = Unit {0}
IsShort (c ∷ d ∷ ds) = c ≢ b'0'

strip-IsShort : (cs : List ℕ) → 0 < length cs → IsShort (strip cs)
unfolding strip
strip-IsShort [] h = absurd (omega arith)
strip-IsShort (c ∷ []) h = tt
strip-IsShort (c ∷ d ∷ ds) h = elim (Bool-cases (c == b'0')) [
  | inl zeros ↦ rw zeros (strip-IsShort (d ∷ ds) (omega arith))
  | inr digit ↦ rw digit (omega (tests, digit))
]

number_parts :
    (base : ℕ) (u : Bool) (v : ℕ)
    → 0 < base
    → base ≤ 16
    → (q : ℕ) × (value base (number base u v) + scale num_buffer_size base q ≡ v)
      × (value base (number base u v) < scale num_buffer_size base 1)
      × IsShort (number base u v)
unfolding number value_from
number_parts base u v pos small =
    let (w, q, same, parts, bound) = fill_lem num_buffer_size base u v [] pos small in
    let digits = value-strip base (fill num_buffer_size base u v []) ∙ same in
    (
      q,
      rw digits parts,
      rw digits bound,
      strip-IsShort (fill num_buffer_size base u v [])
          (omega (arith, length-fill num_buffer_size base u v [])),
    )

base_cases : (cur : ℕ) → (base_of cur ≡ 16) ⊎ ((base_of cur ≡ 8) ⊎ (base_of cur ≡ 10))
base_cases cur = ground arith

-- The digits that are written in base 8, 10 or 16 stand for the number modulo base ^ 20, with no
-- zero in front of another digit. So decimal and hexadecimal are exact on 64 bits, and octal is
-- not from 8 ^ 20 on.
pub number_lem :
    (cur : ℕ) (u : Bool) (v : ℕ)
    → (value (base_of cur) (number (base_of cur) u v) ≡ v % base_of cur ^ 20)
      × IsShort (number (base_of cur) u v)
unfolding scale
number_lem cur u v = elim (base_cases cur) [
  | inl hex ↦ rw hex (
      let (q, e, l, short) = number_parts 16 u v (omega arith) (omega arith) in
      (omega (arith, e, l), short))
  | inr (inl oct) ↦ rw oct (
      let (q, e, l, short) = number_parts 8 u v (omega arith) (omega arith) in
      (omega (arith, e, l), short))
  | inr (inr dec) ↦ rw dec (
      let (q, e, l, short) = number_parts 10 u v (omega arith) (omega arith) in
      (omega (arith, e, l), short))
]
