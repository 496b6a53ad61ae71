-- ===== src/Structures/Format/Count.antt =====
-- What Stream::writef of src/structures/stream.cpp counts, and plain text.
use cantos.Prelude.{
  ℕ, ◌≡◌, ◌≢◌, refl, ◌∙◌, ap, inl, inr, false, List, [], ◌∷◌, ◌++◌, Option, none, some, ◌==◌, arith,
  Bool-cases, Option-cases, length, length-append,
}
use mathlib.Core.List.{append-nil, append_assoc}
use cantos.Structures.Format.{
  Arg, num, str, slot, Writer, write, is_signed, signed_part, write_number, read_arg,
  number_directive, string_directive, slot_directive, directive, step, writef,
}

-- The count of a writer is the number of bytes that it wrote.
abbrev pub Counts : Writer → Type 0
Counts w = w.written ≡ length w.out

abbrev CountsAll : Option Writer → Type 0
CountsAll none = Unit {0}
CountsAll (some w) = Counts w

write-Counts : (bytes : List ℕ) (w : Writer) → Counts w → Counts (write bytes w)
unfolding write
write-Counts bytes w h = omega (arith, length-append w.out bytes)

write_number-Counts : (cur val : ℕ) (w : Writer) → Counts w → CountsAll (write_number cur val w)
unfolding write_number
write_number-Counts cur val w h = elim (Bool-cases (is_signed cur)) [
  | inr plain ↦ rw plain (write-Counts _ w h)
  | inl signed ↦ elim (Option-cases (signed_part val)) [
    | inl lost ↦ rw (signed, lost) tt
    | inr ((sign, rest), found) ↦
        rw (signed, found) (write-Counts _ (write sign w) (write-Counts sign w h))
  ]
]

number_directive-Counts :
    (cur n : ℕ) (w : Writer) (args : List Arg)
    → Counts w
    → CountsAll (number_directive cur n w args)
unfolding number_directive
number_directive-Counts cur n w [] h = tt
number_directive-Counts cur n w (num val ∷ args) h =
    write_number-Counts cur (read_arg n val) _
      (write-Counts _ (record w { length = none; args = args }) h)
number_directive-Counts cur n w (str s ∷ args) h = tt
number_directive-Counts cur n w (slot ∷ args) h = tt

string_directive-Counts :
    (w : Writer) (args : List Arg) → Counts w → CountsAll (string_directive w args)
unfolding string_directive
string_directive-Counts w [] h = tt
string_directive-Counts w (num val ∷ args) h = tt
string_directive-Counts w (str s ∷ args) h =
    write-Counts s (record w { length = none; args = args }) h
string_directive-Counts w (slot ∷ args) h = tt

slot_directive-Counts :
    (w : Writer) (args : List Arg) → Counts w → CountsAll (slot_directive w args)
unfolding slot_directive
slot_directive-Counts w [] h = tt
slot_directive-Counts w (num val ∷ args) h = tt
slot_directive-Counts w (str s ∷ args) h = tt
slot_directive-Counts w (slot ∷ args) h = h

step-Counts : (cur : ℕ) (w : Writer) (mode : Option ℕ) → Counts w → CountsAll (step cur w mode)
unfolding step directive
step-Counts cur w none h = ground (arith, write-Counts (cur ∷ []) w h)
step-Counts cur w (some n) h = ground (
  arith,
  write-Counts (b'%' ∷ []) (record w { length = none }) h,
  number_directive-Counts cur n w w.args h,
  string_directive-Counts w w.args h,
  slot_directive-Counts w w.args h,
)

-- Whatever the format and the arguments are, what writef counts (and %n stores) is the number of
-- the bytes that it wrote, where its run is defined.
pub writef-Counts :
    (fmt : List ℕ) (w : Writer) {w' : Writer} → Counts w → writef fmt w ≡ some w' → Counts w'
unfolding writef
writef-Counts [] w h run = ground arith
writef-Counts (cur ∷ fmt) w {w'} h run = elim (Option-cases (step cur w w.length)) [
  | inl stopped ↦ absurd (ground arith)
  | inr (v, went) ↦
      writef-Counts fmt v {w' = w'} (rw went at (step-Counts cur w w.length h)) (ground arith)
]

-- Text with no percent sign.
abbrev pub IsPlain : List ℕ → Type 0
IsPlain [] = Unit {0}
IsPlain (c ∷ cs) = (c ≢ b'%') × IsPlain cs

write-write : (c : ℕ) (cs : List ℕ) (w : Writer) → write cs (write (c ∷ []) w) ≡ write (c ∷ cs) w
unfolding write
write-write c cs w = ground (arith, append_assoc w.out (c ∷ []) cs)

write_nil : (w : Writer) → w ≡ write [] w
unfolding write
write_nil w = ground (arith, append-nil w.out)

write-length : (bytes : List ℕ) (w : Writer) → (write bytes w).length ≡ w.length
unfolding write
write-length bytes w = refl

step-plain : (c : ℕ) (w : Writer) → c ≢ b'%' → step c w none ≡ some (write (c ∷ []) w)
unfolding step
step-plain c w h = let text : (c == b'%') ≡ false = ground arith in rw text

writef-step :
    (c : ℕ) (fmt : List ℕ) (w : Writer) {v : Writer}
    → step c w w.length ≡ some v
    → writef (c ∷ fmt) w ≡ writef fmt v
unfolding writef
writef-step c fmt w went = rw (went, writef) refl

-- Plain text in front of a format is written as it stands, and the rest is formatted behind it.
pub writef-plain :
    (text fmt : List ℕ) (w : Writer)
    → IsPlain text
    → w.length ≡ none
    → writef (text ++ fmt) w ≡ writef fmt (write text w)
writef-plain [] fmt w plain outside = ap (writef fmt) (write_nil w)
writef-plain (c ∷ cs) fmt w plain outside =
    writef-step c (cs ++ fmt) w (ap (step c w) outside ∙ step-plain c w plain.0)
    ∙ writef-plain cs fmt (write (c ∷ []) w) plain.1 (write-length (c ∷ []) w ∙ outside)
    ∙ ap (writef fmt) (write-write c cs w)
