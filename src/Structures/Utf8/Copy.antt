-- ===== src/Structures/Utf8/Copy.antt =====
-- What the copies of src/structures/utf8.cpp hold: substr and operator+.
use cantos.Prelude.{
  ℕ, zero, suc, ◌+◌, ◌-◌, ◌≤◌, ◌<◌, ◌≡◌, refl, sym, ap, ◌∙◌, inl, inr, false, List, [], ◌∷◌, ◌++◌,
  some, ltb, if◌then◌else◌, length, length-append, arith, Option-cases, sub32, u32_mod,
}
use mathlib.Core.List.{append-nil}
use cantos.Structures.Utf8.{Utf8, bytes, char_at, copy, substr, concat, chars}

copy_cons : (n c i : ℕ) (xs : List ℕ) → copy n (c ∷ xs) (suc i) ≡ copy n xs i
unfolding copy char_at
copy_cons zero c i xs = refl
copy_cons (suc n) c i xs = elim (Option-cases (char_at xs i)) [
  | inl behind ↦ rw (behind, copy) refl
  | inr (d, here) ↦ rw (here, copy) (rw (copy_cons n c (suc i) xs) refl)
]

-- The copy of a middle part.
copy_middle :
    (front part back : List ℕ)
    → copy (length part) (front ++ (part ++ back)) (length front) ≡ some part
unfolding copy char_at
copy_middle [] [] back = refl
copy_middle [] (c ∷ part) back =
    rw (copy_cons (length part) c 0 (part ++ back), copy_middle [] part back) refl
copy_middle (f ∷ front) part back =
    copy_cons (length part) f (length front) (front ++ (part ++ back)) ∙ copy_middle front part back

pub copy_parts :
    {n at : ℕ} {text : List ℕ} (front part back : List ℕ)
    → text ≡ front ++ (part ++ back)
    → length part ≡ n
    → length front ≡ at
    → copy n text at ≡ some part
copy_parts front part back whole size long =
    rw (whole, ← size, ← long) (copy_middle front part back)

split_at :
    (n : ℕ) (xs : List ℕ)
    → n ≤ length xs
    → (front rest : List ℕ) × (xs ≡ front ++ rest) × (length front ≡ n)
split_at zero xs h = ([], xs, refl, refl)
split_at (suc n) [] h = absurd (omega arith)
split_at (suc n) (x ∷ xs) h =
    let (front, rest, same, long) = split_at n xs (omega arith) in
    (x ∷ front, rest, ap (λ ys. x ∷ ys) same, ap suc long)

-- substr from a place inside a string whose length fits 32 bits returns the part of its text from
-- there on, of the length that was asked for or up to the end, whichever is shorter.
pub substr_lem :
    (buffer at len : ℕ) (a : Utf8)
    → at ≤ bytes a
    → bytes a < u32_mod
    → (front part back : List ℕ) × (a.text ≡ front ++ (part ++ back))
      × (length front ≡ at)
      × (length part ≡ (if ltb (bytes a - at) len then bytes a - at else len))
      × (substr buffer a at len ≡ some (record { string = buffer; text = part }))
unfolding substr
substr_lem buffer at len a inside fits =
    let room : sub32 (bytes a) at ≡ bytes a - at = omega arith in
    let n : ℕ = if ltb (bytes a - at) len then bytes a - at else len in
    let (front, rest, whole, long) = split_at at a.text inside in
    let total : length front + length rest ≡ bytes a =
      sym (length-append front rest) ∙ sym (ap length whole) in
    let (part, back, middle, size) = split_at n rest (ground arith) in
    let text : a.text ≡ front ++ (part ++ back) = whole ∙ ap (λ r. front ++ r) middle in
    let run : copy n a.text at ≡ some part = copy_parts front part back text size long in
    (front, part, back, text, long, size, rw (room, run) refl)

-- operator+ of two strings whose lengths fit 32 bits with the terminator returns a string out of
-- which substr gets both of them back.
pub concat-substr :
    (buffer other : ℕ) (a b : Utf8)
    → bytes a + bytes b < u32_mod - 1
    → (c : Utf8) × (concat buffer a b ≡ some c)
      × (substr other c 0 (bytes a) ≡ some (record { string = other; text = a.text }))
      × (substr other c (bytes a) (bytes b) ≡ some (record { string = other; text = b.text }))
unfolding substr concat
concat-substr buffer other a b fits =
    let first : copy (bytes a) (a.text ++ b.text) 0 ≡ some a.text = copy_middle [] a.text b.text in
    let second : copy (bytes b) (a.text ++ b.text) (bytes a) ≡ some b.text =
      rw (append-nil b.text) at (copy_middle a.text b.text []) in
    let own_first : copy (bytes a) a.text 0 ≡ some a.text =
      rw (append-nil a.text) at (copy_middle [] a.text []) in
    let own_second : copy (bytes b) b.text 0 ≡ some b.text =
      rw (append-nil b.text) at (copy_middle [] b.text []) in
    let long : length (a.text ++ b.text) ≡ bytes a + bytes b = length-append a.text b.text in
    let over_a : ltb (sub32 (u32_mod - 2) (bytes b)) (bytes a) ≡ false = ground arith in
    let over_b : ltb (sub32 (u32_mod - 2) (bytes a)) (bytes b) ≡ false = ground arith in
    let room_a : ltb (sub32 (bytes a + bytes b) 0) (bytes a) ≡ false = ground arith in
    let room_b : ltb (sub32 (bytes a + bytes b) (bytes a)) (bytes b) ≡ false = ground arith in
    (
      record { string = buffer; text = a.text ++ b.text },
      rw (over_a, over_b, own_first, own_second) refl,
      rw (long, room_a, first) refl,
      rw (long, room_b, second) refl,
    )

-- The letters and the signs from 0x40 on, among ASCII characters.
abbrev pub upper_half : List ℕ → ℕ
upper_half [] = 0
upper_half (c ∷ cs) = if ltb c 0x40 then upper_half cs else suc (upper_half cs)

abbrev pub IsAscii : List ℕ → Type 0
IsAscii [] = Unit {0}
IsAscii (c ∷ cs) = (0 < c) × (c < 0x80) × IsAscii cs

-- On an ASCII text, Utf8::chars returns the number of its bytes and, on top, that of its bytes
-- from 0x40 on: it counts each letter twice.
pub chars_lem : (cs : List ℕ) → IsAscii cs → chars cs ≡ length cs + upper_half cs
unfolding chars
chars_lem [] t = refl
chars_lem (c ∷ cs) t = ground (arith, chars_lem cs t.2)
