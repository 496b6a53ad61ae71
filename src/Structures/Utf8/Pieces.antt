-- ===== src/Structures/Utf8/Pieces.antt =====
-- find(c, pos) and substr of src/structures/utf8.cpp on a string that is cut in parts.
use cantos.Prelude.{
  ℕ, suc, ◌+◌, ◌-◌, ◌<◌, ◌≡◌, ◌≢◌, refl, sym, ap, ◌∙◌, true, false, List, [], ◌∷◌, ◌++◌, Option,
  none, some, ltb, ◌==◌, if◌then◌else◌, length, length-append, arith, sub32, u32_mod,
}
use native.Mathlib.Decide.{ℕ_discrete}
use mathlib.Core.List.{append-nil, append_assoc}
use cantos.Structures.Utf8.{Utf8, bytes, char_at, find_char_loop, find_char, copy, substr}
use cantos.Structures.Utf8.Copy.{copy_parts}

char_at_end : (front : List ℕ) → char_at front (length front) ≡ some 0
unfolding char_at
char_at_end [] = refl
char_at_end (c ∷ front) = char_at_end front

char_at_middle :
    (front : List ℕ) (c : ℕ) (cs : List ℕ) → char_at (front ++ (c ∷ cs)) (length front) ≡ some c
unfolding char_at
char_at_middle [] c cs = refl
char_at_middle (d ∷ front) c cs = char_at_middle front c cs

-- The first place of a byte in a list.
abbrev pub later : Option ℕ → Option ℕ
later none = none
later (some i) = some (suc i)

abbrev pub first_at : ℕ → List ℕ → Option ℕ
first_at c [] = none
first_at c (d ∷ ds) = if d == c then some 0 else later (first_at c ds)

abbrev pub behind : ℕ → Option ℕ → Option ℕ
behind at none = none
behind at (some i) = some (at + i)

behind_later : (at : ℕ) (o : Option ℕ) → behind (suc at) o ≡ behind at (later o)
behind_later at none = refl
behind_later at (some i) = ap some (omega arith)

find_char_loop_lem :
    (rest front text : List ℕ) (c : ℕ)
    → c ≢ 0
    → text ≡ front ++ rest
    → find_char_loop (suc (length rest)) text c (length front)
      ≡ some (behind (length front) (first_at c rest))
unfolding find_char_loop
find_char_loop_lem [] front text c not_zero whole =
    let same : text ≡ front = whole ∙ append-nil front in
    let other : (0 == c) ≡ false = ground arith in
    let end : char_at text (length front) ≡ some 0 =
      ap (λ t. char_at t (length front)) same ∙ char_at_end front in
    rw (end, find_char_loop, other) refl
find_char_loop_lem (d ∷ ds) front text c not_zero whole =
    let here : char_at text (length front) ≡ some d =
      ap (λ t. char_at t (length front)) whole ∙ char_at_middle front d ds in
    elim (ℕ_discrete d c) [
      | yes same ↦
          let hit : (d == c) ≡ true = ground arith in
          let at : length front + 0 ≡ length front = omega arith in
          rw (here, find_char_loop, hit, at) refl
      | no other ↦
          let miss : (d == c) ≡ false = ground arith in
          let moved : text ≡ (front ++ (d ∷ [])) ++ ds =
            whole ∙ sym (append_assoc front (d ∷ []) ds) in
          let long : length (front ++ (d ∷ [])) ≡ suc (length front) =
            omega (arith, length-append front (d ∷ [])) in
          let rest = rw long at (find_char_loop_lem ds (front ++ (d ∷ [])) text c not_zero moved) in
          rw (here, find_char_loop, miss)
            (rest ∙ ap some (behind_later (length front) (first_at c ds)))
    ]

-- find(c, pos) gives the first place of a byte from `pos` on; the byte is not the terminator.
pub find_char_lem :
    (a : Utf8) (front rest : List ℕ) (c : ℕ)
    → c ≢ 0
    → a.text ≡ front ++ rest
    → find_char a c (length front) ≡ some (behind (length front) (first_at c rest))
unfolding find_char
find_char_lem a front rest c not_zero whole =
    let total : bytes a ≡ length front + length rest = ap length whole ∙ length-append front rest in
    let rounds : bytes a + 1 - length front ≡ suc (length rest) = omega (arith, total) in
    rw rounds (find_char_loop_lem rest front a.text c not_zero whole)

-- substr gives the part of the string that it is asked for.
pub substr_part :
    (buffer len : ℕ) (a : Utf8) (front part back : List ℕ)
    → a.text ≡ front ++ (part ++ back)
    → bytes a < u32_mod
    → (if ltb (length part + length back) len then length part + length back else len) ≡ length part
    → substr buffer a (length front) len ≡ some (record { string = buffer; text = part })
unfolding substr
substr_part buffer len a front part back whole fits asked =
    let total : bytes a ≡ length front + (length part + length back) =
      ap length whole
      ∙ length-append front (part ++ back)
      ∙ ap (λ (n : ℕ). length front + n) (length-append part back) in
    let room : sub32 (bytes a) (length front) ≡ length part + length back =
      omega (arith, total, fits) in
    let run : copy (if ltb (length part + length back) len then length part + length back else len)
          a.text (length front)
        ≡ some part =
      copy_parts front part back whole (sym asked) refl in
    rw (room, run) refl
