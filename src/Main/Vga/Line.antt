-- ===== src/Main/Vga/Line.antt =====
-- What the streams of src/main/vga.cpp put on the screen.
use cantos.Prelude.{
  ℕ, suc, ◌+◌, ◌-◌, ◌*◌, ◌%◌, ◌≤◌, ◌<◌, ◌≡◌, ◌≢◌, refl, ap, ◌∙◌, inl, inr, Bool-cases, true, false,
  List, [], ◌∷◌, leb, ltb, ◌&&◌, ◌==◌, if◌then◌else◌, arith, tests, length, get_or,
}
use native.Mathlib.Decide.{ℕ_discrete}
use cantos.Main.Vga.{
  Terminal, width, height, store, put_at, maybe_wrap, advance, place, append, write, write_string,
  add_colour,
}
use cantos.Main.Vga.Scroll.{IsInside, append_on, append-IsInside}

-- With the cursor on the screen before an output to either stream, it is there behind it, and no
-- cell outside the screen has been written.
pub write-IsInside :
    (colour : ℕ) (cs : List ℕ) (t : Terminal)
    → IsInside t
    → (IsInside (write cs t)
        × ((j : ℕ) → height * width ≤ j → (write cs t).terminal_buffer j ≡ t.terminal_buffer j))
      × (IsInside (write_string colour cs t)
          × ((j : ℕ)
              → height * width ≤ j
              → (write_string colour cs t).terminal_buffer j ≡ t.terminal_buffer j))
unfolding write write_string
write-IsInside colour [] t h = ((h, λ j p. refl), (h, λ j p. refl))
write-IsInside colour (c ∷ cs) t h =
    let plain = append-IsInside c t h in
    let coloured = append-IsInside (add_colour c colour) t h in
    let rest = write-IsInside colour cs (append c t) plain.0 in
    let rest' = write-IsInside colour cs (append (add_colour c colour) t) coloured.0 in
    (
      (rest.0.0, λ j p. rest.0.1 j p ∙ plain.1 j p),
      (rest'.1.0, λ j p. rest'.1.1 j p ∙ coloured.1 j p),
    )

-- No newline among the characters.
abbrev pub IsLine : List ℕ → Type 0
IsLine [] = Unit {0}
IsLine (c ∷ cs) = (c % 256 ≢ b'\n') × IsLine cs

-- The terminal with one more character in the line.
abbrev typed : ℕ → Terminal → Terminal
typed c t = record t {
  terminal_column = t.terminal_column + 1;
  terminal_buffer = put_at c t.terminal_column t.terminal_row t.terminal_buffer;
}

place-typed :
    (c : ℕ) (t : Terminal) → c % 256 ≢ b'\n' → t.terminal_column + 1 < width → place c t ≡ typed c t
unfolding place advance
place-typed c t text room =
    let no_newline : (c % 256 == b'\n') ≡ false = ground arith in
    let no_wrap : leb width (t.terminal_column + 1) ≡ false = ground arith in
    rw (no_newline, no_wrap) refl

append-typed :
    (c : ℕ) (t : Terminal)
    → t.installed ≡ true
    → c % 256 ≢ b'\n'
    → t.terminal_row < height
    → t.terminal_column + 1 < width
    → append c t ≡ typed c t
unfolding maybe_wrap
append-typed c t on text row room =
    let no_scroll : leb height t.terminal_row ≡ false = ground arith in
    let stays : maybe_wrap c (typed c t) ≡ typed c t = rw no_scroll refl in
    append_on c t on ∙ ap (maybe_wrap c) (place-typed c t text room) ∙ stays

-- The start of a line of characters, as a cell.
abbrev pub cursor : Terminal → ℕ
cursor t = t.terminal_row * width + t.terminal_column

-- The cells of a line: those of its first character and of the rest.
get_or_line :
    (c : ℕ) (cs : List ℕ) (at n j : ℕ) (cells : ℕ → ℕ)
    → (if leb (at + 1) j && ltb j (at + 1 + n)
        then get_or cs (j - (at + 1)) 0
        else store cells at c j)
      ≡ (if leb at j && ltb j (at + suc n) then get_or (c ∷ cs) (j - at) 0 else cells j)
get_or_line c cs at n j cells = elim (ℕ_discrete j at) [
  | yes here ↦ let first : j - at ≡ 0 = omega arith in rw first (ground arith)
  | no other ↦ elim (Bool-cases (leb (at + 1) j)) [
    | inl behind ↦ let shift : j - at ≡ suc (j - (at + 1)) = omega tests in rw shift (ground arith)
    | inr before ↦ ground arith
  ]
]

-- Characters with no newline among them that leave a place in the row stand in its cells from the
-- cursor on; all other cells keep their values, and the cursor moves behind the characters.
pub write-shows :
    (cs : List ℕ) (t : Terminal)
    → t.installed ≡ true
    → t.terminal_row < height
    → t.terminal_column + length cs < width
    → IsLine cs
    → ((write cs t).terminal_row ≡ t.terminal_row)
      × ((write cs t).terminal_column ≡ t.terminal_column + length cs)
      × ((j : ℕ)
          → (write cs t).terminal_buffer j ≡ (
              if leb (cursor t) j && ltb j (cursor t + length cs)
              then get_or cs (j - cursor t) 0
              else t.terminal_buffer j))
unfolding write
write-shows [] t on row room text = (refl, omega arith, λ j. ground arith)
write-shows (c ∷ cs) t on row room (first, text) =
    let step = append-typed c t on first row (omega arith) in
    let (r, l, cells) = write-shows cs (typed c t) on row (omega arith) text in
    let next : cursor (typed c t) ≡ cursor t + 1 = omega arith in
    (
      ap (λ u. (write cs u).terminal_row) step ∙ r,
      ap (λ u. (write cs u).terminal_column) step ∙ l ∙ omega arith,
      λ j.
          ap (λ u. (write cs u).terminal_buffer j) step
          ∙ rw next at (cells j)
          ∙ get_or_line c cs (cursor t) (length cs) j t.terminal_buffer,
    )
