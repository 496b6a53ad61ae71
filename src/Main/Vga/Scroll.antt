-- ===== src/Main/Vga/Scroll.antt =====
-- What the terminal of src/main/vga.cpp shows behind an output, and the bounds of its writes.
use cantos.Prelude.{
  ℕ, zero, suc, ◌+◌, ◌-◌, ◌*◌, ◌/◌, ◌≤◌, ◌<◌, ◌≡◌, refl, ap, ◌∙◌, ◌⊎◌, inl, inr, true, leb, ltb,
  ◌&&◌, if◌then◌else◌, arith, tests, Bool-cases,
}
use native.Mathlib.Decide.{ℕ_discrete}
use cantos.Main.Vga.{
  Terminal, width, height, store, move_up, clear_row, scroll, maybe_wrap, advance, place, append,
}

-- The cursor is on the screen.
abbrev pub IsInside : Terminal → Type 0
IsInside t = (t.terminal_row < height) × (t.terminal_column < width)

move_up_lem :
    (n i : ℕ) (cells : ℕ → ℕ) (j : ℕ)
    → width ≤ i
    → move_up n i cells j
      ≡ (if leb (i - width) j && ltb j (i - width + n) then cells (j + width) else cells j)
unfolding move_up
move_up_lem zero i cells j h = ground arith
move_up_lem (suc n) i cells j h =
    move_up_lem n (suc i) (store cells (i - width) (cells i)) j (omega arith)
    ∙ (elim (ℕ_discrete j (i - width)) [
      | yes here ↦
          let same : cells i ≡ cells (j + width) = ap cells (omega arith) in ground (arith, same)
      | no there ↦ ground arith
    ])

clear_row_lem :
    (n i colour : ℕ) (cells : ℕ → ℕ) (j : ℕ)
    → clear_row n i colour cells j ≡ (if leb i j && ltb j (i + n) then colour else cells j)
unfolding clear_row
clear_row_lem zero i colour cells j = ground arith
clear_row_lem (suc n) i colour cells j =
    clear_row_lem n (suc i) colour (store cells i colour) j ∙ ground arith

-- What one scroll of the screen shows in the cell `j` of the memory.
abbrev pub scrolled : ℕ → (ℕ → ℕ) → ℕ → ℕ
scrolled colour cells j =
    if ltb j ((height - 1) * width)
    then cells (j + width)
    else if ltb j (height * width)
    then colour / 256 * 256
    else cells j

-- The cleared row below the cells that moved up.
cleared :
    (k : ℕ) (moved cells : ℕ → ℕ) (j : ℕ)
    → moved j ≡ (if leb 0 j && ltb j 1920 then cells (j + 80) else cells j)
    → (if leb 1920 j && ltb j 2000 then k else moved j)
      ≡ (if ltb j 1920 then cells (j + 80) else if ltb j 2000 then k else cells j)
cleared k moved cells j up = ground (arith, up)

-- Behind a scroll, each row but the last shows what the row below it showed, and the last one is blank
-- in the colour of the character that was written; the memory behind the screen keeps its values.
pub scroll_lem : (c : ℕ) (cells : ℕ → ℕ) (j : ℕ) → scroll c cells j ≡ scrolled c cells j
unfolding scroll
scroll_lem c cells j =
    clear_row_lem width ((height - 1) * width) (c / 256 * 256)
      (move_up (height * width - width) width cells) j
    ∙ cleared (c / 256 * 256) (move_up (height * width - width) width cells) cells j
        (move_up_lem (height * width - width) width cells j (omega arith))

-- _maybe_wrap scrolls the screen by one row if the cursor has left it at the bottom.
maybe_wrap_lem :
    (c : ℕ) (t : Terminal) (j : ℕ)
    → (maybe_wrap c t).terminal_buffer j
      ≡ (if leb height t.terminal_row then scrolled c t.terminal_buffer j else t.terminal_buffer j)
unfolding maybe_wrap
maybe_wrap_lem c t j = elim (Bool-cases (leb height t.terminal_row)) [
  | inl below ↦ rw below (scroll_lem c t.terminal_buffer j)
  | inr on_screen ↦ rw on_screen refl
]

maybe_wrap-IsInside :
    (c : ℕ) (t : Terminal)
    → t.terminal_row ≤ height
    → t.terminal_column < width
    → IsInside (maybe_wrap c t)
unfolding maybe_wrap
maybe_wrap-IsInside c t r l = elim (Bool-cases (leb height t.terminal_row)) [
  | inl below ↦ rw below (omega arith, l)
  | inr on_screen ↦ rw on_screen (omega tests, l)
]

place-row :
    (c : ℕ) (t : Terminal)
    → IsInside t
    → ((place c t).terminal_row ≤ height) × ((place c t).terminal_column < width)
unfolding place advance
place-row c t h = ground arith

place_outside :
    (c : ℕ) (t : Terminal) (j : ℕ)
    → IsInside t
    → height * width ≤ j
    → (place c t).terminal_buffer j ≡ t.terminal_buffer j
unfolding place advance
place_outside c t j h p = ground arith

pub append_on : (c : ℕ) (t : Terminal) → t.installed ≡ true → append c t ≡ maybe_wrap c (place c t)
unfolding append
append_on c t on = simp on refl

append-cases : (c : ℕ) (t : Terminal) → (append c t ≡ maybe_wrap c (place c t)) ⊎ (append c t ≡ t)
unfolding append
append-cases c t = elim (Bool-cases t.installed) [
  | inl on ↦ inl (append_on c t on)
  | inr off ↦ inr (simp off refl)
]

-- With the cursor on the screen, _append leaves it there, scrolling if need be, and writes no cell
-- outside the screen, whatever the character is.
pub append-IsInside :
    (c : ℕ) (t : Terminal)
    → IsInside t
    → IsInside (append c t)
      × ((j : ℕ) → height * width ≤ j → (append c t).terminal_buffer j ≡ t.terminal_buffer j)
append-IsInside c t h = elim (append-cases c t) [
  | inl on ↦
      let (r, l) = place-row c t h in
      rw on (
        maybe_wrap-IsInside c (place c t) r l,
        λ j p.
            maybe_wrap_lem c (place c t) j
            ∙ (let kept = place_outside c t j h p in ground (arith, kept)),
      )
  | inr off ↦ rw off (h, λ j p. refl)
]
