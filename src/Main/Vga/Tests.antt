-- ===== src/Main/Vga/Tests.antt =====
-- Runs of src/main/vga.cpp, and its theorems there.
use cantos.Prelude.{
  ℕ, ◌+◌, ◌-◌, ◌*◌, ◌≤◌, ◌≡◌, refl, true, [], ◌∷◌, leb, ltb, ◌&&◌, if◌then◌else◌, get_or, arith,
}
use cantos.Main.Vga.{Terminal, width, height, write, write_string, scroll}
use cantos.Main.Vga.Scroll.{IsInside, scrolled, scroll_lem}
use cantos.Main.Vga.Line.{write-IsInside, write-shows, cursor}

-- The cursor is in the last cell of the screen.
abbrev corner : Terminal
corner = record {
  terminal_row = 24;
  terminal_column = 79;
  installed = true;
  terminal_buffer = λ j. j;
}

abbrev middle : Terminal
middle = record {
  terminal_row = 3;
  terminal_column = 5;
  installed = true;
  terminal_buffer = λ j. 0;
}

write-IsInside_example :
    (IsInside (write (72 ∷ 10 ∷ []) corner)
      × ((j : ℕ) → height * width ≤ j → (write (72 ∷ 10 ∷ []) corner).terminal_buffer j ≡ j))
    × (IsInside (write_string 7 (72 ∷ 10 ∷ []) corner)
        × ((j : ℕ)
            → height * width ≤ j
            → (write_string 7 (72 ∷ 10 ∷ []) corner).terminal_buffer j ≡ j))
write-IsInside_example = write-IsInside 7 (72 ∷ 10 ∷ []) corner (omega arith, omega arith)

scroll_lem_example : scroll 0x748 (λ j. j) 1930 ≡ scrolled 0x748 (λ j. j) 1930
scroll_lem_example = scroll_lem 0x748 (λ j. j) 1930

write-shows_example :
    ((write (72 ∷ 105 ∷ []) middle).terminal_row ≡ 3)
    × ((write (72 ∷ 105 ∷ []) middle).terminal_column ≡ 5 + 2)
    × ((j : ℕ)
        → (write (72 ∷ 105 ∷ []) middle).terminal_buffer j ≡ (
            if leb (cursor middle) j && ltb j (cursor middle + 2)
            then get_or (72 ∷ 105 ∷ []) (j - cursor middle) 0
            else 0))
write-shows_example =
    write-shows (72 ∷ 105 ∷ []) middle refl (omega arith) (omega arith)
      (ground arith, (ground arith, tt))
