-- ===== src/Main/Vga.antt =====
-- The text terminal of src/main/vga.cpp: 25 rows of 80 cells, a cursor, and the scrolling. The
-- buffer is the memory that terminal_buffer points to, as a function of the cell's number, so that
-- a write outside the screen is not hidden.
pub mod Scroll
pub mod Line
mod Tests
use cantos.Prelude.{
  ℕ, zero, suc, ◌+◌, ◌-◌, ◌*◌, ◌/◌, ◌%◌, Bool, true, false, List, [], ◌∷◌, leb, ◌==◌, if◌then◌else◌,
}

abbrev pub width : ℕ
width = 80

abbrev pub height : ℕ
height = 25

pub record Terminal : Type 0 where
  pub terminal_row : ℕ
  pub terminal_column : ℕ
  pub installed : Bool
  pub terminal_buffer : ℕ → ℕ

abbrev pub store : (ℕ → ℕ) → ℕ → ℕ → ℕ → ℕ
store cells i v j = if j == i then v else cells j

-- `uc | color << 8`, in 16 bits.
pub add_colour : ℕ → ℕ → ℕ
add_colour uc colour = uc % 256 + colour % 256 * 256

abbrev pub put_at : ℕ → ℕ → ℕ → (ℕ → ℕ) → ℕ → ℕ
put_at c x y cells = store cells (y * width + x) c

-- The loop that moves cells one row up: `n` cells from `i` on.
pub move_up : ℕ → ℕ → (ℕ → ℕ) → ℕ → ℕ
move_up zero i cells = cells
move_up (suc n) i cells = move_up n (suc i) (store cells (i - width) (cells i))

-- The loop that clears `n` cells from `i` on.
pub clear_row : ℕ → ℕ → ℕ → (ℕ → ℕ) → ℕ → ℕ
clear_row zero i colour cells = cells
clear_row (suc n) i colour cells = clear_row n (suc i) colour (store cells i colour)

-- The two loops of _maybe_wrap; `colour & 0xff00` of 16 bits.
pub scroll : ℕ → (ℕ → ℕ) → ℕ → ℕ
unfolding move_up clear_row
scroll colour cells =
    clear_row width ((height - 1) * width) (colour / 256 * 256)
      (move_up (height * width - width) width cells)

-- _maybe_wrap
pub maybe_wrap : ℕ → Terminal → Terminal
maybe_wrap colour t =
    if leb height t.terminal_row
    then (record t { terminal_buffer = scroll colour t.terminal_buffer; terminal_row = height - 1 })
    else t

-- The cursor behind a character that is no newline.
pub advance : Terminal → Terminal
advance t =
    if leb width (t.terminal_column + 1)
    then record t { terminal_column = 0; terminal_row = t.terminal_row + 1 }
    else record t { terminal_column = t.terminal_column + 1 }

-- _append up to the call of _maybe_wrap.
pub place : ℕ → Terminal → Terminal
unfolding advance
place c t =
    if c % 256 == b'\n'
    then record t { terminal_row = t.terminal_row + 1; terminal_column = 0 }
    else advance
        (record t { terminal_buffer = put_at c t.terminal_column t.terminal_row t.terminal_buffer })

-- _append, which does nothing before init.
pub append : ℕ → Terminal → Terminal
append c t = if t.installed then maybe_wrap c (place c t) else t

-- EntryStream::write
pub write : List ℕ → Terminal → Terminal
unfolding append
write [] t = t
write (c ∷ cs) t = write cs (append c t)

-- StringStream::write in one colour.
pub write_string : ℕ → List ℕ → Terminal → Terminal
unfolding append add_colour
write_string colour [] t = t
write_string colour (c ∷ cs) t = write_string colour cs (append (add_colour c colour) t)

-- The loops of init: a blank screen.
pub blank : ℕ → (ℕ → ℕ) → ℕ → ℕ
blank zero cells = cells
blank (suc n) cells = store (blank n cells) n b' '

pub init : (ℕ → ℕ) → Terminal
unfolding blank
init memory = record {
  terminal_row = 0;
  terminal_column = 0;
  installed = true;
  terminal_buffer = blank (height * width) memory;
}
