-- ===== src/Interrupts/Pic/Tests.antt =====
-- The masks of src/int/pic.cpp at the keyboard's request, and the theorem on them.
use cantos.Prelude.{◌≡◌, refl}
use cantos.Interrupts.Pic.{Pic, enable}

-- The masks that init writes.
abbrev at_start : Pic
at_start = record { master = 0xfb; slave = 0xff }

keyboard_on : (enable 1 at_start).master ≡ 0xf9
unfolding enable
keyboard_on = refl
