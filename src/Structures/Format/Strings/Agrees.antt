-- ===== src/Structures/Format/Strings/Agrees.antt =====
-- Where Utf8::format of src/structures/utf8.cpp does what writef of src/structures/stream.cpp does.
use cantos.Prelude.{ℕ, zero, suc, ◌/◌, ◌%◌, ◌≡◌, refl, ap, Bool, false, List, [], ◌∷◌}
use cantos.Structures.Format.{fill, strip, number, num_to_str, num_buffer_size}
use cantos.Structures.Format.Strings.{int_fill, int_number}

int_fill-fill :
    (n base : ℕ) (u : Bool) (v : ℕ) (buffer : List ℕ)
    → int_fill n base u false v buffer ≡ fill n base u v buffer
unfolding int_fill fill
int_fill-fill zero base u v buffer = refl
int_fill-fill (suc n) base u v buffer =
    int_fill-fill n base u (v / base) (num_to_str (v % base) u ∷ buffer)

-- The digits that Utf8::format writes for an int that is not negative are those that writef writes
-- for the number, in every base.
pub int_number_lem : (base : ℕ) (u : Bool) (v : ℕ) → int_number base u (false, v) ≡ number base u v
unfolding int_number number
int_number_lem base u v = ap strip (int_fill-fill num_buffer_size base u v [])
