-- ===== src/Structures/SharedPtr/Plain/Steps.antt =====
-- One operation of include/structures/shared_ptr.hpp and shared_ptr.tpp when every place keeps its pointer.
use cantos.Prelude.{◌+◌, ◌<◌, ◌≡◌, ◌≢◌, refl, [], true, false, length, arith, none, u32_mod}
use cantos.Structures.SharedPtr.{Memory, Result, done, put_live}
use cantos.Structures.SharedPtr.Ops.{
  Op, makes, makes_null, copies, moves, destroys, nulls, assigns, move_assigns, swaps, resets,
}
use cantos.Structures.SharedPtr.Plain.{
  Pointers, at, decrement_usage, of_raw, make_shared, copy_of, moved_from, destroy, assign,
  move_assign, assign_null, reset, swap,
}
use cantos.Structures.SharedPtr.Plain.Counts.{count-nil}
use cantos.Structures.SharedPtr.Plain.Operations.{
  IsCounted, Ends, copy_of-Ends, destroy-Ends, assign-Ends, assign_null-Ends, move_assign-Ends,
  moved_from-IsCounted, swap-IsCounted, of_raw-null, make_shared-IsCounted,
}
use cantos.Structures.SharedPtr.Plain.Reset.{reset-Ends}

abbrev pub perform_plain : Op → Pointers → Result Pointers
perform_plain (makes r d) s = done (make_shared r d s)
perform_plain (makes_null d) s = done (of_raw 0 d s)
perform_plain (copies j) s = copy_of j s
perform_plain (moves j) s = done (moved_from j s)
perform_plain (destroys i) s = destroy i s
perform_plain (nulls i) s = assign_null i s
perform_plain (assigns i j) s = assign i j s
perform_plain (move_assigns i j) s = move_assign i j s
perform_plain (swaps i j) s = done (swap i j s)
perform_plain (resets i r d) s = reset i r d (record s { memory = put_live r true s.memory })

-- Room for one pointer more.
abbrev pub HasRoomPlain : Pointers → Type 0
HasRoomPlain s = length s.vars + 2 < u32_mod

-- The pointers that an operation names exist, an object that it makes is at an address where there is
-- none, and so is a block.
abbrev pub AllowedPlain : Op → Pointers → Type 0
AllowedPlain (makes r d) s =
    (r ≢ 0) × (s.memory.live r ≡ false) × (s.memory.uses d ≡ none) × HasRoomPlain s
AllowedPlain (makes_null d) s = HasRoomPlain s
AllowedPlain (copies j) s = (j < length s.vars) × HasRoomPlain s
AllowedPlain (moves j) s = (j < length s.vars) × HasRoomPlain s
AllowedPlain (destroys i) s = i < length s.vars
AllowedPlain (nulls i) s = i < length s.vars
AllowedPlain (assigns i j) s = (i < length s.vars) × (j < length s.vars)
AllowedPlain (move_assigns i j) s = (i < length s.vars) × (j < length s.vars)
AllowedPlain (swaps i j) s = (i < length s.vars) × (j < length s.vars)
AllowedPlain (resets i r d) s =
    (i < length s.vars)
    × (r ≢ 0)
    × (s.memory.live r ≡ false)
    × ((n : Memory) → decrement_usage (at s.vars i) s.memory ≡ done n → n.uses d ≡ none)

abbrev pub start_plain : Pointers
start_plain = record { vars = []; memory = record { uses = λ d. none; live = λ r. false } }

pub perform_plain-Ends :
    (op : Op) (s : Pointers) → IsCounted s → AllowedPlain op s → Ends (perform_plain op s)
perform_plain-Ends (makes r d) s inv (some_r, new_r, new_d, room) =
    (make_shared r d s, refl, make_shared-IsCounted s inv r d some_r new_r new_d room)
perform_plain-Ends (makes_null d) s inv room = (of_raw 0 d s, refl, of_raw-null s inv d room)
perform_plain-Ends (copies j) s inv (h, room) = copy_of-Ends s inv j h room
perform_plain-Ends (moves j) s inv (h, room) =
    (moved_from j s, refl, moved_from-IsCounted s inv j h room)
perform_plain-Ends (destroys i) s inv h = destroy-Ends s inv i h
perform_plain-Ends (nulls i) s inv h = assign_null-Ends s inv i h
perform_plain-Ends (assigns i j) s inv (h, k) = assign-Ends s inv i j h k
perform_plain-Ends (move_assigns i j) s inv (h, k) = move_assign-Ends s inv i j h k
perform_plain-Ends (swaps i j) s inv (h, k) = (swap i j s, refl, swap-IsCounted s inv i j h k)
perform_plain-Ends (resets i r d) s inv (h, some_r, new_r, new_d) =
    reset-Ends s i r d inv h some_r new_r new_d

pub start_plain-IsCounted : IsCounted start_plain
start_plain-IsCounted = record {
  counted = record {
    held = λ r d nr q. absurd (omega (arith, count-nil r d));
    one_block = λ r d r' d' nr nr' q q' e. absurd (omega (arith, count-nil r d));
    no_leak = λ r alive. cc;
    no_block = λ d n there. cc;
  };
  small = omega arith;
}
