-- ===== src/Structures/Vector/Tests.antt =====
-- Runs of the vector of include/structures/vector.hpp, and the theorems there.
use cantos.Prelude.{ℕ, ◌≡◌, ◌⊎◌, refl, List, [], ◌∷◌, ◌++◌, some, arith, get_elem?}
use cantos.Structures.Vector.{
  Vector, Result, done, panicked, and_then, blank, push_back, at, new_vector, filled, copy_of,
  clear,
}
use cantos.Structures.Vector.Elements.{Elements}
use cantos.Structures.Vector.Grow.{push_back-Elements}

-- Pushed one after another.
push_all : List ℕ → Vector ℕ → Result (Vector ℕ)
push_all [] v = done v
push_all (x ∷ xs) v = and_then (push_back 4 x v) (push_all xs)

fifth :
    and_then (new_vector 4) (λ v. and_then (push_all (1 ∷ 2 ∷ 3 ∷ 4 ∷ 5 ∷ []) v) (λ w. at 4 w 4))
    ≡ done 5
unfolding push_all push_back at new_vector
fifth = refl

behind :
    and_then (new_vector 4) (λ v. and_then (push_all (1 ∷ 2 ∷ 3 ∷ []) v) (λ w. at 4 w 3)) ≡ panicked
unfolding push_all push_back at new_vector
behind = refl

abbrev seven : ℕ
seven = 7

copied : and_then (filled 4 3 seven) (λ v. and_then (copy_of 4 v) (λ w. at 4 w 2)) ≡ done seven
unfolding filled copy_of at
copied = refl

cleared : and_then (filled 4 3 seven) (λ v. and_then (clear 4 v) (λ w. at 4 w 0)) ≡ panicked
unfolding filled clear at
cleared = refl

-- A full vector of two elements.
abbrev pair : Vector ℕ
pair = record {
  buff = some (record { items = get_elem? (8 ∷ 9 ∷ []); room = 8 });
  count = 2;
  buff_size = 2;
}

pair_holds : Elements 4 pair ((8 ∷ []) ++ (9 ∷ []))
pair_holds = record {
  buffer = record { items = get_elem? (8 ∷ 9 ∷ []); room = 8 };
  there = refl;
  items = λ j. refl;
  counted = refl;
  fits = omega arith;
  whole = refl;
  small = omega arith;
}

push_back-Elements_example :
    (w : Vector ℕ) × (push_back 4 10 pair ≡ done w)
    × Elements 4 w ((8 ∷ 9 ∷ []) ++ (10 ∷ []))
    × ((w.buff_size ≡ 2) ⊎ (w.buff_size ≡ 4))
push_back-Elements_example =
    push_back-Elements 4 (8 ∷ 9 ∷ []) pair 10 (omega arith) (omega arith) (omega arith) pair_holds

-- What vector(0) makes.
abbrev no_room : Vector ℕ
no_room = record { buff = some (record { items = blank; room = 0 }); count = 0; buff_size = 0 }

no_room_made : filled 4 0 seven ≡ done no_room
unfolding filled
no_room_made = refl
