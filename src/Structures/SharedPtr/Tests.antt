-- ===== src/Structures/SharedPtr/Tests.antt =====
-- Runs of the operations of include/structures/shared_ptr.hpp, and the theorems there.
use cantos.Prelude.{
  ℕ, ◌<◌, ◌≡◌, refl, [], ◌∷◌, true, false, none, some, ◌==◌, if◌then◌else◌, length, arith, set,
}
use cantos.Structures.SharedPtr.{
  Pointers, Result, done, fault, and_then, make_shared, of_raw, copy_of, retain, decrement_usage,
  assign, move_assign,
}
use cantos.Structures.SharedPtr.Ops.{
  Op, makes, copies, assigns, destroys, Reaches, started, later, start, perform,
}
use cantos.Structures.SharedPtr.Plain.Places.{Quiet}
use cantos.Structures.SharedPtr.Reachable.{Tallied, Reaches-no_fault, Reaches-counted}

-- The destructor of filesystem::Storage does nothing.
abbrev storage_end : ℕ → Pointers → Result Pointers
storage_end r s = done s

storage_end-Quiet : Quiet storage_end
storage_end-Quiet r s alive = refl

-- Two objects, a copy of the pointer to the first, and the second taken over from it.
abbrev one : Pointers
unfolding make_shared of_raw
one = make_shared 0xc0300000 0xc0300100 start

abbrev two : Pointers
unfolding make_shared of_raw
two = make_shared 0xc0300200 0xc0300300 one

after : Op → Pointers → Pointers
after op s = elim (perform storage_end op s) [ done t ↦ t | fault ↦ s ]

abbrev three : Pointers
unfolding after copy_of
three = after (copies 1) two

abbrev four : Pointers
unfolding after assign
four = after (assigns 1 2) three

four_reached : Reaches storage_end four
unfolding make_shared of_raw copy_of retain decrement_usage assign after
four_reached =
    later (assigns 1 2)
      (later (copies 1)
        (later (makes 0xc0300200 0xc0300300)
          (later (makes 0xc0300000 0xc0300100) started (omega arith, refl, refl, omega arith) refl)
          (omega arith, refl, refl, omega arith) refl)
        (omega arith, omega arith) refl)
      (omega arith, omega arith) refl

all_share : four.memory.uses 0xc0300100 ≡ some 3
unfolding make_shared of_raw copy_of retain decrement_usage assign after
all_share = refl

second_gone : four.memory.live 0xc0300200 ≡ false
unfolding make_shared of_raw copy_of retain decrement_usage assign after
second_gone = refl

first_there : 0 < length four.vars
unfolding make_shared of_raw copy_of retain decrement_usage assign after
first_there = omega arith

Reaches-no_fault_example : (t : Pointers) × (perform storage_end (destroys 0) four ≡ done t)
Reaches-no_fault_example =
    Reaches-no_fault storage_end storage_end-Quiet four (destroys 0) four_reached first_there

Reaches-counted_example : Tallied four
Reaches-counted_example = Reaches-counted storage_end storage_end-Quiet four four_reached

-- A list of two nodes: the variable p points to the first, whose member next, at place 1, points to the second.
abbrev nodes : Pointers
nodes = record {
  vars =
      some (record { ref = 0x1000; block = 0x1100 })
      ∷ some (record { ref = 0x2000; block = 0x2100 })
      ∷ [];
  memory = record {
    uses = λ d. if d == 0x1100 then some 1 else if d == 0x2100 then some 1 else none;
    live = λ r. if r == 0x1000 then true else if r == 0x2000 then true else false;
  };
}

-- The destructor of a node: that of the member, whose place is then gone. The second has no next.
abbrev node_end : ℕ → Pointers → Result Pointers
unfolding decrement_usage
node_end r s =
    if r == 0x1000
    then and_then (decrement_usage storage_end 1 s)
        (λ t. done (record t { vars = set t.vars 1 none }))
    else done s

-- p = p->next reads the member after its node has been deleted, and so does p = move(p->next).
next_read : assign node_end 0 1 nodes ≡ fault
unfolding assign retain decrement_usage node_end
next_read = refl

next_moved : move_assign node_end 0 1 nodes ≡ fault
unfolding move_assign retain decrement_usage node_end
next_moved = refl
