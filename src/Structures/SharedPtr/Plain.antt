-- ===== src/Structures/SharedPtr/Plain.antt =====
-- The operations of include/structures/shared_ptr.hpp and shared_ptr.tpp when the destructor of T changes no
-- pointer to a T: every place keeps its pointer.
pub mod Counts
pub mod Held
pub mod Operations
pub mod Places
pub mod Reset
pub mod Simulated
pub mod Steps
use cantos.Prelude.{
  ℕ, zero, suc, ◌+◌, Bool, true, false, List, [], ◌∷◌, Option, none, some, ◌==◌, if◌then◌else◌,
  sub32, get_or, set,
}
use cantos.Structures.SharedPtr.{
  Pointer, Memory, Result, done, fault, and_then, null, is_null, put_uses, put_live, retain, remove,
}

-- The deletes of decrement_usage.
abbrev pub delete_both : Pointer → Memory → Result Memory
delete_both p m =
    if m.live p.ref then done (put_uses p.block none (put_live p.ref false m)) else fault

abbrev pub decrement : Pointer → Memory → Result Memory
decrement p m = elim (m.uses p.block) [
  | none ↦ fault
  | some n ↦
      if sub32 n 1 == 0 then delete_both p m else done (put_uses p.block (some (sub32 n 1)) m)
]

pub decrement_usage : Pointer → Memory → Result Memory
decrement_usage p m = if is_null p then done m else decrement p m

-- The pointers that exist, and the memory that they share.
pub record Pointers : Type 0 where
  pub vars : List Pointer
  pub memory : Memory

abbrev pub at : List Pointer → ℕ → Pointer
at vs i = get_or vs i null

-- new T at an address, and the constructor for it, whose Data is at `d`; where `r` is 0, there is no
-- object, and `d` is what happens to be in the member.
pub of_raw : ℕ → ℕ → Pointers → Pointers
of_raw r d s =
    let p : Pointer = record { ref = r; block = d } in
    if r == 0
    then record s { vars = p ∷ s.vars }
    else record { vars = p ∷ s.vars; memory = put_uses d (some 1) s.memory }

pub make_shared : ℕ → ℕ → Pointers → Pointers
unfolding of_raw
make_shared r d s = of_raw r d (record s { memory = put_live r true s.memory })

-- The copy constructor.
pub copy_of : ℕ → Pointers → Result Pointers
unfolding retain
copy_of j s =
    and_then (retain (at s.vars j) s.memory)
      (λ m. done (record { vars = at s.vars j ∷ s.vars; memory = m }))

-- The move constructor.
pub moved_from : ℕ → Pointers → Pointers
moved_from j s = record s { vars = at s.vars j ∷ set s.vars j null }

-- The destructor.
pub destroy : ℕ → Pointers → Result Pointers
unfolding decrement_usage
destroy i s =
    and_then (decrement_usage (at s.vars i) s.memory)
      (λ m. done (record { vars = remove s.vars i; memory = m }))

-- operator= for a pointer that is copied.
pub assign : ℕ → ℕ → Pointers → Result Pointers
unfolding retain decrement_usage
assign i j s = and_then (retain (at s.vars j) s.memory) (λ m.
    and_then (decrement_usage (at s.vars i) m)
      (λ n. done (record { vars = set s.vars i (at s.vars j); memory = n })))

-- operator= for a pointer that is moved: `i` takes its members, and it is made null.
pub move_assign : ℕ → ℕ → Pointers → Result Pointers
unfolding decrement_usage
move_assign i j s =
    and_then (decrement_usage (at s.vars i) s.memory)
      (λ m. done (record { vars = set (set s.vars i (at s.vars j)) j null; memory = m }))

-- operator= for nullptr.
pub assign_null : ℕ → Pointers → Result Pointers
unfolding decrement_usage
assign_null i s =
    and_then (decrement_usage (at s.vars i) s.memory)
      (λ m. done (record { vars = set s.vars i null; memory = m }))

-- reset for an object at `r`, with the new Data at `d`.
pub reset : ℕ → ℕ → ℕ → Pointers → Result Pointers
unfolding decrement_usage
reset i r d s = and_then (decrement_usage (at s.vars i) s.memory) (λ m. done (record {
  vars = set s.vars i (record { ref = r; block = d });
  memory = put_uses d (some 1) m;
}))

pub swap : ℕ → ℕ → Pointers → Pointers
swap i j s = record s { vars = set (set s.vars j (at s.vars i)) i (at s.vars j) }
