-- ===== src/Structures/SharedPtr.antt =====
-- The shared pointers to one type T of include/structures/shared_ptr.hpp and shared_ptr.tpp: the places of
-- pointers that there are are a list, in variables and in objects alike, and the objects and the Data blocks
-- that they share are memory. The addresses of new ones are arguments, and 0 is the null pointer. The
-- destructor of T is an argument, since T is: it may change any pointer, and it leaves none at a place in
-- an object that it takes apart, so that the places keep their numbers.
pub mod Ops
pub mod Plain
pub mod Reachable
mod Tests
use cantos.Prelude.{
  ℕ, zero, suc, ◌+◌, ◌*◌, ◌%◌, ◌^◌, Bool, true, false, List, [], ◌∷◌, Option, none, some, ◌==◌,
  if◌then◌else◌, add32, sub32, get_elem?, set,
}

pub record Pointer : Type 0 where
  pub ref : ℕ
  pub block : ℕ

-- `uses` is the count in a Data block, and none where there is no block; `live` says which addresses
-- hold an object.
pub record Memory : Type 0 where
  pub uses : ℕ → Option ℕ
  pub live : ℕ → Bool

-- How an operation ends: with a value, or in a use of memory that has been freed.
pub data Result (A : Type 0) : Type 0 where
  done : A → Result A
  fault : Result A

abbrev pub and_then : {A B : Type 0} → Result A → (A → Result B) → Result B
and_then (done a) k = k a
and_then fault k = fault

abbrev pub null : Pointer
null = record { ref = 0; block = 0 }

-- The condition under which a pointer does not convert to true.
abbrev pub is_null : Pointer → Bool
is_null p = p.ref == 0

abbrev pub put_uses : ℕ → Option ℕ → Memory → Memory
put_uses d n m = record m { uses = λ a. if a == d then n else m.uses a }

abbrev pub put_live : ℕ → Bool → Memory → Memory
put_live r b m = record m { live = λ a. if a == r then b else m.live a }

abbrev pub increment : ℕ → Memory → Result Memory
increment d m = elim (m.uses d) [ none ↦ fault | some n ↦ done (put_uses d (some (add32 n 1)) m) ]

-- What a copy does first: the count goes up where the pointer is not null.
pub retain : Pointer → Memory → Result Memory
retain p m = if is_null p then done m else increment p.block m

-- The list without one of its elements.
abbrev pub remove : {A : Type 0} → List A → ℕ → List A
remove [] i = []
remove (p ∷ ps) zero = ps
remove (p ∷ ps) (suc i) = p ∷ remove ps i

-- The places of pointers, and the memory that they share.
pub record Pointers : Type 0 where
  pub vars : List (Option Pointer)
  pub memory : Memory

-- A read of the pointer at a place, and a write.
abbrev pub held_at : Option (Option Pointer) → Result Pointer
held_at (some (some p)) = done p
held_at (some none) = fault
held_at none = fault

abbrev pub load : ℕ → Pointers → Result Pointer
load i s = held_at (get_elem? s.vars i)

abbrev pub store : ℕ → Pointer → Pointers → Result Pointers
store i p s = and_then (load i s) (λ old. done (record s { vars = set s.vars i (some p) }))

abbrev pub with_memory : Pointers → Result Memory → Result Pointers
with_memory s (done m) = done (record s { memory = m })
with_memory s fault = fault

-- What a copy does first to the pointer that it reads.
abbrev pub retain_at : ℕ → Pointers → Result Pointers
retain_at j s = and_then (load j s) (λ p. with_memory s (retain p s.memory))

abbrev pub new_place : Pointer → Pointers → Pointers
new_place p s = record s { vars = some p ∷ s.vars }

-- new T at an address, and the constructor for it, whose Data is at `d`; where `r` is 0, there is no
-- object, and `d` is what happens to be in the member.
pub of_raw : ℕ → ℕ → Pointers → Pointers
of_raw r d s =
    let p : Pointer = record { ref = r; block = d } in
    if r == 0
    then new_place p s
    else new_place p (record s { memory = put_uses d (some 1) s.memory })

pub make_shared : ℕ → ℕ → Pointers → Pointers
unfolding of_raw
make_shared r d s = of_raw r d (record s { memory = put_live r true s.memory })

-- The copy constructor.
pub copy_of : ℕ → Pointers → Result Pointers
unfolding retain
copy_of j s = and_then (retain_at j s) (λ t. and_then (load j t) (λ p. done (new_place p t)))

-- The move constructor.
pub moved_from : ℕ → Pointers → Result Pointers
moved_from j s = and_then (load j s) (λ p. and_then (store j null s) (λ t. done (new_place p t)))

pub swap : ℕ → ℕ → Pointers → Result Pointers
swap i j s =
    and_then (load j s)
      (λ other. and_then (load i s) (λ own. and_then (store j own s) (λ t. store i other t)))

module _ (destruct : ℕ → Pointers → Result Pointers) where
  -- The memory of an object that has been taken apart.
  abbrev pub free_object : ℕ → Pointers → Result Pointers
  free_object r s =
      if s.memory.live r then done (record s { memory = put_live r false s.memory }) else fault

  -- delete ref, and delete data, which is read out of the place again.
  abbrev pub delete_both : ℕ → ℕ → Pointers → Result Pointers
  delete_both i r s =
      if s.memory.live r
      then and_then (destruct r s) (λ t. and_then (free_object r t) (λ u. and_then (load i u) (λ p.
        elim (u.memory.uses p.block) [
          | none ↦ fault
          | some n ↦ done (record u { memory = put_uses p.block none u.memory })
        ])))
      else fault

  abbrev pub decrement : ℕ → Pointer → Pointers → Result Pointers
  decrement i p s = elim (s.memory.uses p.block) [
    | none ↦ fault
    | some n ↦
        let t : Pointers = record s { memory = put_uses p.block (some (sub32 n 1)) s.memory } in
        if sub32 n 1 == 0 then delete_both i p.ref t else done t
  ]

  pub decrement_usage : ℕ → Pointers → Result Pointers
  decrement_usage i s = and_then (load i s) (λ p. if is_null p then done s else decrement i p s)

  -- The destructor.
  pub destroy : ℕ → Pointers → Result Pointers
  unfolding decrement_usage
  destroy i s = and_then (decrement_usage i s) (λ t. done (record t { vars = remove t.vars i }))

  -- operator= for a pointer that is copied, which is read again behind the decrement.
  pub assign : ℕ → ℕ → Pointers → Result Pointers
  unfolding retain decrement_usage
  assign i j s =
      and_then (retain_at j s)
        (λ t. and_then (decrement_usage i t) (λ u. and_then (load j u) (λ p. store i p u)))

  -- operator= for a pointer that is moved: `i` takes its members, and it is made null.
  pub move_assign : ℕ → ℕ → Pointers → Result Pointers
  unfolding decrement_usage
  move_assign i j s =
      and_then (decrement_usage i s)
        (λ t. and_then (load j t) (λ p. and_then (store i p t) (λ u. store j null u)))

  -- operator= for nullptr.
  pub assign_null : ℕ → Pointers → Result Pointers
  unfolding decrement_usage
  assign_null i s = and_then (decrement_usage i s) (λ t. store i null t)

  -- reset for an object at `r`, with the new Data at `d`.
  pub reset : ℕ → ℕ → ℕ → Pointers → Result Pointers
  unfolding decrement_usage
  reset i r d s = and_then (decrement_usage i s) (λ t.
      store i (record { ref = r; block = d }) (record t { memory = put_uses d (some 1) t.memory }))
