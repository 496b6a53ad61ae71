-- ===== src/Structures/Vector.antt =====
-- The vector of include/structures/vector.hpp. A buffer is what has been constructed in it, by index, and
-- its size in bytes; a buffer that is given up is not followed any further. The size of an element is a
-- parameter, and moving an element copies it.
pub mod Elements
pub mod Grow
mod Tests
use cantos.Prelude.{
  ℕ, zero, suc, ◌+◌, ◌*◌, ◌%◌, ◌^◌, Bool, true, false, Option, none, some, ◌==◌, ltb, leb,
  if◌then◌else◌, add32, sub32, mul32,
}

module _ (A : Type 0) where
  pub record Buffer : Type 0 where
    pub items : ℕ → Option A
    pub room : ℕ

  -- `buff` is none for a null pointer.
  pub record Vector : Type 0 where
    pub buff : Option Buffer
    pub count : ℕ
    pub buff_size : ℕ

-- How an operation ends: with a value, in panic(), or in a use of memory that is not in the buffer or
-- holds no element.
pub data Result (B : Type 0) : Type 0 where
  done : B → Result B
  panicked : Result B
  fault : Result B

abbrev pub and_then : {B C : Type 0} → Result B → (B → Result C) → Result C
and_then (done b) k = k b
and_then panicked k = panicked
and_then fault k = fault

module _ {A : Type 0} where
  abbrev pub store_item : ℕ → Option A → (ℕ → Option A) → ℕ → Option A
  store_item i x items j = if j == i then x else items j

  abbrev pub blank : ℕ → Option A
  blank i = none

  -- What the members are before a constructor runs.
  abbrev pub unmade : Vector A
  unmade = record { buff = none; count = 0; buff_size = 0 }

  abbrev pub items_of : Option (Buffer A) → ℕ → Option A
  items_of none i = none
  items_of (some b) i = b.items i

-- A place of a buffer in which there is room for an element.
abbrev pub has_place : ℕ → ℕ → ℕ → Bool
has_place size_of room i = leb (suc i * size_of) room

module _ {A : Type 0} (size_of : ℕ) where
  -- new at a place of a buffer.
  pub construct : ℕ → A → Buffer A → Result (Buffer A)
  construct i x b =
      if has_place size_of b.room i
      then done (record b { items = store_item i (some x) b.items })
      else fault

  -- The loop of grow_buff for the next `n` elements.
  pub move_items : ℕ → ℕ → (ℕ → Option A) → Buffer A → Result (Buffer A)
  unfolding construct
  move_items zero i old b = done b
  move_items (suc n) i old b = elim (old i) [
    | none ↦ fault
    | some x ↦ and_then (construct i x b) (λ b'. move_items n (suc i) old b')
  ]

  -- grow_buff with a size.
  pub grow_to : ℕ → Vector A → Result (Vector A)
  unfolding move_items
  grow_to target v =
      and_then
        (move_items v.count 0 (items_of v.buff)
          (record { items = blank; room = mul32 size_of target }))
        (λ b. done (record v { buff = some b; buff_size = target }))

  -- grow_buff without one.
  pub grow_buff : Vector A → Result (Vector A)
  unfolding grow_to
  grow_buff v = grow_to (mul32 v.buff_size 2) v

  -- The loop of the constructors that fill a vector.
  pub fill : ℕ → ℕ → A → Buffer A → Result (Buffer A)
  unfolding construct
  fill zero i x b = done b
  fill (suc n) i x b = and_then (construct i x b) (λ b'. fill n (suc i) x b')

  abbrev pub with_buffer : Vector A → (Buffer A → Result (Vector A)) → Result (Vector A)
  with_buffer v k = elim v.buff [ none ↦ fault | some b ↦ k b ]

  pub new_vector : Result (Vector A)
  unfolding grow_to
  new_vector = grow_to 4 unmade

  -- The constructor for `n` elements of one value.
  pub filled : ℕ → A → Result (Vector A)
  unfolding grow_to fill
  filled n x = and_then (grow_to n unmade) (λ v.
      with_buffer v
        (λ b. and_then (fill n 0 x b) (λ b'. done (record v { buff = some b'; count = n }))))

  -- operator[], where the element is read.
  pub at : Vector A → ℕ → Result A
  at v pos = if leb v.count pos then panicked else elim v.buff [
    | none ↦ panicked
    | some b ↦
        if has_place size_of b.room pos
        then elim (b.items pos) [ none ↦ fault | some x ↦ done x ]
        else fault
  ]

  pub front : Vector A → Result A
  unfolding at
  front v = at v 0

  pub back : Vector A → Result A
  unfolding at
  back v = at v (sub32 v.count 1)

  -- new at operator[], where an element is constructed.
  pub place : ℕ → A → Vector A → Result (Vector A)
  unfolding construct
  place pos x v = if leb v.count pos then panicked else elim v.buff [
    | none ↦ panicked
    | some b ↦ and_then (construct pos x b) (λ b'. done (record v { buff = some b' }))
  ]

  pub push_back : A → Vector A → Result (Vector A)
  unfolding grow_buff place
  push_back x v =
      and_then (if v.count == v.buff_size then grow_buff v else done v)
        (λ w. place w.count x (record w { count = add32 w.count 1 }))

  -- The destructor of an element takes it out of the buffer.
  pub pop_back : Vector A → Result (Vector A)
  unfolding back
  pop_back v = and_then (back v) (λ x. with_buffer v (λ b. done (record v {
    buff = some (record b { items = store_item (sub32 v.count 1) none b.items });
    count = sub32 v.count 1;
  })))

  -- The loop of clear for the next `n` elements.
  pub destroy_items : ℕ → ℕ → (ℕ → Option A) → Result (ℕ → Option A)
  destroy_items zero i items = done items
  destroy_items (suc n) i items = elim (items i) [
    | none ↦ fault
    | some x ↦ destroy_items n (suc i) (store_item i none items)
  ]

  pub clear : Vector A → Result (Vector A)
  unfolding destroy_items
  clear v = elim v.buff [
    | none ↦ done v
    | some b ↦
        and_then (destroy_items v.count 0 b.items)
          (λ items. done (record v { buff = some (record b { items = items }); count = 0 }))
  ]

  -- The loop of the copy constructor.
  pub copy_items : ℕ → ℕ → Vector A → Buffer A → Result (Buffer A)
  unfolding construct at
  copy_items zero i other b = done b
  copy_items (suc n) i other b =
      and_then (at other i) (λ x. and_then (construct i x b) (λ b'. copy_items n (suc i) other b'))

  pub copy_of : Vector A → Result (Vector A)
  unfolding grow_to copy_items
  copy_of other = and_then (grow_to other.buff_size unmade) (λ v. with_buffer v (λ b.
      and_then (copy_items other.count 0 other b)
        (λ b'. done (record v { buff = some b'; count = other.count }))))

  -- The move constructor gives the new vector and what is left of the other.
  pub moved_from : Vector A → Vector A × Vector A
  moved_from other = (other, record other { buff = none })

  -- operator= for another vector that is moved: the new vector and what is left of the other.
  pub move_assign : Vector A → Vector A → Result (Vector A × Vector A)
  unfolding clear
  move_assign v other = and_then (clear v) (λ w. done (other, record other { buff = none }))
