-- ===== src/Structures/Vector/Grow.antt =====
-- What grow_buff and push_back of include/structures/vector.hpp do to the contents.
use cantos.Prelude.{
  ℕ, zero, suc, ◌+◌, ◌*◌, ◌<◌, ◌≤◌, ◌≡◌, refl, ap, ◌∙◌, false, List, [], ◌∷◌, ◌++◌, Option, some,
  ltb, ◌==◌, if◌then◌else◌, length, get_elem?, arith, u32_mod, mul32, Bool-cases, ◌⊎◌, inl, inr,
}
use native.Mathlib.Nat.{mul_comm, mul-le-mul_left}
use native.Mathlib.Decide.{ℕ_discrete}
use cantos.Structures.Vector.{
  Buffer, Vector, Result, done, fault, store_item, items_of, has_place, construct, move_items,
  grow_to, grow_buff, blank, push_back,
}
use cantos.Structures.Vector.Elements.{
  Elements, get_elem?-some, get_elem?-length, place_fits, construct_lem, place-Elements,
}

module _ {A : Type 0} (size_of : ℕ) (xs : List A) where
  -- The buffer after the loop has moved the elements from `i` on.
  record Moved (i : ℕ) (b : Buffer A) (m : Result (Buffer A)) : Type 0 where
    last : Buffer A
    run : m ≡ done last
    room : last.room ≡ b.room
    items :
        (j : ℕ)
        → last.items j
          ≡ (if ltb j i then b.items j else if ltb j (length xs) then get_elem? xs j else b.items j)

  move_items-Moved :
      (n i size : ℕ) (old : ℕ → Option A) (b : Buffer A)
      → n + i ≡ length xs
      → length xs ≤ size
      → b.room ≡ size * size_of
      → ((j : ℕ) → old j ≡ get_elem? xs j)
      → Moved i b (move_items size_of n i old b)
  unfolding move_items
  move_items-Moved zero i size old b whole few room same = record {
    last = b;
    run = refl;
    room = refl;
    items = λ j. ground arith;
  }
  move_items-Moved (suc n) i size old b whole few room same =
      let (x, here) = get_elem?-some xs i (omega arith) in
      let there : old i ≡ some x = same i ∙ here in
      let b' : Buffer A = record b { items = store_item i (some x) b.items } in
      let made : construct size_of i x b ≡ done b' =
        construct_lem size_of i x b (place_fits size_of b.room size i room (omega arith)) in
      let rest = move_items-Moved n (suc i) size old b' (omega arith) few room same in
      record {
        last = rest.last;
        run = rw (there, move_items, made) rest.run;
        room = rest.room;
        items = λ j. elim (ℕ_discrete j i) [
          | yes e ↦
              let there_x : get_elem? xs j ≡ some x = rw e here in
              ground (arith, rest.items j, there_x)
          | no other ↦ ground (arith, rest.items j)
        ];
      }

  -- grow_buff to a size that is not below the number of elements and does not wrap around.
  grow_to-Elements :
      (v : Vector A) (target : ℕ)
      → Elements size_of v xs
      → v.count ≤ target
      → target * size_of < u32_mod
      → (w : Vector A) × (grow_to size_of target v ≡ done w)
        × Elements size_of w xs
        × (w.buff_size ≡ target)
        × (w.count ≡ v.count)
  unfolding grow_to
  grow_to-Elements v target c enough small =
      let b : Buffer A = record { items = blank; room = mul32 size_of target } in
      let room : mul32 size_of target ≡ target * size_of =
        omega (arith, mul_comm size_of target, small) in
      let moved =
        move_items-Moved v.count 0 target (items_of v.buff) b (omega (arith, c.counted))
          (omega (arith, c.counted)) room
          (λ j. ap (λ (o : Option (Buffer A)). items_of o j) c.there ∙ c.items j) in
      (
        record v { buff = some moved.last; buff_size = target },
        rw (moved.run) refl,
        record {
          buffer = moved.last;
          there = refl;
          items = λ j. ground (arith, moved.items j, get_elem?-length xs j);
          counted = c.counted;
          fits = enough;
          whole = moved.room ∙ room;
          small = omega (arith, moved.room, room, small);
        },
        refl,
        refl,
      )

  grow_run :
      (v w : Vector A) (target : ℕ)
      → mul32 v.buff_size 2 ≡ target
      → grow_to size_of target v ≡ done w
      → grow_buff size_of v ≡ done w
  unfolding grow_buff
  grow_run v w target size run = ap (λ (t : ℕ). grow_to size_of t v) size ∙ run

  -- The first step of push_back: there is room for an element more afterwards.
  with_room :
      (v : Vector A)
      → 0 < v.buff_size
      → v.buff_size * 2 * size_of < u32_mod
      → 0 < size_of
      → Elements size_of v xs
      → (w : Vector A) × ((if v.count == v.buff_size then grow_buff size_of v else done v) ≡ done w)
        × Elements size_of w xs
        × (w.count < w.buff_size)
        × ((w.buff_size ≡ v.buff_size) ⊎ (w.buff_size ≡ v.buff_size * 2))
  with_room v some_buff small some_size c = elim (Bool-cases (v.count == v.buff_size)) [
    | inl full ↦
        let l : v.buff_size * 2 * 1 ≤ v.buff_size * 2 * size_of =
          mul-le-mul_left (v.buff_size * 2) some_size in
        let target : mul32 v.buff_size 2 ≡ v.buff_size * 2 = omega (arith, l, small) in
        let (w, run, kept, size, same) =
          grow_to-Elements v (v.buff_size * 2) c (omega (arith, c.fits)) small in
        (
          w,
          rw full (grow_run v w (v.buff_size * 2) target run),
          kept,
          ground (arith, size, same, some_buff),
          inr size,
        )
    | inr room ↦ (v, rw room refl, c, ground (arith, c.fits), inl refl)
  ]

  -- push_back puts a value behind those of the vector, which grows where it is full. The vector has a
  -- capacity that is not 0, and twice as many elements fit into 2^32 bytes.
  pub push_back-Elements :
      (v : Vector A) (x : A)
      → 0 < size_of
      → 0 < v.buff_size
      → v.buff_size * 2 * size_of < u32_mod
      → Elements size_of v xs
      → (w : Vector A) × (push_back size_of x v ≡ done w)
        × Elements size_of w (xs ++ (x ∷ []))
        × ((w.buff_size ≡ v.buff_size) ⊎ (w.buff_size ≡ v.buff_size * 2))
  unfolding push_back
  push_back-Elements v x some_size some_buff small c =
      let (u, run, kept, room, grown) = with_room v some_buff small some_size c in
      let (w, run', put, same) = place-Elements size_of u xs x some_size kept room in
      (w, rw run run', put, elim grown [ inl e ↦ inl (same ∙ e) | inr e ↦ inr (same ∙ e) ])

-- push_back of a vector whose capacity is 0, as vector(0) makes it, writes outside of its buffer: twice
-- the capacity is no larger.
pub push_back-fault :
    {A : Type 0} (size_of : ℕ) (b : Option (Buffer A)) (x : A)
    → 0 < size_of
    → push_back size_of x (record { buff = b; count = 0; buff_size = 0 }) ≡ fault
unfolding push_back construct
push_back-fault size_of b x some_size =
    let no_place : has_place size_of (mul32 size_of 0) 0 ≡ false = ground arith in rw no_place refl
