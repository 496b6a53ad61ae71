-- ===== src/Structures/Vector/Elements.antt =====
-- What a vector of include/structures/vector.hpp holds.
use cantos.Prelude.{
  ℕ, zero, suc, ◌+◌, ◌*◌, ◌<◌, ◌≤◌, ◌≡◌, refl, ◌∙◌, true, false, List, [], ◌∷◌, ◌++◌, Option, none,
  some, leb, ◌==◌, if◌then◌else◌, length, length-append, get_elem?, arith, u32_mod, add32, sub32,
}
use native.Mathlib.Nat.{mul-le-mul_right, mul-le-mul_left}
use native.Mathlib.Decide.{dec_lt}
use cantos.Structures.Vector.{
  Buffer, Vector, Result, done, panicked, store_item, has_place, construct, place, back, at,
  pop_back,
}

-- The elements of a buffer are those of a list, and nothing is constructed behind them; the buffer has
-- the size that is recorded.
pub record Elements {A : Type 0} (size_of : ℕ) (v : Vector A) (xs : List A) : Type 0 where
  pub buffer : Buffer A
  pub there : v.buff ≡ some buffer
  pub items : (j : ℕ) → buffer.items j ≡ get_elem? xs j
  pub counted : v.count ≡ length xs
  pub fits : v.count ≤ v.buff_size
  pub whole : buffer.room ≡ v.buff_size * size_of
  pub small : buffer.room < u32_mod

module _ {A : Type 0} where
  pub get_elem?-append :
      (xs : List A) (x : A) (j : ℕ)
      → get_elem? (xs ++ (x ∷ [])) j ≡ (if j == length xs then some x else get_elem? xs j)
  get_elem?-append [] x zero = refl
  get_elem?-append [] x (suc j) = ground arith
  get_elem?-append (y ∷ ys) x zero = ground arith
  get_elem?-append (y ∷ ys) x (suc j) = ground (arith, get_elem?-append ys x j)

  pub get_elem?-length : (xs : List A) (j : ℕ) → length xs ≤ j → get_elem? xs j ≡ none
  get_elem?-length [] j h = refl
  get_elem?-length (x ∷ xs) zero h = absurd (omega arith)
  get_elem?-length (x ∷ xs) (suc j) h = get_elem?-length xs j (omega arith)

  pub get_elem?-some : (xs : List A) (j : ℕ) → j < length xs → (x : A) × (get_elem? xs j ≡ some x)
  get_elem?-some [] j h = absurd (omega arith)
  get_elem?-some (x ∷ xs) zero h = (x, refl)
  get_elem?-some (x ∷ xs) (suc j) h = get_elem?-some xs j (omega arith)

-- There is a place below the size of a buffer.
pub place_fits :
    (size_of room size i : ℕ) → room ≡ size * size_of → i < size → has_place size_of room i ≡ true
place_fits size_of room size i whole h =
    let below : suc i * size_of ≤ size * size_of = mul-le-mul_right size_of h in ground arith

module _ {A : Type 0} (size_of : ℕ) where
  pub construct_lem :
      (i : ℕ) (x : A) (b : Buffer A)
      → has_place size_of b.room i ≡ true
      → construct size_of i x b ≡ done (record b { items = store_item i (some x) b.items })
  unfolding construct
  construct_lem i x b room = rw room refl

  pub big_lem :
      (v : Vector A) (xs : List A) → 0 < size_of → Elements size_of v xs → v.buff_size < u32_mod
  big_lem v xs some_size c =
      let l : v.buff_size * 1 ≤ v.buff_size * size_of = mul-le-mul_left v.buff_size some_size in
      omega (arith, l, c.whole, c.small)

  -- A value is put behind those of a list, where the buffer has room for it.
  pub place-Elements :
      (v : Vector A) (xs : List A) (x : A)
      → 0 < size_of
      → Elements size_of v xs
      → v.count < v.buff_size
      → (w : Vector A) × (place size_of v.count x (record v { count = add32 v.count 1 }) ≡ done w)
        × Elements size_of w (xs ++ (x ∷ []))
        × (w.buff_size ≡ v.buff_size)
  unfolding place
  place-Elements v xs x some_size c h =
      let b = c.buffer in
      let b' : Buffer A = record b { items = store_item v.count (some x) b.items } in
      let big : v.buff_size < u32_mod = big_lem v xs some_size c in
      let next : add32 v.count 1 ≡ v.count + 1 = omega arith in
      let within : leb (add32 v.count 1) v.count ≡ false = ground arith in
      let made =
        construct_lem v.count x b (place_fits size_of b.room v.buff_size v.count c.whole h) in
      (
        record v { buff = some b'; count = add32 v.count 1 },
        rw (within, c.there, made) refl,
        record {
          buffer = b';
          there = refl;
          items = λ j. ground (arith, c.items j, get_elem?-append xs x j, c.counted);
          counted = omega (arith, next, c.counted, length-append xs (x ∷ []));
          fits = omega (arith, next);
          whole = c.whole;
          small = c.small;
        },
        refl,
      )

  pub pop_back-Elements :
      (v : Vector A) (xs : List A) (x : A)
      → 0 < size_of
      → Elements size_of v (xs ++ (x ∷ []))
      → (w : Vector A) × (back size_of v ≡ done x)
        × (pop_back size_of v ≡ done w)
        × Elements size_of w xs
  unfolding pop_back back at
  pop_back-Elements v xs x some_size c =
      let b = c.buffer in
      let size : v.count ≡ length xs + 1 = c.counted ∙ length-append xs (x ∷ []) in
      let last : sub32 v.count 1 ≡ length xs =
        omega (arith, big_lem v (xs ++ (x ∷ [])) some_size c, c.fits, size) in
      let below : leb v.count (sub32 v.count 1) ≡ false = ground (arith, last, size) in
      let here : b.items (sub32 v.count 1) ≡ some x =
        ground (arith, last, c.items (sub32 v.count 1), get_elem?-append xs x (sub32 v.count 1)) in
      let fitting =
        place_fits size_of b.room v.buff_size (sub32 v.count 1) c.whole
          (omega (arith, last, size, c.fits)) in
      let read : back size_of v ≡ done x = rw (below, c.there, fitting, here) refl in
      (
        record v {
          buff = some (record b { items = store_item (sub32 v.count 1) none b.items });
          count = sub32 v.count 1;
        },
        read,
        rw (below, c.there, fitting, here) refl,
        record {
          buffer = record b { items = store_item (sub32 v.count 1) none b.items };
          there = refl;
          items =
              λ j. ground (arith, last, c.items j, get_elem?-append xs x j, get_elem?-length xs j);
          counted = last;
          fits = omega (arith, last, size, c.fits);
          whole = c.whole;
          small = c.small;
        },
      )

  -- What operator[] gives for a list.
  abbrev pub element : Option A → Result A
  element none = panicked
  element (some x) = done x

  -- operator[] of a vector gives the element of its list at that index, and panics where there is none.
  pub at-Elements :
      (v : Vector A) (xs : List A) (pos : ℕ)
      → Elements size_of v xs
      → at size_of v pos ≡ element (get_elem? xs pos)
  unfolding at
  at-Elements v xs pos c = elim (dec_lt pos (length xs)) [
    | yes h ↦
        let (x, here) = get_elem?-some xs pos h in
        let b = c.buffer in
        let below : leb v.count pos ≡ false = ground (arith, c.counted) in
        let fitting =
          place_fits size_of b.room v.buff_size pos c.whole (omega (arith, c.fits, c.counted)) in
        let there : b.items pos ≡ some x = c.items pos ∙ here in
        rw (below, c.there, fitting, there, here) refl
    | no h ↦
        let over : leb v.count pos ≡ true = ground (arith, c.counted) in
        let nothing : get_elem? xs pos ≡ none = get_elem?-length xs pos (omega arith) in
        rw (over, nothing) refl
  ]
