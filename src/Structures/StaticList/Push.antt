-- ===== src/Structures/StaticList/Push.antt =====
-- push_front and push_back of StaticList on the list that it holds.
use cantos.Prelude.{
  ℕ, suc, ◌+◌, ◌-◌, ◌<◌, ◌≡◌, refl, ap, ◌∙◌, inl, inr, true, false, [], ◌∷◌, ◌++◌, ◌==◌, arith,
}
use cantos.Structures.StaticList.{StaticList, store, size, back_from, push_front, push_back}
use cantos.Structures.StaticList.Contents.{
  place, items, contents, IsValid, items-eq, items_snoc, next_cases, back_cases, back_lt, place_end,
}

module _ {ℓ} {T : Type ℓ} where
  size-push_back :
      (v : T) (l : StaticList T)
      → IsValid l
      → suc (size l) < l.capacity
      → size (push_back v l) ≡ suc (size l)
  unfolding size push_back
  size-push_back v l (h, t) room = elim (next_cases l.tail l.capacity t) [
    | inl (inside, next) ↦ rw next (ground arith)
    | inr (last, next) ↦ rw next (ground arith)
  ]

  size-push_front :
      (v : T) (l : StaticList T)
      → IsValid l
      → suc (size l) < l.capacity
      → size (push_front v l) ≡ suc (size l)
  unfolding size push_front
  size-push_front v l (h, t) room = elim (back_cases l.head l.capacity h) [
    | inl (start, last) ↦ ground (arith, start, last)
    | inr before ↦ ground (arith, before)
  ]

  place_inner :
      (l : StaticList T) (m : ℕ)
      → IsValid l
      → m < size l
      → (place l.capacity l.head m == l.tail) ≡ false
  unfolding size
  place_inner l m (h, t) p = ground arith

  -- One place before the head.
  place_back :
      (l : StaticList T) (m : ℕ)
      → IsValid l
      → m < l.capacity - 1
      → place l.capacity (back_from l.capacity l.head) (suc m) ≡ place l.capacity l.head m
  place_back l m (h, t) p = elim (back_cases l.head l.capacity h) [
    | inl (start, last) ↦ ground (arith, start, last)
    | inr before ↦ ground (arith, before)
  ]

  place_fresh :
      (l : StaticList T) (m : ℕ)
      → IsValid l
      → suc m < l.capacity
      → (place l.capacity l.head m == back_from l.capacity l.head) ≡ false
  place_fresh l m (h, t) p = elim (back_cases l.head l.capacity h) [
    | inl (start, last) ↦ ground (arith, start, last)
    | inr before ↦ ground (arith, before)
  ]

  place_first :
      (l : StaticList T)
      → IsValid l
      → (place l.capacity (back_from l.capacity l.head) 0 == back_from l.capacity l.head) ≡ true
  place_first l (h, t) = elim (back_cases l.head l.capacity h) [
    | inl (start, last) ↦ ground (arith, start, last)
    | inr before ↦ ground (arith, before)
  ]

  push_back-contents :
      (v : T) (l : StaticList T)
      → IsValid l
      → suc (size l) < l.capacity
      → contents (push_back v l) ≡ contents l ++ (v ∷ [])
  unfolding push_back
  push_back-contents v l valid room =
      let f' : ℕ → T = store l.objects l.tail v in
      let start : 0 + size l ≡ size l = omega arith in
      let last : f' (place l.capacity l.head (size l)) ≡ v =
        rw (place_end l valid)
          (let same : (l.tail == l.tail) ≡ true = ground arith in rw same refl) in
      let others =
        items-eq f' l.objects l.capacity l.head l.head 0 0 (size l)
          (λ m p. let on : 0 + m ≡ m = omega arith in rw (on, place_inner l m valid p) refl) in
      let whole = rw start at (items_snoc f' l.capacity l.head 0 (size l)) in
      ap (items f' l.capacity l.head 0) (size-push_back v l valid room)
      ∙ whole
      ∙ ap (λ xs. xs ++ (f' (place l.capacity l.head (size l)) ∷ [])) others
      ∙ ap (λ w. contents l ++ (w ∷ [])) last

  push_front-contents :
      (v : T) (l : StaticList T)
      → IsValid l
      → suc (size l) < l.capacity
      → contents (push_front v l) ≡ v ∷ contents l
  unfolding push_front
  push_front-contents v l valid room =
      let h' : ℕ = back_from l.capacity l.head in
      let f' : ℕ → T = store l.objects h' v in
      let first : f' (place l.capacity h' 0) ≡ v = rw (place_first l valid) refl in
      let others = items-eq f' l.objects l.capacity h' l.head 1 0 (size l) (λ m p.
        let on : 0 + m ≡ m = omega arith in
        let on' : 1 + m ≡ suc m = omega arith in
        rw (on, on', place_back l m valid (omega arith), place_fresh l m valid (omega arith))
          refl) in
      ap (items f' l.capacity h' 0) (size-push_front v l valid room)
      ∙ ap (λ xs. f' (place l.capacity h' 0) ∷ xs) others
      ∙ ap (λ w. w ∷ contents l) first

  -- A push on a valid list with two free places leaves it valid and puts the value at its end, or
  -- in front of it.
  pub push-contents :
      (v : T) (l : StaticList T)
      → IsValid l
      → suc (size l) < l.capacity
      → ((contents (push_back v l) ≡ contents l ++ (v ∷ [])) × IsValid (push_back v l))
        × ((contents (push_front v l) ≡ v ∷ contents l) × IsValid (push_front v l))
  unfolding push_back push_front
  push-contents v l (h, t) room = (
    (
      push_back-contents v l (h, t) room,
      (
        h,
        elim (next_cases l.tail l.capacity t) [
          | inl (inside, next) ↦ rw next inside
          | inr (last, next) ↦ rw next (omega arith)
        ],
      ),
    ),
    (push_front-contents v l (h, t) room, (back_lt l.head l.capacity h, t)),
  )

  -- A push at the end of a valid list with one free place leaves the list empty: the indices meet.
  pub push_back-full :
      (v : T) (l : StaticList T)
      → IsValid l
      → suc (size l) ≡ l.capacity
      → contents (push_back v l) ≡ []
  unfolding push_back size
  push_back-full v l (h, t) full =
      let f' : ℕ → T = store l.objects l.tail v in
      let none_left : size (push_back v l) ≡ 0 = elim (next_cases l.tail l.capacity t) [
        | inl (inside, next) ↦ rw next (ground arith)
        | inr (last, next) ↦ rw next (ground arith)
      ] in
      ap (items f' l.capacity l.head 0) none_left
