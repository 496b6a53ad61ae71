-- ===== src/Structures/StaticList/Pop.antt =====
-- pop_front and pop_back of StaticList on the list that it holds.
use cantos.Prelude.{
  ℕ, suc, ◌+◌, ◌%◌, ◌<◌, ◌≡◌, refl, sym, ap, ◌∙◌, inl, inr, ◌⊎◌, true, false, List, [], ◌∷◌, ◌++◌,
  Option, none, some, arith, Bool-cases,
}
use native.Mathlib.Nat.{mod-lt}
use cantos.Structures.StaticList.{StaticList, empty, size, back_from, pop_front, pop_back}
use cantos.Structures.StaticList.Contents.{
  place, items, contents, IsValid, items-eq, items_snoc, next_cases, back_cases, back_lt, place_end,
}

module _ {ℓ} {T : Type ℓ} where
  size_empty : (l : StaticList T) → IsValid l → empty l ≡ true → size l ≡ 0
  unfolding size empty
  size_empty l (h, t) e = ground arith

  size-pop_front :
      (l : StaticList T)
      → IsValid l
      → empty l ≡ false
      → size l ≡ suc (size (record l { head = (l.head + 1) % l.capacity }))
  unfolding size empty
  size-pop_front l (h, t) e = elim (next_cases l.head l.capacity h) [
    | inl (inside, next) ↦ rw next (ground arith)
    | inr (last, next) ↦ rw next (ground arith)
  ]

  size-pop_back :
      (l : StaticList T)
      → IsValid l
      → empty l ≡ false
      → size l ≡ suc (size (record l { tail = back_from l.capacity l.tail }))
  unfolding size empty
  size-pop_back l (h, t) e = elim (back_cases l.tail l.capacity t) [
    | inl (start, last) ↦ ground (arith, start, last)
    | inr before ↦ ground (arith, before)
  ]

  place_next :
      (l : StaticList T) (m : ℕ)
      → IsValid l
      → suc m < l.capacity
      → place l.capacity ((l.head + 1) % l.capacity) m ≡ place l.capacity l.head (suc m)
  place_next l m (h, t) p = elim (next_cases l.head l.capacity h) [
    | inl (inside, next) ↦ rw next (ground arith)
    | inr (last, next) ↦ rw next (ground arith)
  ]

  size_lt : (l : StaticList T) → IsValid l → size l < l.capacity
  unfolding size
  size_lt l (h, t) = ground arith

  place_start : (l : StaticList T) → IsValid l → place l.capacity l.head 0 ≡ l.head
  place_start l (h, t) = ground arith

  -- What a pop of a valid list yields: panic() for an empty list, else a value and a valid list,
  -- which `join` puts together to the list before.
  abbrev pub Pops : (T → List T → List T) → StaticList T → Option (T × StaticList T) → Type ℓ
  Pops join l result =
      ((contents l ≡ []) × (result ≡ none))
      ⊎ ((x : T) × (l' : StaticList T) × (result ≡ some (x, l'))
          × IsValid l'
          × (contents l ≡ join x (contents l')))

  pop_front-Pops : (l : StaticList T) → IsValid l → Pops ◌∷◌ l (pop_front l)
  unfolding pop_front
  pop_front-Pops l (h, t) = elim (Bool-cases (empty l)) [
    | inl none_left ↦ inl (
      ap (items l.objects l.capacity l.head 0) (size_empty l (h, t) none_left),
      rw none_left refl,
    )
    | inr full ↦
        let l' : StaticList T = record l { head = (l.head + 1) % l.capacity } in
        let less = size-pop_front l (h, t) full in
        let others = items-eq l.objects l.objects l.capacity l.head l'.head 1 0 (size l') (λ m p.
          let on : 0 + m ≡ m = omega arith in
          let on' : 1 + m ≡ suc m = omega arith in
          rw (on, on')
            (ap l.objects (sym (place_next l m (h, t) (omega (arith, size_lt l (h, t))))))) in
        inr (
          l.objects l.head,
          l',
          rw full refl,
          (mod-lt (l.head + 1) (omega arith), t),
          ap (items l.objects l.capacity l.head 0) less
              ∙ ap (λ xs. l.objects (place l.capacity l.head 0) ∷ xs) others
              ∙ ap (λ i. l.objects i ∷ contents l') (place_start l (h, t)),
        )
  ]

  pop_back-Pops : (l : StaticList T) → IsValid l → Pops (λ x xs. xs ++ (x ∷ [])) l (pop_back l)
  unfolding pop_back
  pop_back-Pops l (h, t) = elim (Bool-cases (empty l)) [
    | inl none_left ↦ inl (
      ap (items l.objects l.capacity l.head 0) (size_empty l (h, t) none_left),
      rw none_left refl,
    )
    | inr full ↦
        let l' : StaticList T = record l { tail = back_from l.capacity l.tail } in
        let less = size-pop_back l (h, t) full in
        let valid' : IsValid l' = (h, back_lt l.tail l.capacity t) in
        let start : 0 + size l' ≡ size l' = omega arith in
        inr (
          l.objects l'.tail,
          l',
          rw full refl,
          valid',
          ap (items l.objects l.capacity l.head 0) less
              ∙ rw start at (items_snoc l.objects l.capacity l.head 0 (size l'))
              ∙ ap (λ i. contents l' ++ (l.objects i ∷ [])) (place_end l' valid'),
        )
  ]

  -- A pop of a valid list ends in panic() if the list holds nothing, and otherwise returns the
  -- value at its front, or at its end, and leaves a valid list that holds the others.
  pub pop-Pops :
      (l : StaticList T)
      → IsValid l
      → Pops ◌∷◌ l (pop_front l) × Pops (λ x xs. xs ++ (x ∷ [])) l (pop_back l)
  pop-Pops l valid = (pop_front-Pops l valid, pop_back-Pops l valid)
