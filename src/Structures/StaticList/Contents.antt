-- ===== src/Structures/StaticList/Contents.antt =====
-- What a StaticList holds, as a list: the places from `head` on, round the end of the array.
use cantos.Prelude.{
  ℕ, zero, suc, ◌+◌, ◌-◌, ◌%◌, ◌<◌, ◌≡◌, refl, ap, inl, inr, ◌⊎◌, List, [], ◌∷◌, ◌++◌, ltb,
  if◌then◌else◌, length, arith, tests, Bool-cases,
}
use native.Mathlib.Nat.{mod-eq_of_lt, mod_self}
use cantos.Structures.StaticList.{StaticList, size, back_from}

-- The place of the element `k` behind `head`.
abbrev pub place : ℕ → ℕ → ℕ → ℕ
place capacity head k = if ltb (head + k) capacity then head + k else head + k - capacity

module _ {ℓ} {T : Type ℓ} where
  -- `n` elements from the element `k` on.
  abbrev pub items : (ℕ → T) → ℕ → ℕ → ℕ → ℕ → List T
  items objects capacity head k zero = []
  items objects capacity head k (suc n) =
      objects (place capacity head k) ∷ items objects capacity head (suc k) n

  abbrev pub contents : StaticList T → List T
  contents l = items l.objects l.capacity l.head 0 (size l)

  -- The indices are places of the array.
  abbrev pub IsValid : StaticList T → Type 0
  IsValid l = (l.head < l.capacity) × (l.tail < l.capacity)

  pub items-eq :
      (f g : ℕ → T) (c h h' k k' n : ℕ)
      → ((m : ℕ) → m < n → f (place c h (k + m)) ≡ g (place c h' (k' + m)))
      → items f c h k n ≡ items g c h' k' n
  items-eq f g c h h' k k' zero same = refl
  items-eq f g c h h' k k' (suc n) same =
      let here : k + 0 ≡ k = omega arith in
      let here' : k' + 0 ≡ k' = omega arith in
      let first : f (place c h k) ≡ g (place c h' k') =
        rw (here, here') at (same 0 (omega arith)) in
      let rest = items-eq f g c h h' (suc k) (suc k') n (λ m p.
        let on : suc k + m ≡ k + suc m = omega arith in
        let on' : suc k' + m ≡ k' + suc m = omega arith in
        rw (on, on') (same (suc m) (omega arith))) in
      cc

  pub items_snoc :
      (f : ℕ → T) (c h k n : ℕ)
      → items f c h k (suc n) ≡ items f c h k n ++ (f (place c h (k + n)) ∷ [])
  items_snoc f c h k zero = let here : k + 0 ≡ k = omega arith in rw here refl
  items_snoc f c h k (suc n) =
      let on : k + suc n ≡ suc k + n = omega arith in
      rw on (ap (λ xs. f (place c h k) ∷ xs) (items_snoc f c h (suc k) n))

  pub length-items : (f : ℕ → T) (c h k n : ℕ) → length (items f c h k n) ≡ n
  length-items f c h k zero = refl
  length-items f c h k (suc n) = ap suc (length-items f c h (suc k) n)

pub next_cases :
    (i c : ℕ) → i < c → ((suc i < c) × ((i + 1) % c ≡ suc i)) ⊎ ((suc i ≡ c) × ((i + 1) % c ≡ 0))
next_cases i c h = elim (Bool-cases (ltb (suc i) c)) [
  | inl inside ↦
      let on : i + 1 ≡ suc i = omega arith in inl (omega tests, rw on (mod-eq_of_lt (omega tests)))
  | inr last ↦ let on : i + 1 ≡ c = omega tests in inr (omega tests, rw on (mod_self c))
]

pub back_cases :
    (i c : ℕ) → i < c → ((i ≡ 0) × (suc (back_from c i) ≡ c)) ⊎ (suc (back_from c i) ≡ i)
back_cases zero c h = inl (refl, omega arith)
back_cases (suc i) c h = inr refl

pub back_lt : (i c : ℕ) → i < c → back_from c i < c
back_lt i c h = elim (back_cases i c h) [
  | inl (start, last) ↦ omega (arith, last)
  | inr before ↦ omega (arith, before)
]

module _ {ℓ} {T : Type ℓ} where
  pub place_end : (l : StaticList T) → IsValid l → place l.capacity l.head (size l) ≡ l.tail
  unfolding size
  place_end l (h, t) = ground arith
