-- ===== src/Structures/Utf8/Find.antt =====
-- What the searches of src/structures/utf8.cpp find.
use cantos.Prelude.{
  ℤ, negsuc, ℕ, zero, suc, ◌+◌, ◌-◌, ◌≤◌, ◌<◌, ◌≡◌, ◌≢◌, refl, inl, inr, ◌⊎◌, false, Option, none,
  some, ltb, leb, ◌==◌, length, arith, tests, Bool-cases, sub32, u32_mod,
}
use native.Mathlib.Decide.{ℕ_discrete}
use cantos.Structures.Utf8.{
  Utf8, compare_length, compare_result, compare_part, find_round, find_loop, find,
}
use cantos.Structures.Utf8.Compare.{IsText, Agree, differ_lem}

-- The text of `b` stands in that of `a` at `i`.
abbrev pub Occurs : Utf8 → Utf8 → ℕ → Type 0
Occurs a b i = Agree a.text i b.text 0 (length b.text) 0

-- Nowhere from `from` on and before `to`.
abbrev pub Nowhere : Utf8 → Utf8 → ℕ → ℕ → Type 0
Nowhere a b from to = (i : ℕ) → from ≤ i → i < to → ¬ Occurs a b i

-- What find returns is the first place out of those, or npos.
abbrev pub Finds : Utf8 → Utf8 → ℕ → ℕ → Option (Option ℕ) → Type 0
Finds a b from to result =
    ((result ≡ some none) × Nowhere a b from to)
    ⊎ ((i : ℕ) × (result ≡ some (some i))
        × (from ≤ i)
        × (i < to)
        × Occurs a b i
        × Nowhere a b from i)

module _ (a b : Utf8) (t : IsText a.text) (u : IsText b.text) (apart : a.string ≢ b.string) where
  compare_at :
      (at : ℕ)
      → at + length b.text ≤ length a.text
      → ((compare_part a at (length b.text) b 0 (length b.text) ≡ some (ℤ.pos 0)) × Occurs a b at)
        ⊎ ((d : ℤ) × (compare_part a at (length b.text) b 0 (length b.text) ≡ some d)
            × (d ≢ ℤ.pos 0)
            × ¬ Occurs a b at)
  unfolding compare_part compare_result compare_length
  compare_at at fits =
      let other : (a.string == b.string) ≡ false = ground arith in
      let even : ltb (length b.text) (length b.text) ≡ false = ground arith in
      elim (differ_lem a.text at b.text 0 (length b.text) 0 t u (omega arith) (omega arith)) [
        | inl (run, agree) ↦ inl (rw (other, even, run, even) refl, agree)
        | inr (d, run, nonzero, (m, l, h, ne)) ↦
            inr (d, rw (other, even, run) refl, nonzero, λ occurs. ne (occurs m l h))
      ]

  find_round-on :
      (d : ℤ) (at : ℕ) (rest : Option (Option ℕ)) → d ≢ ℤ.pos 0 → find_round (some d) at rest ≡ rest
  unfolding find_round
  find_round-on (ℤ.pos zero) at rest h = absurd (h refl)
  find_round-on (ℤ.pos (suc d)) at rest h = refl
  find_round-on (negsuc d) at rest h = refl

  find_loop_lem :
      (n at : ℕ)
      → at + n + length b.text ≤ suc (length a.text)
      → Finds a b at (at + n) (find_loop n a b at)
  unfolding find_loop find_round
  find_loop_lem zero at fits = inl (refl, λ i p q. absurd (omega arith))
  find_loop_lem (suc n) at fits = elim (compare_at at (omega arith)) [
    | inl (run, occurs) ↦
        inr (at, rw run refl, omega arith, omega arith, occurs, λ i p q. absurd (omega arith))
    | inr (d, run, nonzero, absent) ↦
        let on = find_round-on d at (find_loop n a b (suc at)) nonzero in
        let none_at : (i : ℕ) (to : ℕ)
            → Nowhere a b (suc at) to
            → at ≤ i
            → i < to
            → ¬ Occurs a b i =
          λ i to rest p q. elim (ℕ_discrete i at) [
            | yes here ↦ rw here absent
            | no later ↦ rest i (omega arith) q
          ] in
        elim (find_loop_lem n (suc at) (omega arith)) [
          | inl (missed, nowhere) ↦
              inl (rw (run, on) missed, λ i p q. none_at i (suc at + n) nowhere p (omega arith))
          | inr (i, found, p, q, occurs, nowhere) ↦ inr (
            i,
            rw (run, on) found,
            omega arith,
            omega arith,
            occurs,
            λ j r s. none_at j i nowhere r s,
          )
        ]
  ]

  none_found : (at : ℕ) → find_loop 0 a b at ≡ some none
  unfolding find_loop
  none_found at = refl

  -- Utf8::find of a zero-free text that is no longer than the zero-free text that is searched, and
  -- lies elsewhere in memory, returns the first place from `at` on where it occurs, and npos if
  -- there is none.
  pub find-Finds :
      (at : ℕ)
      → length b.text ≤ length a.text
      → length a.text < u32_mod
      → Finds a b at (suc (length a.text) - length b.text) (find a b at)
  unfolding find
  find-Finds at short fits =
      let room : sub32 (length a.text) (length b.text) + 1 - at
          ≡ suc (length a.text) - length b.text - at =
        omega arith in
      rw room (elim (Bool-cases (leb at (suc (length a.text) - length b.text))) [
        | inl inside ↦
            let end : at + (suc (length a.text) - length b.text - at)
                ≡ suc (length a.text) - length b.text =
              omega tests in
            rw end at (find_loop_lem (suc (length a.text) - length b.text - at) at (omega tests))
        | inr behind ↦
            let end : suc (length a.text) - length b.text - at ≡ 0 = omega tests in
            rw end (inl (none_found at, λ i p q. absurd (omega tests)))
      ])
