-- ===== src/Structures/Utf8/Compare.antt =====
-- What the comparisons of src/structures/utf8.cpp decide.
use cantos.Prelude.{
  ℤ, ℕ, zero, suc, ◌+◌, ◌≤◌, ◌<◌, ◌≡◌, ◌≢◌, refl, inl, inr, ◌⊎◌, true, false, List, [], ◌∷◌, none,
  some, ltb, ◌==◌, length, arith, tests, Bool-cases,
}
use native.Mathlib.Decide.{ℕ_discrete}
use cantos.Structures.Utf8.{
  Utf8, char_at, char_diff, differ_at, differ, compare_length, compare_result, compare_part,
  compare, equal_from, equal,
}

-- A string of bytes with no terminator among them.
abbrev pub IsText : List ℕ → Type 0
IsText [] = Unit {0}
IsText (c ∷ cs) = (0 < c) × (c < 256) × IsText cs

pub char_at_lt :
    (a : List ℕ) (i : ℕ) → IsText a → i ≤ length a → (c : ℕ) × (char_at a i ≡ some c) × (c < 256)
unfolding char_at
char_at_lt [] zero t h = (0, refl, omega arith)
char_at_lt [] (suc i) t h = absurd (omega arith)
char_at_lt (c ∷ cs) zero t h = (c, refl, t.1)
char_at_lt (c ∷ cs) (suc i) t h = char_at_lt cs i t.2 (omega arith)

char_diff_ne : (c d : ℕ) → c < 256 → d < 256 → c ≢ d → char_diff c d ≢ ℤ.pos 0
unfolding char_diff
char_diff_ne c d p q ne = ground arith

-- The two texts agree in the rounds from `k` on, `n` of them.
abbrev pub Agree : List ℕ → ℕ → List ℕ → ℕ → ℕ → ℕ → Type 0
Agree a i b j n k = (m : ℕ) → k ≤ m → m < k + n → char_at a (i + m) ≡ char_at b (j + m)

-- Where they do not, and what is found there.
abbrev pub Differs : List ℕ → ℕ → List ℕ → ℕ → ℕ → ℕ → Type 0
Differs a i b j n k =
    (d : ℤ) × (differ a i b j n k ≡ some (some d))
    × (d ≢ ℤ.pos 0)
    × ((m : ℕ) × (k ≤ m) × (m < k + n) × (char_at a (i + m) ≢ char_at b (j + m)))

pub differ_lem :
    (a : List ℕ) (i : ℕ) (b : List ℕ) (j n k : ℕ)
    → IsText a
    → IsText b
    → i + (k + n) ≤ length a
    → j + (k + n) ≤ length b
    → ((differ a i b j n k ≡ some none) × Agree a i b j n k) ⊎ Differs a i b j n k
unfolding differ differ_at
differ_lem a i b j zero k t u p q = inl (refl, λ m l h. absurd (omega arith))
differ_lem a i b j (suc n) k t u p q =
    let (c, at_a, small_c) = char_at_lt a (i + k) t (omega arith) in
    let (d, at_b, small_d) = char_at_lt b (j + k) u (omega arith) in
    elim (ℕ_discrete c d) [
      | yes same ↦ elim (differ_lem a i b j n (suc k) t u (omega arith) (omega arith)) [
        | inl (run, agree) ↦
            let eq : (c == d) ≡ true = ground arith in
            inl (
              rw (at_a, at_b, eq) run,
              λ m l h. elim (ℕ_discrete m k) [
                | yes here ↦ rw (here, at_a, at_b, same) refl
                | no later ↦ agree m (omega arith) (omega arith)
              ],
            )
        | inr (e, run, nonzero, (m, l, h, ne)) ↦
            let eq : (c == d) ≡ true = ground arith in
            inr (e, rw (at_a, at_b, eq) run, nonzero, (m, omega arith, omega arith, ne))
      ]
      | no other ↦
          let eq : (c == d) ≡ false = ground arith in
          inr (
            char_diff c d,
            rw (at_a, at_b, eq) refl,
            char_diff_ne c d small_c small_d other,
            (k, omega arith, omega arith, rw (at_a, at_b) (λ e. other (cc))),
          )
    ]

texts-eq :
    (a b : List ℕ)
    → length a ≡ length b
    → ((m : ℕ) → m < length a → char_at a m ≡ char_at b m)
    → a ≡ b
unfolding char_at
texts-eq [] [] l h = refl
texts-eq [] (d ∷ b) l h = absurd (omega arith)
texts-eq (c ∷ a) [] l h = absurd (omega arith)
texts-eq (c ∷ a) (d ∷ b) l h =
    let rest = texts-eq a b (omega arith) (λ m p. h (suc m) (omega arith)) in
    let first = h 0 (omega arith) in cc

compare_length-zero : (m n : ℕ) → compare_length m n ≡ ℤ.pos 0 → m ≡ n
unfolding compare_length
compare_length-zero m n h = ground arith

compare_zero :
    (a b : Utf8)
    → IsText a.text
    → IsText b.text
    → (a.string ≡ b.string → a.text ≡ b.text)
    → compare a b ≡ some (ℤ.pos 0)
    → a.text ≡ b.text
unfolding compare compare_part compare_result
compare_zero a b t u same h = elim (Bool-cases (a.string == b.string)) [
  | inl shared ↦ same (ground arith)
  | inr apart ↦ elim (Bool-cases (ltb (length b.text) (length a.text))) [
    | inl longer ↦
        elim (differ_lem a.text 0 b.text 0 (length b.text) 0 t u (ground arith) (ground arith)) [
          | inl (run, agree) ↦
              let z : some (compare_length (length a.text) (length b.text)) ≡ some (ℤ.pos 0) =
                rw (apart, longer, run) at h in
              absurd (omega (tests, compare_length-zero (length a.text) (length b.text) (cc)))
          | inr (d, run, nonzero, rest) ↦
              let z : some d ≡ some (ℤ.pos 0) = rw (apart, longer, run) at h in
              absurd (nonzero (cc))
        ]
    | inr short ↦
        elim (differ_lem a.text 0 b.text 0 (length a.text) 0 t u (ground arith) (ground arith)) [
          | inl (run, agree) ↦
              let z : some (compare_length (length a.text) (length b.text)) ≡ some (ℤ.pos 0) =
                rw (apart, short, run) at h in
              texts-eq a.text b.text (compare_length-zero (length a.text) (length b.text) (cc))
                (λ m p.
                  let start : 0 + m ≡ m = omega arith in
                  rw start at (agree m (omega arith) (omega arith)))
          | inr (d, run, nonzero, rest) ↦
              let z : some d ≡ some (ℤ.pos 0) = rw (apart, short, run) at h in absurd (nonzero (cc))
        ]
  ]
]

compare_self : (a b : Utf8) → IsText a.text → a.text ≡ b.text → compare a b ≡ some (ℤ.pos 0)
unfolding compare compare_part compare_result compare_length
compare_self a b t same = elim (Bool-cases (a.string == b.string)) [
  | inl shared ↦ rw shared refl
  | inr apart ↦
      elim (differ_lem a.text 0 a.text 0 (length a.text) 0 t t (omega arith) (omega arith)) [
        | inl (run, agree) ↦
            let even : ltb (length a.text) (length a.text) ≡ false = ground arith in
            rw (apart, ← same, even, run, even) refl
        | inr (d, run, nonzero, (m, l, h, ne)) ↦ absurd (ne refl)
      ]
]

equal_from-eq : (a b : List ℕ) → IsText a → IsText b → equal_from a b ≡ true → a ≡ b
unfolding equal_from
equal_from-eq [] [] t u h = refl
equal_from-eq [] (d ∷ b) t u h = absurd (ground arith)
equal_from-eq (c ∷ a) [] t u h = absurd (ground arith)
equal_from-eq (c ∷ a) (d ∷ b) t u h = ground (arith, equal_from-eq a b t.2 u.2)

equal_from_self : (a : List ℕ) → equal_from a a ≡ true
unfolding equal_from
equal_from_self [] = refl
equal_from_self (c ∷ a) = ground (arith, equal_from_self a)

-- For two zero-free texts that are equal where they are the same string in memory, compare returns zero
-- exactly if the texts are equal, and operator== returns true exactly then.
pub compare-equal :
    (a b : Utf8)
    → IsText a.text
    → IsText b.text
    → (a.string ≡ b.string → a.text ≡ b.text)
    → ((compare a b ≡ some (ℤ.pos 0) → a.text ≡ b.text)
        × (a.text ≡ b.text → compare a b ≡ some (ℤ.pos 0)))
      × ((equal a b ≡ true → a.text ≡ b.text) × (a.text ≡ b.text → equal a b ≡ true))
unfolding equal
compare-equal a b t u same = (
  (compare_zero a b t u same, compare_self a b t),
  (
    λ h. ground (arith, same, equal_from-eq a.text b.text t u),
    λ e. rw (← e) (ground (arith, equal_from_self a.text)),
  ),
)
