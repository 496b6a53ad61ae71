-- ===== src/Structures/SharedPtr/Plain/Counts.antt =====
-- How many of the pointers of include/structures/shared_ptr.hpp share an object and its count.
use cantos.Prelude.{
  ℕ, zero, suc, ◌+◌, ◌<◌, ◌≤◌, ◌≡◌, refl, List, [], ◌∷◌, ◌==◌, if◌then◌else◌, length, set, arith,
}
use native.Mathlib.Decide.{dec_lt}
use cantos.Structures.SharedPtr.{Pointer, remove}
use cantos.Structures.SharedPtr.Plain.{at}

abbrev pub weight : ℕ → ℕ → Pointer → ℕ
weight r d p = if p.ref == r then (if p.block == d then 1 else 0) else 0

pub count : ℕ → ℕ → List Pointer → ℕ
count r d [] = 0
count r d (p ∷ ps) = weight r d p + count r d ps

pub count-nil : (r d : ℕ) → count r d [] ≡ 0
unfolding count
count-nil r d = refl

pub count-cons :
    (r d : ℕ) (p : Pointer) (ps : List Pointer) → count r d (p ∷ ps) ≡ weight r d p + count r d ps
unfolding count
count-cons r d p ps = refl

weight_le : (r d : ℕ) (p : Pointer) → weight r d p ≤ 1
weight_le r d p = ground arith

pub count-le : (r d : ℕ) (ps : List Pointer) → count r d ps ≤ length ps
unfolding count
count-le r d [] = omega arith
count-le r d (p ∷ ps) = omega (arith, weight_le r d p, count-le r d ps)

pub count-set :
    (r d : ℕ) (ps : List Pointer) (i : ℕ) (x : Pointer)
    → i < length ps
    → count r d (set ps i x) + weight r d (at ps i) ≡ count r d ps + weight r d x
unfolding count
count-set r d [] i x h = absurd (omega arith)
count-set r d (p ∷ ps) zero x h = omega arith
count-set r d (p ∷ ps) (suc i) x h = let rest = count-set r d ps i x (omega arith) in omega arith

pub count-remove :
    (r d : ℕ) (ps : List Pointer) (i : ℕ)
    → i < length ps
    → count r d (remove ps i) + weight r d (at ps i) ≡ count r d ps
unfolding count
count-remove r d [] i h = absurd (omega arith)
count-remove r d (p ∷ ps) zero h = omega arith
count-remove r d (p ∷ ps) (suc i) h = let rest = count-remove r d ps i (omega arith) in omega arith

-- A pointer that exists is counted, and what is counted is a pointer that exists.
pub weight-le-count :
    (r d : ℕ) (ps : List Pointer) (i : ℕ) → i < length ps → weight r d (at ps i) ≤ count r d ps
unfolding count
weight-le-count r d ps i h = omega (arith, count-remove r d ps i h)

pub count-at :
    (r d : ℕ) (ps : List Pointer)
    → 0 < count r d ps
    → (i : ℕ) × (i < length ps) × ((at ps i).ref ≡ r) × ((at ps i).block ≡ d)
unfolding count
count-at r d [] h = absurd (omega arith)
count-at r d (p ∷ ps) h = elim (dec_lt 0 (weight r d p)) [
  | yes here ↦ (0, omega arith, ground arith, ground arith)
  | no away ↦ let (i, lt, e, f) = count-at r d ps (omega arith) in (suc i, omega arith, e, f)
]
