-- ===== src/Task/Scheduler/Counts.antt =====
-- How often a thread is queued, held by a processor, or marked in src/task/task.cpp.
use cantos.Prelude.{
  ℕ, zero, suc, ◌+◌, ◌≡◌, refl, inl, inr, List, [], ◌∷◌, none, some, ◌==◌, if◌then◌else◌, get_elem?,
  set, arith, Option-cases,
}
use cantos.Task.Scheduler.{Phase, awaiting, entering, running, leaving, pop_back}

abbrev pub occurs : ℕ → List ℕ → ℕ
occurs t [] = 0
occurs t (u ∷ us) = (if u == t then 1 else 0) + occurs t us

abbrev pub enters : ℕ → Phase → ℕ
enters t (entering u) = if u == t then 1 else 0
enters t awaiting = 0
enters t (running u) = 0
enters t (leaving u) = 0

abbrev pub runs : ℕ → Phase → ℕ
runs t (running u) = if u == t then 1 else 0
runs t awaiting = 0
runs t (entering u) = 0
runs t (leaving u) = 0

abbrev pub leaves : ℕ → Phase → ℕ
leaves t (leaving u) = if u == t then 1 else 0
leaves t awaiting = 0
leaves t (running u) = 0
leaves t (entering u) = 0

-- A weight summed up over the processors.
abbrev pub tally : (Phase → ℕ) → List Phase → ℕ
tally w [] = 0
tally w (p ∷ ps) = w p + tally w ps

-- The write of one phase changes the sum by that phase's weight.
pub tally-set :
    (w : Phase → ℕ) (ps : List Phase) (i : ℕ) (p q : Phase)
    → get_elem? ps i ≡ some p
    → tally w (set ps i q) + w p ≡ tally w ps + w q
tally-set w [] i p q h = absurd (cc)
tally-set w (x ∷ ps) zero p q h = let same : x ≡ p = cc in rw same (omega arith)
tally-set w (x ∷ ps) (suc i) p q h = omega (arith, tally-set w ps i p q h)

pop_back-none : (ts : List ℕ) (t : ℕ) → pop_back ts ≡ none → occurs t ts ≡ 0
unfolding pop_back
pop_back-none [] t h = refl
pop_back-none (x ∷ ts) t h = elim (Option-cases (pop_back ts)) [
  | inl last ↦ absurd (let e : some (x, []) ≡ none = rw last at h in cc)
  | inr ((u, us), found) ↦ absurd (let e : some (u, x ∷ us) ≡ none = rw found at h in cc)
]

pub pop_back-occurs :
    (ts : List ℕ) (u : ℕ) (us : List ℕ) (t : ℕ)
    → pop_back ts ≡ some (u, us)
    → occurs t ts ≡ (if u == t then 1 else 0) + occurs t us
unfolding pop_back
pop_back-occurs [] u us t h = absurd (cc)
pop_back-occurs (x ∷ ts) u us t h = elim (Option-cases (pop_back ts)) [
  | inl last ↦
      let e : some (x, []) ≡ some (u, us) = rw last at h in
      let same : x ≡ u = cc in
      let rest : [] ≡ us = cc in rw (← same, ← rest) (omega (arith, pop_back-none ts t last))
  | inr ((v, vs), found) ↦
      let e : some (v, x ∷ vs) ≡ some (u, us) = rw found at h in
      let same : v ≡ u = cc in
      let rest : x ∷ vs ≡ us = cc in
      rw (← same, ← rest) (omega (arith, pop_back-occurs ts v vs t found))
]
