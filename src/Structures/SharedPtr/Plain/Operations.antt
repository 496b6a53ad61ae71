-- ===== src/Structures/SharedPtr/Plain/Operations.antt =====
-- What the operations of include/structures/shared_ptr.hpp and shared_ptr.tpp do to the counts.
use cantos.Prelude.{
  ℕ, zero, suc, ◌+◌, ◌<◌, ◌≤◌, ◌≡◌, ◌≢◌, refl, List, [], ◌∷◌, true, false, ◌==◌, length, set, arith,
  none, some, u32_mod, get_or-set_self, get_or-set_ne, length-set, ◌∙◌, ap,
}
use native.Mathlib.Decide.{ℕ_discrete}
use cantos.Structures.SharedPtr.{
  Pointer, Memory, Result, done, and_then, null, remove, retain, put_uses, put_live,
}
use cantos.Structures.SharedPtr.Plain.{
  Pointers, at, decrement_usage, of_raw, make_shared, copy_of, moved_from, destroy, assign,
  move_assign, assign_null, swap,
}
use cantos.Structures.SharedPtr.Plain.Counts.{
  count-cons, weight, count, count-le, count-set, count-remove, weight-le-count,
}
use cantos.Structures.SharedPtr.Plain.Held.{Held, more, Held_same, created, retain_lem, release_lem}

-- The memory in step with the pointers that exist; these are fewer than 2^32 - 1.
pub record IsCounted (s : Pointers) : Type 0 where
  pub counted : Held (λ r d. count r d s.vars) s.memory
  pub small : length s.vars + 1 < u32_mod

-- A command that ends, with the counts in step.
abbrev pub Ends : Result Pointers → Type 0
Ends m = (t : Pointers) × (m ≡ done t) × IsCounted t

pub weight-null : (r d : ℕ) → r ≢ 0 → weight r d null ≡ 0
weight-null r d some_r = ground arith

pub length-remove : (ps : List Pointer) (i : ℕ) → length (remove ps i) ≤ length ps
length-remove [] i = omega arith
length-remove (p ∷ ps) zero = omega arith
length-remove (p ∷ ps) (suc i) = omega (arith, length-remove ps i)

at-set : (ps : List Pointer) (i j : ℕ) → i < length ps → at (set ps i (at ps j)) j ≡ at ps j
at-set ps i j h = elim (ℕ_discrete i j) [
  | yes same ↦ rw same (get_or-set_self ps j (at ps j) null (omega arith))
  | no other ↦ get_or-set_ne ps (at ps j) null other
]

module _ (s : Pointers) (inv : IsCounted s) where
  abbrev pub here : ℕ → ℕ → ℕ
  here r d = count r d s.vars

  -- A pointer that is not null points to an object that is there, and counts itself.
  pub at-counted :
      (i : ℕ)
      → i < length s.vars
      → (at s.vars i).ref ≢ 0
      → 0 < here (at s.vars i).ref (at s.vars i).block
  at-counted i h some_p =
      let p = at s.vars i in let w = weight-le-count p.ref p.block s.vars i h in ground arith

  retain_at :
      (j : ℕ)
      → j < length s.vars
      → (n : Memory) × (retain (at s.vars j) s.memory ≡ done n) × Held (more (at s.vars j) here) n
  retain_at j h =
      let p = at s.vars j in
      retain_lem here p s.memory inv.counted (at-counted j h)
        (omega (arith, count-le p.ref p.block s.vars, inv.small))

  -- A pointer gives its reference up, and others are left.
  pub release_at :
      (i : ℕ) (ps : List Pointer) (m : Memory)
      → Held (more (at s.vars i) (λ r d. count r d ps)) m
      → length ps ≤ length s.vars
      → (n : Memory) × (decrement_usage (at s.vars i) m ≡ done n) × Held (λ r d. count r d ps) n
  release_at i ps m h few =
      let p = at s.vars i in
      release_lem (λ r d. count r d ps) p m h
        (omega (arith, count-le p.ref p.block ps, inv.small, few))

  pub copy_of-Ends : (j : ℕ) → j < length s.vars → length s.vars + 2 < u32_mod → Ends (copy_of j s)
  unfolding copy_of
  copy_of-Ends j h few =
      let (n, run, kept) = retain_at j h in
      (
        record { vars = at s.vars j ∷ s.vars; memory = n },
        rw (run, and_then) refl,
        record {
          counted =
              Held_same (more (at s.vars j) here) (λ r d. count r d (at s.vars j ∷ s.vars)) n
                (λ r d nr. count-cons r d (at s.vars j) s.vars) kept;
          small = omega (arith, few);
        },
      )

  pub destroy-Ends : (i : ℕ) → i < length s.vars → Ends (destroy i s)
  unfolding destroy
  destroy-Ends i h =
      let before =
        Held_same here (more (at s.vars i) (λ r d. count r d (remove s.vars i))) s.memory
          (λ r d nr. omega (arith, count-remove r d s.vars i h)) inv.counted in
      let (n, run, kept) =
        release_at i (remove s.vars i) s.memory before (length-remove s.vars i) in
      (
        record { vars = remove s.vars i; memory = n },
        rw (run, and_then) refl,
        record { counted = kept; small = omega (arith, inv.small, length-remove s.vars i) },
      )

  pub assign-Ends : (i j : ℕ) → i < length s.vars → j < length s.vars → Ends (assign i j s)
  unfolding assign
  assign-Ends i j h k =
      let p = at s.vars j in
      let after = set s.vars i p in
      let (m, run, taken) = retain_at j k in
      let before =
        Held_same (more p here) (more (at s.vars i) (λ r d. count r d after)) m
          (λ r d nr. omega (arith, count-set r d s.vars i p h)) taken in
      let (n, run', kept) = release_at i after m before (omega (arith, length-set s.vars i p)) in
      (
        record { vars = after; memory = n },
        rw (run, and_then, run') refl,
        record { counted = kept; small = omega (arith, inv.small, length-set s.vars i p) },
      )

  pub assign_null-Ends : (i : ℕ) → i < length s.vars → Ends (assign_null i s)
  unfolding assign_null
  assign_null-Ends i h =
      let after = set s.vars i null in
      let before =
        Held_same here (more (at s.vars i) (λ r d. count r d after)) s.memory
          (λ r d nr. omega (arith, count-set r d s.vars i null h, weight-null r d nr))
          inv.counted in
      let (n, run, kept) =
        release_at i after s.memory before (omega (arith, length-set s.vars i null)) in
      (
        record { vars = after; memory = n },
        rw (run, and_then) refl,
        record { counted = kept; small = omega (arith, inv.small, length-set s.vars i null) },
      )

  -- The pointers after one has been made the value of another, which is then null.
  given : ℕ → ℕ → List Pointer
  given i j = set (set s.vars i (at s.vars j)) j null

  length-given : (i j : ℕ) → length (given i j) ≡ length s.vars
  unfolding given
  length-given i j =
      length-set (set s.vars i (at s.vars j)) j null ∙ length-set s.vars i (at s.vars j)

  count-given :
      (i j : ℕ)
      → i < length s.vars
      → j < length s.vars
      → (r d : ℕ) → r ≢ 0
      → weight r d (at s.vars i) + count r d (given i j) ≡ count r d s.vars
  unfolding given
  count-given i j h k r d nr =
      let mid = set s.vars i (at s.vars j) in
      let same = ap (weight r d) (at-set s.vars i j h) in
      let first = count-set r d s.vars i (at s.vars j) h in
      let second = count-set r d mid j null (omega (arith, length-set s.vars i (at s.vars j), k)) in
      omega (arith, same, first, second, weight-null r d nr)

  pub move_assign-Ends :
      (i j : ℕ) → i < length s.vars → j < length s.vars → Ends (move_assign i j s)
  unfolding move_assign given
  move_assign-Ends i j h k =
      let before =
        Held_same here (more (at s.vars i) (λ r d. count r d (given i j))) s.memory
          (count-given i j h k) inv.counted in
      let (n, run, kept) =
        release_at i (given i j) s.memory before (omega (arith, length-given i j)) in
      (
        record { vars = given i j; memory = n },
        rw (run, and_then) refl,
        record { counted = kept; small = omega (arith, inv.small, length-given i j) },
      )

  pub moved_from-IsCounted :
      (j : ℕ) → j < length s.vars → length s.vars + 2 < u32_mod → IsCounted (moved_from j s)
  unfolding moved_from
  moved_from-IsCounted j h few =
      let p = at s.vars j in
      record {
        counted =
            Held_same here (λ r d. count r d (p ∷ set s.vars j null)) s.memory
              (λ r d nr. omega (
                arith,
                count-cons r d p (set s.vars j null),
                count-set r d s.vars j null h,
                weight-null r d nr,
              ))
              inv.counted;
        small = omega (arith, few, length-set s.vars j null);
      }

  pub swap-IsCounted : (i j : ℕ) → i < length s.vars → j < length s.vars → IsCounted (swap i j s)
  unfolding swap
  swap-IsCounted i j h k =
      let mid = set s.vars j (at s.vars i) in
      let size = length-set s.vars j (at s.vars i) in
      record {
        counted =
            Held_same here (λ r d. count r d (set mid i (at s.vars j))) s.memory
              (λ r d nr.
                let same = ap (weight r d) (at-set s.vars j i k) in
                let first = count-set r d s.vars j (at s.vars i) k in
                let second = count-set r d mid i (at s.vars j) (omega (arith, size, h)) in
                omega (arith, same, first, second))
              inv.counted;
        small = omega (arith, inv.small, size, length-set mid i (at s.vars j));
      }

  pub of_raw-null : (d : ℕ) → length s.vars + 2 < u32_mod → IsCounted (of_raw 0 d s)
  unfolding of_raw
  of_raw-null d few =
      let p : Pointer = record { ref = 0; block = d } in
      record {
        counted =
            Held_same here (λ r d'. count r d' (p ∷ s.vars)) s.memory
              (λ r d' nr.
                let no : weight r d' p ≡ 0 = ground arith in
                omega (arith, count-cons r d' p s.vars))
              inv.counted;
        small = omega (arith, few);
      }

  pub make_shared-IsCounted :
      (r d : ℕ)
      → r ≢ 0
      → s.memory.live r ≡ false
      → s.memory.uses d ≡ none
      → length s.vars + 2 < u32_mod
      → IsCounted (make_shared r d s)
  unfolding make_shared of_raw
  make_shared-IsCounted r d some_r new_r new_d few =
      let p : Pointer = record { ref = r; block = d } in
      let test : (r == 0) ≡ false = ground arith in
      let kept = created here r d s.memory some_r new_r new_d inv.counted in
      let made : IsCounted
          (record { vars = p ∷ s.vars; memory = put_uses d (some 1) (put_live r true s.memory) }) =
        record {
          counted =
              Held_same (more p here) (λ r' d'. count r' d' (p ∷ s.vars))
                (put_uses d (some 1) (put_live r true s.memory))
                (λ r' d' nr. count-cons r' d' p s.vars) kept;
          small = omega (arith, few);
        } in
      rw test made
