-- ===== src/Structures/SharedPtr/Plain/Reset.antt =====
-- What reset of include/structures/shared_ptr.tpp does to the counts, for a pointer to a new object.
use cantos.Prelude.{
  ℕ, ◌<◌, ◌≡◌, ◌≢◌, inl, inr, refl, sym, Bool, true, false, ◌==◌, if◌then◌else◌, length, set, arith,
  none, some, length-set, ◌∙◌, ap, sub32, Bool-cases, Option-cases,
}
use mathlib.Core.Path.{fun_ext}
use cantos.Structures.SharedPtr.{
  Pointer, Memory, done, fault, and_then, null, is_null, put_uses, put_live,
}
use cantos.Structures.SharedPtr.Plain.{Pointers, at, decrement_usage, decrement, reset}
use cantos.Structures.SharedPtr.Plain.Counts.{count, count-set}
use cantos.Structures.SharedPtr.Plain.Held.{more, Held_same, created}
use cantos.Structures.SharedPtr.Plain.Operations.{
  IsCounted, Ends, release_at, at-counted, weight-null,
}

put_live_comm :
    (r r' : ℕ) (m : Memory)
    → r' ≢ r
    → put_live r' false (put_live r true m) ≡ put_live r true (put_live r' false m)
put_live_comm r r' m apart =
    ap (λ (f : ℕ → Bool). record m { live = f })
      (fun_ext (λ (a : ℕ).
        let e : (if a == r' then false else (if a == r then true else m.live a))
            ≡ (if a == r then true else (if a == r' then false else m.live a)) =
          ground arith in
        e))

-- What decrement_usage does to an object does not depend on another one.
module _ (p : Pointer) (r : ℕ) (m n : Memory) (apart : p.ref ≢ r) where
  decrement-put_live :
      decrement p m ≡ done n → decrement p (put_live r true m) ≡ done (put_live r true n)
  decrement-put_live run = elim (Option-cases (m.uses p.block)) [
    | inl nothing ↦ let bad : fault ≡ done n = rw (decrement, nothing) at run in absurd cc
    | inr (k, there) ↦ elim (Bool-cases (sub32 k 1 == 0)) [
      | inl last ↦ elim (Bool-cases (m.live p.ref)) [
        | inl alive ↦
            let freed : done (put_uses p.block none (put_live p.ref false m)) ≡ done n =
              rw (decrement, there, last, alive) at run in
            let same : put_uses p.block none (put_live p.ref false m) ≡ n = cc in
            let alive' : (put_live r true m).live p.ref ≡ true = ground arith in
            rw (decrement, there, last, alive')
              (ap done (
                ap (put_uses p.block none) (put_live_comm r p.ref m apart)
                ∙ ap (put_live r true) same))
        | inr dead ↦
            let bad : fault ≡ done n = rw (decrement, there, last, dead) at run in absurd cc
      ]
      | inr more_left ↦
          let left : done (put_uses p.block (some (sub32 k 1)) m) ≡ done n =
            rw (decrement, there, more_left) at run in
          let same : put_uses p.block (some (sub32 k 1)) m ≡ n = cc in
          rw (decrement, there, more_left) (ap done (ap (put_live r true) same))
    ]
  ]

  decrement_usage-put_live :
      decrement_usage p m ≡ done n
      → decrement_usage p (put_live r true m) ≡ done (put_live r true n)
  unfolding decrement_usage
  decrement_usage-put_live run = elim (Bool-cases (is_null p)) [
    | inl empty ↦
        let left : done m ≡ done n = rw empty at run in
        let same : m ≡ n = cc in rw empty (ap done (ap (put_live r true) same))
    | inr full ↦
        let left : decrement p m ≡ done n = rw full at run in rw full (decrement-put_live left)
  ]

-- reset of a pointer to an object that has just been made at `r`. The address of the new block is free
-- when it is made, which may be that of the block that the pointer had.
pub reset-Ends :
    (s : Pointers) (i r d : ℕ)
    → IsCounted s
    → i < length s.vars
    → r ≢ 0
    → s.memory.live r ≡ false
    → ((n : Memory) → decrement_usage (at s.vars i) s.memory ≡ done n → n.uses d ≡ none)
    → Ends (reset i r d (record s { memory = put_live r true s.memory }))
unfolding reset
reset-Ends s i r d inv h some_r new_r new_d =
    let p = at s.vars i in
    let q : Pointer = record { ref = r; block = d } in
    let blank = set s.vars i null in
    let after = set s.vars i q in
    let before =
      Held_same (λ a b. count a b s.vars) (more p (λ a b. count a b blank)) s.memory
        (λ a b na. omega (arith, count-set a b s.vars i null h, weight-null a b na)) inv.counted in
    let (n, run, kept) =
      release_at s inv i blank s.memory before (omega (arith, length-set s.vars i null)) in
    let apart : p.ref ≢ r = λ same.
      let some_p : p.ref ≢ 0 = λ e. some_r (sym same ∙ e) in
      let (used, alive) = inv.counted.held p.ref p.block some_p (at-counted s inv i h some_p) in
      let bad : true ≡ false = sym alive ∙ ap s.memory.live same ∙ new_r in cc in
    let still_new : n.live r ≡ false = elim (Bool-cases (n.live r)) [
      | inr dead ↦ dead
      | inl alive ↦
          let (b, nr, q') = kept.no_leak r alive in
          let (used, alive') =
            inv.counted.held r b nr
              (omega (arith, q', count-set r b s.vars i null h, weight-null r b nr)) in
          let bad : true ≡ false = sym alive' ∙ new_r in absurd (cc)
    ] in
    let run' = decrement_usage-put_live p r s.memory n apart run in
    let made = created (λ a b. count a b blank) r d n some_r still_new (new_d n run) kept in
    (
      record { vars = after; memory = put_uses d (some 1) (put_live r true n) },
      rw (run', and_then) refl,
      record {
        counted =
            Held_same (more q (λ a b. count a b blank)) (λ a b. count a b after)
              (put_uses d (some 1) (put_live r true n))
              (λ a b na. omega (
                arith,
                count-set a b s.vars i null h,
                count-set a b s.vars i q h,
                weight-null a b na,
              ))
              made;
        small = omega (arith, inv.small, length-set s.vars i q);
      },
    )
