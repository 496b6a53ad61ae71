-- ===== src/Structures/SharedPtr/Plain/Simulated.antt =====
-- Each operation of include/structures/shared_ptr.hpp and shared_ptr.tpp is the one on plain lists when the
-- destructor of T changes no pointer to a T.
use cantos.Prelude.{
  ℕ, ◌<◌, ◌≡◌, refl, ap, ◌∙◌, true, Bool-cases, some, ◌==◌, inl, inr, length, set, arith,
  length-set,
}
use cantos.Structures.SharedPtr.{
  Result, done, null, put_uses, put_live, retain, Pointers, with_memory, of_raw, make_shared,
  copy_of, moved_from, swap, destroy, assign, move_assign, assign_null, reset,
}
use cantos.Structures.SharedPtr.Plain
use cantos.Structures.SharedPtr.Ops.{
  Op, makes, makes_null, copies, moves, destroys, nulls, assigns, move_assigns, swaps, resets,
  perform, Allowed,
}
use cantos.Structures.SharedPtr.Plain.Places.{
  slots, embed, embedded, Quiet, length-slots, load-embed, store-embed, set-slots, remove-slots,
  Result-cases, decrement_usage-embed,
}
use cantos.Structures.SharedPtr.Plain.Steps.{perform_plain, AllowedPlain}

of_raw-embed : (r d : ℕ) (o : Plain.Pointers) → of_raw r d (embed o) ≡ embed (Plain.of_raw r d o)
unfolding of_raw Plain.of_raw slots
of_raw-embed r d o = elim (Bool-cases (r == 0)) [
  | inl nothing ↦ rw nothing refl
  | inr something ↦ rw something refl
]

copy_of-embed :
    (o : Plain.Pointers) (j : ℕ)
    → j < length o.vars
    → copy_of j (embed o) ≡ embedded (Plain.copy_of j o)
unfolding copy_of Plain.copy_of slots
copy_of-embed o j h =
    let p = Plain.at o.vars j in
    elim (Result-cases (retain p o.memory)) [
      | inl bad ↦ rw (copy_of, Plain.copy_of, load-embed o j h, bad) refl
      | inr (m, good) ↦
          rw
            (
              copy_of,
              Plain.copy_of,
              load-embed o j h,
              good,
              load-embed (record o { memory = m }) j h,
            )
            refl
    ]

moved_from-embed :
    (o : Plain.Pointers) (j : ℕ)
    → j < length o.vars
    → moved_from j (embed o) ≡ done (embed (Plain.moved_from j o))
unfolding moved_from Plain.moved_from slots
moved_from-embed o j h = rw (moved_from, load-embed o j h, set-slots o.vars j null) refl

swap-embed :
    (o : Plain.Pointers) (i j : ℕ)
    → i < length o.vars
    → j < length o.vars
    → swap i j (embed o) ≡ done (embed (Plain.swap i j o))
unfolding swap Plain.swap
swap-embed o i j h k =
    let own = Plain.at o.vars i in
    let other = Plain.at o.vars j in
    let o' : Plain.Pointers = record o { vars = set o.vars j own } in
    let h' : i < length o'.vars = omega (arith, h, length-set o.vars j own) in
    rw (swap, load-embed o j k, load-embed o i h, set-slots o.vars j own, store-embed o' i other h')
      refl

module _ (destruct : ℕ → Pointers → Result Pointers) (quiet : Quiet destruct) where
  destroy-embed :
      (o : Plain.Pointers) (i : ℕ)
      → i < length o.vars
      → destroy destruct i (embed o) ≡ embedded (Plain.destroy i o)
  unfolding destroy Plain.destroy
  destroy-embed o i h = elim (Result-cases (Plain.decrement_usage (Plain.at o.vars i) o.memory)) [
    | inl bad ↦ rw (destroy, Plain.destroy, decrement_usage-embed destruct quiet o i h, bad) refl
    | inr (m, good) ↦
        rw
          (
            destroy,
            Plain.destroy,
            decrement_usage-embed destruct quiet o i h,
            good,
            remove-slots o.vars i,
          )
          refl
  ]

  assign_null-embed :
      (o : Plain.Pointers) (i : ℕ)
      → i < length o.vars
      → assign_null destruct i (embed o) ≡ embedded (Plain.assign_null i o)
  unfolding assign_null Plain.assign_null
  assign_null-embed o i h =
      elim (Result-cases (Plain.decrement_usage (Plain.at o.vars i) o.memory)) [
        | inl bad ↦
            rw (assign_null, Plain.assign_null, decrement_usage-embed destruct quiet o i h, bad)
              refl
        | inr (m, good) ↦
            rw
              (
                assign_null,
                Plain.assign_null,
                decrement_usage-embed destruct quiet o i h,
                good,
                store-embed (record o { memory = m }) i null h,
              )
              refl
      ]

  reset-embed :
      (o : Plain.Pointers) (i r d : ℕ)
      → i < length o.vars
      → reset destruct i r d (embed o) ≡ embedded (Plain.reset i r d o)
  unfolding reset Plain.reset
  reset-embed o i r d h = elim (Result-cases (Plain.decrement_usage (Plain.at o.vars i) o.memory)) [
    | inl bad ↦ rw (reset, Plain.reset, decrement_usage-embed destruct quiet o i h, bad) refl
    | inr (m, good) ↦
        rw
          (
            reset,
            Plain.reset,
            decrement_usage-embed destruct quiet o i h,
            good,
            store-embed (record o { memory = put_uses d (some 1) m }) i
                (record { ref = r; block = d }) h,
          )
          refl
  ]

  move_assign-embed :
      (o : Plain.Pointers) (i j : ℕ)
      → i < length o.vars
      → j < length o.vars
      → move_assign destruct i j (embed o) ≡ embedded (Plain.move_assign i j o)
  unfolding move_assign Plain.move_assign
  move_assign-embed o i j h k =
      elim (Result-cases (Plain.decrement_usage (Plain.at o.vars i) o.memory)) [
        | inl bad ↦
            rw (move_assign, Plain.move_assign, decrement_usage-embed destruct quiet o i h, bad)
              refl
        | inr (m, good) ↦
            let p = Plain.at o.vars j in
            let o1 : Plain.Pointers = record o { memory = m } in
            let o2 : Plain.Pointers = record o1 { vars = set o.vars i p } in
            let k' : j < length o2.vars = omega (arith, k, length-set o.vars i p) in
            rw
              (
                move_assign,
                Plain.move_assign,
                decrement_usage-embed destruct quiet o i h,
                good,
                load-embed o1 j k,
                store-embed o1 i p h,
                store-embed o2 j null k',
              )
              refl
      ]

  assign-embed :
      (o : Plain.Pointers) (i j : ℕ)
      → i < length o.vars
      → j < length o.vars
      → assign destruct i j (embed o) ≡ embedded (Plain.assign i j o)
  unfolding assign Plain.assign
  assign-embed o i j h k =
      let p = Plain.at o.vars j in
      elim (Result-cases (retain p o.memory)) [
        | inl bad ↦ rw (assign, Plain.assign, load-embed o j k, bad) refl
        | inr (m, good) ↦
            let o1 : Plain.Pointers = record o { memory = m } in
            elim (Result-cases (Plain.decrement_usage (Plain.at o.vars i) m)) [
              | inl bad ↦
                  rw
                    (
                      assign,
                      Plain.assign,
                      load-embed o j k,
                      good,
                      decrement_usage-embed destruct quiet o1 i h,
                      bad,
                    )
                    refl
              | inr (n, fine) ↦
                  let o2 : Plain.Pointers = record o { memory = n } in
                  rw
                    (
                      assign,
                      Plain.assign,
                      load-embed o j k,
                      good,
                      decrement_usage-embed destruct quiet o1 i h,
                      fine,
                      load-embed o2 j k,
                      store-embed o2 i p h,
                    )
                    refl
            ]
      ]

  -- An operation that may be done may be done on the plain list, and does the same there.
  pub record Simulates (op : Op) (o : Plain.Pointers) : Type 0 where
    pub allowed : AllowedPlain op o
    pub run : perform destruct op (embed o) ≡ embedded (perform_plain op o)

  pub perform-Simulates :
      (op : Op) (o : Plain.Pointers) → Allowed destruct op (embed o) → Simulates op o
  unfolding make_shared Plain.make_shared
  perform-Simulates (makes r d) o (some_r, new_r, new_d, room) = record {
    allowed = (some_r, new_r, new_d, omega (arith, room, length-slots o.vars));
    run = ap done (of_raw-embed r d (record o { memory = put_live r true o.memory }));
  }
  perform-Simulates (makes_null d) o room = record {
    allowed = omega (arith, room, length-slots o.vars);
    run = ap done (of_raw-embed 0 d o);
  }
  perform-Simulates (copies j) o (h, room) =
      let k : j < length o.vars = omega (arith, h, length-slots o.vars) in
      record { allowed = (k, omega (arith, room, length-slots o.vars)); run = copy_of-embed o j k }
  perform-Simulates (moves j) o (h, room) =
      let k : j < length o.vars = omega (arith, h, length-slots o.vars) in
      record {
        allowed = (k, omega (arith, room, length-slots o.vars));
        run = moved_from-embed o j k;
      }
  perform-Simulates (destroys i) o h =
      let k : i < length o.vars = omega (arith, h, length-slots o.vars) in
      record { allowed = k; run = destroy-embed o i k }
  perform-Simulates (nulls i) o h =
      let k : i < length o.vars = omega (arith, h, length-slots o.vars) in
      record { allowed = k; run = assign_null-embed o i k }
  perform-Simulates (assigns i j) o (h, h') =
      let k : i < length o.vars = omega (arith, h, length-slots o.vars) in
      let k' : j < length o.vars = omega (arith, h', length-slots o.vars) in
      record { allowed = (k, k'); run = assign-embed o i j k k' }
  perform-Simulates (move_assigns i j) o (h, h') =
      let k : i < length o.vars = omega (arith, h, length-slots o.vars) in
      let k' : j < length o.vars = omega (arith, h', length-slots o.vars) in
      record { allowed = (k, k'); run = move_assign-embed o i j k k' }
  perform-Simulates (swaps i j) o (h, h') =
      let k : i < length o.vars = omega (arith, h, length-slots o.vars) in
      let k' : j < length o.vars = omega (arith, h', length-slots o.vars) in
      record { allowed = (k, k'); run = swap-embed o i j k k' }
  perform-Simulates (resets i r d) o (h, some_r, new_r, new_d) =
      let k : i < length o.vars = omega (arith, h, length-slots o.vars) in
      record {
        allowed = (
          k,
          some_r,
          new_r,
          λ n run.
              new_d (embed (record o { memory = n }))
                (decrement_usage-embed destruct quiet o i k ∙ ap (with_memory (embed o)) run),
        );
        run = reset-embed (record o { memory = put_live r true o.memory }) i r d k;
      }
