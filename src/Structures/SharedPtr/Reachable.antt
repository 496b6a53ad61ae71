-- ===== src/Structures/SharedPtr/Reachable.antt =====
-- Every sequence of the operations of include/structures/shared_ptr.hpp and shared_ptr.tpp on pointers to a
-- type whose destructor changes no pointer to that type.
use cantos.Prelude.{
  ℕ, ◌+◌, ◌<◌, ◌≡◌, ◌≢◌, refl, sym, ap, ◌∙◌, List, [], ◌∷◌, true, length, arith, Option, none, some,
  ◌==◌, if◌then◌else◌, get_elem?,
}
use mathlib.Core.Path.{subst}
use cantos.Structures.SharedPtr.{Pointer, Pointers, Result, done}
use cantos.Structures.SharedPtr.Ops.{Op, perform, Allowed, Reaches, started, later}
use cantos.Structures.SharedPtr.Plain
use cantos.Structures.SharedPtr.Plain.Counts.{count, count-nil, count-cons, count-at}
use cantos.Structures.SharedPtr.Plain.Operations.{IsCounted, at-counted}
use cantos.Structures.SharedPtr.Plain.Steps.{perform_plain-Ends, start_plain, start_plain-IsCounted}
use cantos.Structures.SharedPtr.Plain.Places.{
  slots, embed, embedded, Quiet, length-slots, get_elem?-slots,
}
use cantos.Structures.SharedPtr.Plain.Simulated.{perform-Simulates}

-- The number of places with a pointer to the object at `r` and the block at `d`.
pub count_places : ℕ → ℕ → List (Option Pointer) → ℕ
count_places r d [] = 0
count_places r d (none ∷ rest) = count_places r d rest
count_places r d (some p ∷ rest) =
    let others = count_places r d rest in
    if p.ref == r then (if p.block == d then others + 1 else others) else others

count_places-slots : (r d : ℕ) (ps : List Pointer) → count_places r d (slots ps) ≡ count r d ps
unfolding count_places slots
count_places-slots r d [] = omega (arith, count-nil r d)
count_places-slots r d (p ∷ ps) =
    let rest = count_places-slots r d ps in ground (arith, rest, count-cons r d p ps)

-- Every place has its pointer, and the pointers are counted.
record Plainly (s : Pointers) : Type 0 where
  list : Plain.Pointers
  same : s ≡ embed list
  counted : IsCounted list

-- What the counts promise of the places and the memory.
pub record Tallied (s : Pointers) : Type 0 where
  pub held :
      (i : ℕ)
      → i < length s.vars
      → (p : Pointer) × (get_elem? s.vars i ≡ some (some p))
        × (p.ref ≢ 0
            → (s.memory.live p.ref ≡ true)
              × (s.memory.uses p.block ≡ some (count_places p.ref p.block s.vars)))
  pub no_leak :
      (r : ℕ)
      → s.memory.live r ≡ true
      → (i : ℕ) × (p : Pointer) × (get_elem? s.vars i ≡ some (some p)) × (p.ref ≡ r)

plain-Tallied : (o : Plain.Pointers) → IsCounted o → Tallied (embed o)
plain-Tallied o inv = record {
  held = λ i h.
      let k : i < length o.vars = omega (arith, h, length-slots o.vars) in
      let p = Plain.at o.vars i in
      (
        p,
        get_elem?-slots o.vars i k,
        λ some_p.
            let (used, alive) =
              inv.counted.held p.ref p.block some_p (at-counted o inv i k some_p) in
            (alive, used ∙ ap some (sym (count_places-slots p.ref p.block o.vars))),
      );
  no_leak = λ r alive.
      let (d, nr, q) = inv.counted.no_leak r alive in
      let (i, h, e, f) = count-at r d o.vars q in
      (i, Plain.at o.vars i, get_elem?-slots o.vars i h, e);
}

module _ (destruct : ℕ → Pointers → Result Pointers) (quiet : Quiet destruct) where
  -- An operation that may be done from there on ends there.
  record Goes (op : Op) (s : Pointers) : Type 0 where
    after : Pointers
    run : perform destruct op s ≡ done after
    plainly : Plainly after

  perform-Goes : (op : Op) (s : Pointers) → Plainly s → Allowed destruct op s → Goes op s
  perform-Goes op s plainly allowed =
      let o = plainly.list in
      let here : Allowed destruct op (embed o) = subst (Allowed destruct op) plainly.same allowed in
      let simulates = perform-Simulates destruct quiet op o here in
      let (u, run, counted) = perform_plain-Ends op o plainly.counted simulates.allowed in
      record {
        after = embed u;
        run = ap (perform destruct op) plainly.same ∙ simulates.run ∙ ap embedded run;
        plainly = record { list = u; same = refl; counted = counted };
      }

  Reaches-Plainly : {s : Pointers} → Reaches destruct s → Plainly s
  unfolding slots
  Reaches-Plainly started = record {
    list = start_plain;
    same = refl;
    counted = start_plain-IsCounted;
  }
  Reaches-Plainly (later {s} {t} op before allowed run) =
      let goes = perform-Goes op s (Reaches-Plainly before) allowed in
      let same : goes.after ≡ t = let ends = sym goes.run ∙ run in cc in
      subst Plainly same goes.plainly

  -- In every state that the operations reach from no pointers, the next one ends without a use of
  -- memory that has been freed. The destructor of T changes no pointer to a T, and reset is called for
  -- an object, not for null. A new object or block is at an address that has none, and there are fewer
  -- than 2^32 - 2 places.
  pub Reaches-no_fault :
      (s : Pointers) (op : Op)
      → Reaches destruct s
      → Allowed destruct op s
      → (t : Pointers) × (perform destruct op s ≡ done t)
  Reaches-no_fault s op before allowed =
      let goes = perform-Goes op s (Reaches-Plainly before) allowed in (goes.after, goes.run)

  -- In every state that the operations reach from no pointers, every place has its pointer; one that
  -- is not null has its object, and the count in its block is the number of the pointers to the same;
  -- and an object that is there has a pointer to it, so that none is freed too early and none is lost.
  -- The destructor of T changes no pointer to a T, and reset is called for an object, not for null. A
  -- new object or block is at an address that has none, and there are fewer than 2^32 - 2 places.
  pub Reaches-counted : (s : Pointers) → Reaches destruct s → Tallied s
  Reaches-counted s before =
      let plainly = Reaches-Plainly before in
      subst Tallied (sym plainly.same) (plain-Tallied plainly.list plainly.counted)
