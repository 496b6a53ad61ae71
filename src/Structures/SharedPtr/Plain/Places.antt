-- ===== src/Structures/SharedPtr/Plain/Places.antt =====
-- The operations of include/structures/shared_ptr.hpp and shared_ptr.tpp are those on plain lists of pointers
-- when the destructor of T changes no pointer to a T.
use cantos.Prelude.{
  ℕ, zero, suc, ◌<◌, ◌≡◌, refl, ap, true, false, List, [], ◌∷◌, Option, none, some, ◌==◌, ◌⊎◌, inl,
  inr, if◌then◌else◌, sub32, length, get_elem?, set, arith, Bool-cases, Option-cases,
}
use cantos.Structures.SharedPtr.{
  Pointer, Memory, Result, done, fault, and_then, is_null, put_uses, put_live, remove, Pointers,
  load, store, with_memory, delete_both, decrement, decrement_usage,
}
use cantos.Structures.SharedPtr.Plain

-- Every place has its pointer.
unfoldable pub slots : List Pointer → List (Option Pointer)
slots [] = []
slots (p ∷ ps) = some p ∷ slots ps

abbrev pub embed : Plain.Pointers → Pointers
embed o = record { vars = slots o.vars; memory = o.memory }

abbrev pub embedded : Result Plain.Pointers → Result Pointers
embedded (done o) = done (embed o)
embedded fault = fault

-- The destructor of T changes no pointer to a T, and no count of them.
abbrev pub Quiet : (ℕ → Pointers → Result Pointers) → Type 0
Quiet destruct = (r : ℕ) (s : Pointers) → s.memory.live r ≡ true → destruct r s ≡ done s

pub length-slots : (ps : List Pointer) → length (slots ps) ≡ length ps
unfolding slots
length-slots [] = refl
length-slots (p ∷ ps) = ap suc (length-slots ps)

pub get_elem?-slots :
    (ps : List Pointer) (i : ℕ)
    → i < length ps
    → get_elem? (slots ps) i ≡ some (some (Plain.at ps i))
unfolding slots
get_elem?-slots [] i h = absurd (omega arith)
get_elem?-slots (p ∷ ps) zero h = refl
get_elem?-slots (p ∷ ps) (suc i) h = get_elem?-slots ps i (omega (arith, h))

pub set-slots :
    (ps : List Pointer) (i : ℕ) (p : Pointer) → set (slots ps) i (some p) ≡ slots (set ps i p)
unfolding slots
set-slots [] i p = refl
set-slots (q ∷ ps) zero p = refl
set-slots (q ∷ ps) (suc i) p = ap (λ xs. some q ∷ xs) (set-slots ps i p)

pub remove-slots : (ps : List Pointer) (i : ℕ) → remove (slots ps) i ≡ slots (remove ps i)
unfolding slots
remove-slots [] i = refl
remove-slots (q ∷ ps) zero = refl
remove-slots (q ∷ ps) (suc i) = ap (λ xs. some q ∷ xs) (remove-slots ps i)

pub load-embed :
    (o : Plain.Pointers) (i : ℕ) → i < length o.vars → load i (embed o) ≡ done (Plain.at o.vars i)
load-embed o i h = rw (get_elem?-slots o.vars i h) refl

pub store-embed :
    (o : Plain.Pointers) (i : ℕ) (p : Pointer)
    → i < length o.vars
    → store i p (embed o) ≡ done (embed (record o { vars = set o.vars i p }))
store-embed o i p h = rw (get_elem?-slots o.vars i h, set-slots o.vars i p) refl

pub Result-cases : {A : Type 0} (x : Result A) → (x ≡ fault) ⊎ ((a : A) × (x ≡ done a))
Result-cases (done a) = inr (a, refl)
Result-cases fault = inl refl

-- The count that is written before a delete plays no part behind it.
put_twice :
    (d r : ℕ) (n : Option ℕ) (m : Memory)
    → put_uses d none (put_live r false (put_uses d n m)) ≡ put_uses d none (put_live r false m)
put_twice d r n m =
    let same : (a : ℕ)
        → (if a == d then none else if a == d then n else m.uses a)
          ≡ (if a == d then none else m.uses a) =
      λ a. elim (Bool-cases (a == d)) [ inl here ↦ rw here refl | inr away ↦ rw away refl ] in
    λ k. record { uses = λ a. same a k; live = λ a. if a == r then false else m.live a }

module _ (destruct : ℕ → Pointers → Result Pointers) (quiet : Quiet destruct) where
  -- The deletes, behind the write of the last count.
  delete_both-embed :
      (o : Plain.Pointers) (i n : ℕ)
      → i < length o.vars
      → delete_both destruct i
          (Plain.at o.vars i).ref
          (embed (record o { memory = put_uses (Plain.at o.vars i).block (some n) o.memory }))
        ≡ with_memory (embed o) (Plain.delete_both (Plain.at o.vars i) o.memory)
  delete_both-embed o i n h =
      let p = Plain.at o.vars i in
      let now : Plain.Pointers = record o { memory = put_uses p.block (some n) o.memory } in
      elim (Bool-cases (o.memory.live p.ref)) [
        | inr dead ↦ rw dead refl
        | inl alive ↦
            let left : destruct p.ref (embed now) ≡ done (embed now) =
              quiet p.ref (embed now) alive in
            let self : p.block == p.block ≡ true = ground arith in
            rw
              (
                alive,
                left,
                and_then,
                alive,
                get_elem?-slots o.vars i h,
                self,
                put_twice p.block p.ref (some n) o.memory,
              )
              refl
      ]

  pub decrement_usage-embed :
      (o : Plain.Pointers) (i : ℕ)
      → i < length o.vars
      → decrement_usage destruct i (embed o)
        ≡ with_memory (embed o) (Plain.decrement_usage (Plain.at o.vars i) o.memory)
  unfolding decrement_usage Plain.decrement_usage
  decrement_usage-embed o i h =
      let p = Plain.at o.vars i in
      let d = p.block in
      let here : load i (embed o) ≡ done p = load-embed o i h in
      elim (Bool-cases (is_null p)) [
        | inl empty ↦ rw (decrement_usage, here, empty) refl
        | inr some_p ↦ elim (Option-cases (o.memory.uses d)) [
          | inl no_block ↦
              rw (decrement_usage, here, some_p, decrement, Plain.decrement, no_block) refl
          | inr (n, block) ↦ elim (Bool-cases (sub32 n 1 == 0)) [
            | inr more ↦
                rw (decrement_usage, here, some_p, decrement, Plain.decrement, block, more) refl
            | inl last ↦
                rw (decrement_usage, here, some_p, decrement, Plain.decrement, block, last)
                  (delete_both-embed o i (sub32 n 1) h)
          ]
        ]
      ]
