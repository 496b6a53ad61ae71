-- ===== src/Structures/LinkedList/Last.antt =====
-- The operation of the list of include/structures/list.tpp that takes its last value away.
use cantos.Prelude.{
  ℕ, zero, suc, ◌≤◌, ◌≡◌, ◌≢◌, refl, ap, ◌∙◌, true, false, List, [], ◌∷◌, length, Option, none,
  some, ◌==◌, if◌then◌else◌, sub32, arith,
}
use cantos.Structures.LinkedList.{
  Entry, LinkedList, Result, done, and_then, store_at, pop_back, before_tail, read_at,
}
use cantos.Structures.LinkedList.Contents.{
  final, Apart, Distinct, Linked, Contents, store_at_self, store_at_other,
}
use cantos.Structures.LinkedList.Ends.{Apart-final}

-- All but the last of a list.
abbrev pub most : {B : Type 0} → List B → List B
most [] = []
most (x ∷ []) = []
most (x ∷ y ∷ ys) = x ∷ most (y ∷ ys)

Apart-most : (a : ℕ) (ps : List ℕ) → Apart a ps → Apart a (most ps)
Apart-most a [] apart = tt
Apart-most a (p ∷ []) apart = tt
Apart-most a (p ∷ q ∷ ps) (here, apart) = (here, Apart-most a (q ∷ ps) apart)

Distinct-most : (ps : List ℕ) → Distinct ps → Distinct (most ps)
Distinct-most [] distinct = tt
Distinct-most (p ∷ []) distinct = tt
Distinct-most (p ∷ q ∷ ps) (here, distinct) =
    (Apart-most p (q ∷ ps) here, Distinct-most (q ∷ ps) distinct)

length-most : {B : Type 0} (x : B) (xs : List B) → suc (length (most (x ∷ xs))) ≡ length (x ∷ xs)
length-most x [] = refl
length-most x (y ∷ ys) = ap suc (length-most y ys)

module _ {A : Type 0} where
  -- The store behind pop_back: the entry before the last ends the chain, and the last is deleted.
  abbrev cut : ℕ → ℕ → Entry A → (ℕ → Option (Entry A)) → ℕ → Option (Entry A)
  cut t a e s = store_at t none (store_at a (some (record e { next = 0 })) s)

  -- What the loop of pop_back comes to.
  record Cut (fuel : ℕ) (l : LinkedList A) (p : ℕ) (ps : List ℕ) (xs : List A) : Type 0 where
    a : ℕ
    e : Entry A
    run : before_tail fuel l p ≡ done (a, e)
    before : a ≡ final (most ps)
    shorter : Linked (cut l.tail a e l.entries) (most ps) (most xs)

  step_run :
      (fuel : ℕ) (l : LinkedList A) (p : ℕ) (e : Entry A)
      → l.entries p ≡ some e
      → before_tail (suc fuel) l p
        ≡ (if e.next == l.tail then done (p, e) else before_tail fuel l e.next)
  unfolding before_tail
  step_run fuel l p e at_p =
      let read : read_at l p ≡ done e = rw (at_p, read_at) refl in
      ap
        (λ (r : Result A (Entry A)).
          and_then r (λ e'. if e'.next == l.tail then done (p, e') else before_tail fuel l e'.next))
        read

  found_here :
      (fuel : ℕ) (l : LinkedList A) (p q : ℕ) (x : A)
      → l.entries p ≡ some (record { next = q; object = x })
      → l.tail ≡ q
      → before_tail (suc fuel) l p ≡ done (p, record { next = q; object = x })
  found_here fuel l p q x at_p tail =
      let last : (q == q) ≡ true = ground arith in
      rw (step_run fuel l p (record { next = q; object = x }) at_p, tail, last) refl

  found_later :
      (fuel : ℕ) (l : LinkedList A) (p q a : ℕ) (x : A) (e : Entry A)
      → l.entries p ≡ some (record { next = q; object = x })
      → q ≢ l.tail
      → before_tail fuel l q ≡ done (a, e)
      → before_tail (suc fuel) l p ≡ done (a, e)
  found_later fuel l p q a x e at_p not_last run =
      let more : (q == l.tail) ≡ false = ground arith in
      rw (step_run fuel l p (record { next = q; object = x }) at_p, more) run

  before_tail-Cut :
      (fuel : ℕ) (l : LinkedList A) (p q : ℕ) (ps : List ℕ) (x y : A) (xs : List A)
      → Linked l.entries (p ∷ q ∷ ps) (x ∷ y ∷ xs)
      → Distinct (p ∷ q ∷ ps)
      → l.tail ≡ final (q ∷ ps)
      → length (q ∷ ps) ≤ fuel
      → Cut fuel l p (p ∷ q ∷ ps) (x ∷ y ∷ xs)
  before_tail-Cut zero l p q ps x y xs linked distinct tail enough = absurd (omega arith)
  before_tail-Cut (suc fuel) l p q [] x y [] (not_null, at_p, _) ((other, _), _) tail enough =
      let e : Entry A = record { next = q; object = x } in
      let apart : p ≢ l.tail = λ same. other (same ∙ tail) in
      record {
        a = p;
        e = e;
        run = found_here fuel l p q x at_p tail;
        before = refl;
        shorter = (
          not_null,
          rw
              (store_at_other l.tail p none (store_at p (some (record e { next = 0 })) l.entries)
                apart)
              (store_at_self p (some (record e { next = 0 })) l.entries),
          tt,
        );
      }
  before_tail-Cut (suc fuel) l p q [] x y (z ∷ xs) (_, _, (_, _, linked)) distinct tail enough =
      absurd linked
  before_tail-Cut (suc fuel) l p q (r ∷ ps) x y [] (_, _, (_, _, linked)) distinct tail enough =
      absurd linked
  before_tail-Cut (suc fuel) l p q (r ∷ ps) x y (z ∷ xs) (not_null, at_p, linked) (here, distinct)
        tail enough =
      let rest =
        before_tail-Cut fuel l q r ps y z xs linked distinct tail (omega (arith, enough)) in
      let inner : q ≢ l.tail = λ same. Apart-final q r ps distinct.0 (same ∙ tail) in
      let not_last : p ≢ l.tail = λ same. Apart-final p q (r ∷ ps) here (same ∙ tail) in
      let not_before : p ≢ rest.a = λ same.
        Apart-final p q (most (r ∷ ps)) (Apart-most p (q ∷ r ∷ ps) here) (same ∙ rest.before) in
      record {
        a = rest.a;
        e = rest.e;
        run = found_later fuel l p q rest.a x rest.e at_p inner rest.run;
        before = rest.before;
        shorter = (
          not_null,
          rw
              (store_at_other l.tail p none
                (store_at rest.a (some (record rest.e { next = 0 })) l.entries) not_last)
              (rw (store_at_other rest.a p (some (record rest.e { next = 0 })) l.entries not_before)
                at_p),
          rest.shorter,
        );
      }

  one_run :
      (fuel : ℕ) (l : LinkedList A) (p : ℕ)
      → p ≢ 0
      → l.head ≡ p
      → l.tail ≡ p
      → pop_back fuel l
        ≡ done (record {
          head = 0;
          tail = 0;
          count = sub32 l.count 1;
          entries = store_at p none l.entries;
        })
  unfolding pop_back
  one_run fuel l p not_null head tail =
      let something : (p == 0) ≡ false = ground arith in
      let alone : (p == p) ≡ true = ground arith in rw (head, tail, something, alone) refl

  several_run :
      (fuel : ℕ) (l : LinkedList A) (p a : ℕ) (e : Entry A)
      → p ≢ 0
      → p ≢ l.tail
      → l.head ≡ p
      → before_tail fuel l p ≡ done (a, e)
      → pop_back fuel l
        ≡ done (record {
          head = p;
          tail = a;
          count = sub32 l.count 1;
          entries = cut l.tail a e l.entries;
        })
  unfolding pop_back
  several_run fuel l p a e not_null not_last head run =
      let something : (p == 0) ≡ false = ground arith in
      let more : (p == l.tail) ≡ false = ground arith in
      let start : l.head ≡ p = head in simp (start, something, more, run) refl

  -- list::pop_back of a list that is not empty returns, and takes its last value away; the fuel is for
  -- its entries.
  pub pop_back-Contents :
      (fuel : ℕ) (l : LinkedList A) (p : ℕ) (ps : List ℕ) (x : A) (xs : List A)
      → Contents l (p ∷ ps) (x ∷ xs)
      → length ps ≤ fuel
      → (l' : LinkedList A) × (pop_back fuel l ≡ done l')
        × Contents l' (most (p ∷ ps)) (most (x ∷ xs))
  pop_back-Contents fuel l p [] x [] held enough = (
    _,
    one_run fuel l p held.linked.0 held.head held.tail,
    record {
      head = refl;
      tail = refl;
      count = omega (arith, held.count);
      linked = tt;
      distinct = tt;
    },
  )
  pop_back-Contents fuel l p [] x (y ∷ xs) held enough = absurd held.linked.2
  pop_back-Contents fuel l p (q ∷ ps) x [] held enough = absurd held.linked.2
  pop_back-Contents fuel l p (q ∷ ps) x (y ∷ xs) held enough =
      let rest = before_tail-Cut fuel l p q ps x y xs held.linked held.distinct held.tail enough in
      let not_last : p ≢ l.tail = λ same. Apart-final p q ps held.distinct.0 (same ∙ held.tail) in
      (
        _,
        several_run fuel l p rest.a rest.e held.linked.0 not_last held.head rest.run,
        record {
          head = refl;
          tail = rest.before;
          count = omega (arith, held.count, length-most y xs);
          linked = rest.shorter;
          distinct = Distinct-most (p ∷ q ∷ ps) held.distinct;
        },
      )
