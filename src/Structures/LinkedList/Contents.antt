-- ===== src/Structures/LinkedList/Contents.antt =====
-- What the list of include/structures/list.hpp holds, and its operations at the front.
use cantos.Prelude.{
  ℕ, ◌%◌, ◌≡◌, ◌≢◌, refl, sym, true, false, List, [], ◌∷◌, length, Option, none, some, ◌==◌,
  if◌then◌else◌, add32, sub32, u32_mod, arith,
}
use cantos.Structures.LinkedList.{Entry, LinkedList, done, store_at, push_front, pop_front}

abbrev pub first : List ℕ → ℕ
first [] = 0
first (p ∷ ps) = p

abbrev pub final : List ℕ → ℕ
final [] = 0
final (p ∷ []) = p
final (p ∷ q ∷ ps) = final (q ∷ ps)

abbrev pub Apart : ℕ → List ℕ → Type 0
Apart a [] = Unit {0}
Apart a (p ∷ ps) = (a ≢ p) × Apart a ps

abbrev pub Distinct : List ℕ → Type 0
Distinct [] = Unit {0}
Distinct (p ∷ ps) = Apart p ps × Distinct ps

module _ {A : Type 0} where
  -- The entries at some addresses form a chain with some values.
  abbrev pub Linked : (ℕ → Option (Entry A)) → List ℕ → List A → Type 0
  Linked s [] [] = Unit {0}
  Linked s [] (x ∷ xs) = ⊥
  Linked s (p ∷ ps) [] = ⊥
  Linked s (p ∷ ps) (x ∷ xs) =
      (p ≢ 0) × (s p ≡ some (record { next = first ps; object = x })) × Linked s ps xs

  -- A list holds some values, in entries at some addresses.
  pub record Contents (l : LinkedList A) (ps : List ℕ) (xs : List A) : Type 0 where
    pub head : l.head ≡ first ps
    pub tail : l.tail ≡ final ps
    pub count : l.count ≡ length xs % u32_mod
    pub linked : Linked l.entries ps xs
    pub distinct : Distinct ps

  pub store_at_self :
      (a : ℕ) (e : Option (Entry A)) (s : ℕ → Option (Entry A)) → store_at a e s a ≡ e
  store_at_self a e s = let same : (a == a) ≡ true = ground arith in rw same refl

  pub store_at_other :
      (a b : ℕ) (e : Option (Entry A)) (s : ℕ → Option (Entry A)) → b ≢ a → store_at a e s b ≡ s b
  store_at_other a b e s apart = let other : (b == a) ≡ false = ground arith in rw other refl

  pub Linked-put :
      (a : ℕ) (e : Option (Entry A)) (s : ℕ → Option (Entry A)) (ps : List ℕ) (xs : List A)
      → Apart a ps
      → Linked s ps xs
      → Linked (store_at a e s) ps xs
  Linked-put a e s [] [] apart linked = tt
  Linked-put a e s [] (x ∷ xs) apart linked = linked
  Linked-put a e s (p ∷ ps) [] apart linked = linked
  Linked-put a e s (p ∷ ps) (x ∷ xs) (here, apart) (some_p, at_p, linked) = (
    some_p,
    rw (store_at_other a p e s (λ same. here (sym same))) at_p,
    Linked-put a e s ps xs apart linked,
  )

  -- list::push_front puts a value in front of those of the list. The new entry is at an address of
  -- its own, which is not 0.
  pub push_front-Contents :
      (l : LinkedList A) (ps : List ℕ) (xs : List A) (at : ℕ) (v : A)
      → Contents l ps xs
      → at ≢ 0
      → Apart at ps
      → Contents (push_front at v l) (at ∷ ps) (v ∷ xs)
  unfolding push_front
  push_front-Contents l [] [] at v held not_null apart =
      let nothing : (l.head == 0) ≡ true = ground (arith, held.head) in
      let one : add32 l.count 1 ≡ 1 = omega (arith, held.count) in
      rw nothing (record {
        head = refl;
        tail = refl;
        count = one;
        linked = (not_null, store_at_self at _ l.entries, tt);
        distinct = (tt, tt);
      })
  push_front-Contents l [] (x ∷ xs) at v held not_null apart = absurd held.linked
  push_front-Contents l (p ∷ ps) [] at v held not_null apart = absurd held.linked
  push_front-Contents l (p ∷ ps) (x ∷ xs) at v held not_null apart =
      let something : (l.head == 0) ≡ false = ground (arith, held.head, held.linked.0) in
      let old : l.head ≡ p = held.head in
      rw something (record {
        head = refl;
        tail = held.tail;
        count = omega (arith, held.count);
        linked = (
          not_null,
          rw (store_at_self at (some (record { next = l.head; object = v })) l.entries, old) refl,
          Linked-put at _ l.entries (p ∷ ps) (x ∷ xs) apart held.linked,
        );
        distinct = (apart, held.distinct);
      })

  front_run :
      (l : LinkedList A) (p q : ℕ) (x : A)
      → l.head ≡ p
      → p ≢ 0
      → l.entries p ≡ some (record { next = q; object = x })
      → pop_front l
        ≡ done (record {
          head = q;
          tail = if q == 0 then 0 else l.tail;
          count = sub32 l.count 1;
          entries = store_at p none l.entries;
        })
  unfolding pop_front
  front_run l p q x head not_null at_p =
      let something : (p == 0) ≡ false = ground arith in rw (head, something, at_p) refl

  popped_tail :
      (t p : ℕ) (ps : List ℕ) (s : ℕ → Option (Entry A)) (xs : List A)
      → t ≡ final (p ∷ ps)
      → Linked s ps xs
      → (if first ps == 0 then 0 else t) ≡ final ps
  popped_tail t p [] s xs tail linked = refl
  popped_tail t p (q ∷ ps) s [] tail linked = absurd linked
  popped_tail t p (q ∷ ps) s (x ∷ xs) tail (not_null, _, _) =
      let something : (q == 0) ≡ false = ground arith in rw something tail

  -- list::pop_front of a list that is not empty takes its first value away.
  pub pop_front-Contents :
      (l : LinkedList A) (p : ℕ) (ps : List ℕ) (x : A) (xs : List A)
      → Contents l (p ∷ ps) (x ∷ xs)
      → (l' : LinkedList A) × (pop_front l ≡ done l') × Contents l' ps xs
  pop_front-Contents l p ps x xs held =
      let (not_null, at_p, linked) = held.linked in
      (
        record {
          head = first ps;
          tail = if first ps == 0 then 0 else l.tail;
          count = sub32 l.count 1;
          entries = store_at p none l.entries;
        },
        front_run l p (first ps) x held.head not_null at_p,
        record {
          head = refl;
          tail = popped_tail l.tail p ps l.entries xs held.tail linked;
          count = omega (arith, held.count);
          linked = Linked-put p none l.entries ps xs held.distinct.0 linked;
          distinct = held.distinct.1;
        },
      )
