-- ===== src/Structures/LinkedList/Ends.antt =====
-- The operations of the list of include/structures/list.tpp at its back.
use cantos.Prelude.{
  ℕ, ◌≡◌, ◌≢◌, refl, sym, false, List, [], ◌∷◌, ◌++◌, Option, some, ◌==◌, add32, arith,
  length-append,
}
use cantos.Structures.LinkedList.{Entry, LinkedList, done, store_at, push_back}
use cantos.Structures.LinkedList.Contents.{
  final, Apart, Distinct, Linked, Contents, store_at_self, store_at_other,
}

pub Apart-final : (a p : ℕ) (ps : List ℕ) → Apart a (p ∷ ps) → a ≢ final (p ∷ ps)
Apart-final a p [] (here, _) = here
Apart-final a p (q ∷ ps) (_, apart) = Apart-final a q ps apart

Apart-snoc : (a b : ℕ) (ps : List ℕ) → Apart a ps → a ≢ b → Apart a (ps ++ (b ∷ []))
Apart-snoc a b [] apart other = (other, tt)
Apart-snoc a b (p ∷ ps) (here, apart) other = (here, Apart-snoc a b ps apart other)

Distinct-snoc : (b : ℕ) (ps : List ℕ) → Distinct ps → Apart b ps → Distinct (ps ++ (b ∷ []))
Distinct-snoc b [] distinct apart = (tt, tt)
Distinct-snoc b (p ∷ ps) (here, distinct) (other, apart) =
    (Apart-snoc p b ps here (λ same. other (sym same)), Distinct-snoc b ps distinct apart)

final-snoc : (b : ℕ) (ps : List ℕ) → final (ps ++ (b ∷ [])) ≡ b
final-snoc b [] = refl
final-snoc b (p ∷ []) = refl
final-snoc b (p ∷ q ∷ ps) = final-snoc b (q ∷ ps)

module _ {A : Type 0} where
  -- The store behind push_back: the new entry, and the old last one with its next pointer set.
  abbrev appended : ℕ → A → ℕ → Entry A → (ℕ → Option (Entry A)) → ℕ → Option (Entry A)
  appended at v t e s =
      store_at t (some (record e { next = at }))
        (store_at at (some (record { next = 0; object = v })) s)

  Linked-snoc :
      (s : ℕ → Option (Entry A)) (p : ℕ) (ps : List ℕ) (x : A) (xs : List A) (at : ℕ) (v : A)
      → Linked s (p ∷ ps) (x ∷ xs)
      → Distinct (p ∷ ps)
      → at ≢ 0
      → Apart at (p ∷ ps)
      → (e : Entry A) × (s (final (p ∷ ps)) ≡ some e)
        × Linked (appended at v (final (p ∷ ps)) e s) ((p ∷ ps) ++ (at ∷ [])) ((x ∷ xs) ++ (v ∷ []))
  Linked-snoc s p [] x [] at v (not_null, at_p, _) distinct new (other, _) =
      let e : Entry A = record { next = 0; object = x } in
      let inner = store_at at (some (record { next = 0; object = v })) s in
      (
        e,
        at_p,
        (
          not_null,
          store_at_self p (some (record e { next = at })) inner,
          (
            new,
            rw (store_at_other p at (some (record e { next = at })) inner other)
                (store_at_self at _ s),
            tt,
          ),
        ),
      )
  Linked-snoc s p [] x (y ∷ xs) at v (_, _, linked) distinct new apart = absurd linked
  Linked-snoc s p (q ∷ ps) x [] at v (_, _, linked) distinct new apart = absurd linked
  Linked-snoc s p (q ∷ ps) x (y ∷ xs) at v (not_null, at_p, linked) (here, distinct) new
        (other, apart) =
      let (e, last, longer) = Linked-snoc s q ps y xs at v linked distinct new apart in
      let inner = store_at at (some (record { next = 0; object = v })) s in
      let not_last : p ≢ final (q ∷ ps) = Apart-final p q ps here in
      (
        e,
        last,
        (
          not_null,
          rw (store_at_other (final (q ∷ ps)) p (some (record e { next = at })) inner not_last) (
              rw
                (store_at_other at p (some (record { next = 0; object = v })) s
                  (λ same. other (sym same)))
                at_p),
          longer,
        ),
      )

  back_run :
      (l : LinkedList A) (p t at : ℕ) (v : A) (e : Entry A)
      → l.head ≡ p
      → p ≢ 0
      → l.tail ≡ t
      → l.entries t ≡ some e
      → push_back at v l
        ≡ done (record {
          head = p;
          tail = at;
          count = add32 l.count 1;
          entries = appended at v t e l.entries;
        })
  unfolding push_back
  back_run l p t at v e head not_null tail at_t =
      let something : (p == 0) ≡ false = ground arith in rw (head, something, tail, at_t) refl

  empty_run :
      (l : LinkedList A) (at : ℕ) (v : A)
      → l.head ≡ 0
      → push_back at v l
        ≡ done (record {
          head = at;
          tail = at;
          count = add32 l.count 1;
          entries = store_at at (some (record { next = 0; object = v })) l.entries;
        })
  unfolding push_back
  empty_run l at v head = rw head refl

  -- list::push_back puts a value behind those of the list. The new entry is at an address of its
  -- own, which is not 0.
  pub push_back-Contents :
      (l : LinkedList A) (ps : List ℕ) (xs : List A) (at : ℕ) (v : A)
      → Contents l ps xs
      → at ≢ 0
      → Apart at ps
      → (l' : LinkedList A) × (push_back at v l ≡ done l')
        × Contents l' (ps ++ (at ∷ [])) (xs ++ (v ∷ []))
  push_back-Contents l [] [] at v held new apart = (
    _,
    empty_run l at v held.head,
    record {
      head = refl;
      tail = refl;
      count = omega (arith, held.count);
      linked = (new, store_at_self at _ l.entries, tt);
      distinct = (tt, tt);
    },
  )
  push_back-Contents l [] (x ∷ xs) at v held new apart = absurd held.linked
  push_back-Contents l (p ∷ ps) [] at v held new apart = absurd held.linked
  push_back-Contents l (p ∷ ps) (x ∷ xs) at v held new apart =
      let (e, last, longer) =
        Linked-snoc l.entries p ps x xs at v held.linked held.distinct new apart in
      (
        _,
        back_run l p (final (p ∷ ps)) at v e held.head held.linked.0 held.tail last,
        record {
          head = refl;
          tail = sym (final-snoc at (p ∷ ps));
          count = omega (arith, held.count, length-append (x ∷ xs) (v ∷ []));
          linked = longer;
          distinct = Distinct-snoc at (p ∷ ps) held.distinct apart;
        },
      )
