-- ===== src/Mem/Kmem/Free.antt =====
-- What kfree of src/mem/kmem.cpp does to the free list: _merge_free and the walk to the place.
use cantos.Prelude.{
  ℕ, ◌+◌, ◌-◌, ◌≤◌, ◌<◌, ◌≡◌, refl, sym, ◌≢◌, inl, inr, ap, ◌∙◌, true, false, List, [], ◌∷◌, none,
  ltb, ◌==◌, arith, Bool-cases, Option-cases, add32, sub32, u32_mod, tests,
}
use cantos.Mem.State.{FreeEntry, Kmem, Mem, ok, panic}
use cantos.Mem.Kmem.{
  merge_list, merge_free, is_nil, insert_entry, prev_of, link_free, linked, kfree_nolock, give_back,
  mark_freed, set_header, get_struct, pop_struct, sizeof_header, sentinel_val, sentinel_freed,
}
use cantos.Mem.Kmem.Coverage.{inside, inside_join, held, Bounded, Ordered}

merge_list-held :
    (a first : ℕ) (xs : List FreeEntry) → Bounded xs → held a (merge_list first xs).0 ≡ held a xs
unfolding merge_list held
merge_list-held a first [] b = refl
merge_list-held a first (e ∷ []) b = refl
merge_list-held a first (e ∷ n ∷ rest) b = elim (Bool-cases (e.at == first)) [
  | inr other ↦
      rw other (ap (λ h. inside a e.base e.size + h) (merge_list-held a first (n ∷ rest) b.1))
  | inl here ↦ elim (Bool-cases (add32 e.base e.size == n.base)) [
    | inr apart ↦ rw (here, apart)
    | inl touch ↦ rw (here, touch) (joined touch)
  ]
]
  where
    joined :
        (add32 e.base e.size == n.base) ≡ true
        → inside a e.base (add32 e.size n.size) + held a rest
          ≡ inside a e.base e.size + (inside a n.base n.size + held a rest)
    joined touch =
        let at : n.base ≡ e.base + e.size = omega (tests, b, touch) in
        let sizes : add32 e.size n.size ≡ e.size + n.size = omega (arith, b, at) in
        rw (sizes, at) (omega (arith, inside_join a e.base e.size n.size))

merge_list-Bounded :
    (first : ℕ) (xs : List FreeEntry) → Bounded xs → Bounded (merge_list first xs).0
unfolding merge_list
merge_list-Bounded first [] b = b
merge_list-Bounded first (e ∷ []) b = b
merge_list-Bounded first (e ∷ n ∷ rest) b = ground (arith, merge_list-Bounded first (n ∷ rest) b.1)

merge_list-Ordered :
    (first lo : ℕ) (xs : List FreeEntry)
    → Bounded xs
    → Ordered lo xs
    → Ordered lo (merge_list first xs).0
unfolding merge_list
merge_list-Ordered first lo [] b o = o
merge_list-Ordered first lo (e ∷ []) b o = o
merge_list-Ordered first lo (e ∷ n ∷ rest) b o =
    ground (arith, merge_list-Ordered first (e.base + e.size) (n ∷ rest) b.1)

insert_entry-held :
    (a : ℕ) (new : FreeEntry) (xs : List FreeEntry)
    → held a (insert_entry new xs) ≡ held a xs + inside a new.base new.size
unfolding insert_entry held
insert_entry-held a new [] = ground arith
insert_entry-held a new (e ∷ es) = ground (arith, insert_entry-held a new es)

insert_entry-Bounded :
    (new : FreeEntry) (xs : List FreeEntry)
    → new.base + new.size < u32_mod
    → Bounded xs
    → Bounded (insert_entry new xs)
unfolding insert_entry
insert_entry-Bounded new [] h b = (h, tt)
insert_entry-Bounded new (e ∷ es) h b = ground (arith, insert_entry-Bounded new es h)

-- No address of the new block is held.
abbrev pub Apart : FreeEntry → List FreeEntry → Type 0
Apart new xs = (a : ℕ) → new.base ≤ a → a < new.base + new.size → held a xs ≡ 0

insert_entry-Ordered :
    (new : FreeEntry) (xs : List FreeEntry) (lo : ℕ)
    → lo ≤ new.base
    → 0 < new.size
    → Apart new xs
    → Ordered lo xs
    → Ordered lo (insert_entry new xs)
unfolding insert_entry held
insert_entry-Ordered new [] lo low size apart o = (low, size, tt)
insert_entry-Ordered new (e ∷ es) lo low size apart o = elim (Bool-cases (ltb e.base new.base)) [
  | inl before ↦ rw before (
    o.0,
    o.1,
    insert_entry-Ordered new es (e.base + e.size) (ground (arith, apart new.base)) size
        (λ a p q. ground (arith, apart a p q)) o.2,
  )
  | inr after ↦ rw after (low, size, (ground (arith, apart e.base), o.1, o.2))
]

-- _merge_free on the state changes neither what is held, nor the bound, nor the order.
merge_list-none :
    (first : ℕ) (xs : List FreeEntry)
    → (merge_list first xs).1 ≡ none
    → (merge_list first xs).0 ≡ xs
unfolding merge_list
merge_list-none first [] h = refl
merge_list-none first (e ∷ []) h = refl
merge_list-none first (e ∷ n ∷ rest) h = ground (arith, merge_list-none first (n ∷ rest))

merge_free-list :
    (first : ℕ) (k : Kmem) → (merge_free first k).free_list ≡ (merge_list first k.free_list).0
unfolding merge_free
merge_free-list first k = elim (Option-cases (merge_list first k.free_list).1) [
  | inl kept ↦ rw (kept, merge_free) (sym (merge_list-none first k.free_list kept))
  | inr (out, merged) ↦ rw (merged, merge_free)
]

-- A list that keeps to the invariants and holds what `xs` holds and the block `new`.
record Holds (new : FreeEntry) (lo : ℕ) (xs ys : List FreeEntry) : Type 0 where
  bounded : Bounded ys
  ordered : Ordered lo ys
  covers : (a : ℕ) → held a ys ≡ held a xs + inside a new.base new.size

merge_free-Holds :
    {new : FreeEntry} {lo : ℕ} {xs : List FreeEntry} (first : ℕ) (k : Kmem)
    → Holds new lo xs k.free_list
    → Holds new lo xs (merge_free first k).free_list
merge_free-Holds {lo} first k h = rw (merge_free-list first k) (record {
  bounded = merge_list-Bounded first k.free_list h.bounded;
  ordered = merge_list-Ordered first lo k.free_list h.bounded h.ordered;
  covers = λ a. merge_list-held a first k.free_list h.bounded ∙ h.covers a;
})

link_free-Holds :
    (new : FreeEntry) (k : Kmem) (lo : ℕ)
    → lo ≤ new.base
    → 0 < new.size
    → new.base + new.size < u32_mod
    → Apart new k.free_list
    → Bounded k.free_list
    → Ordered lo k.free_list
    → Holds new lo k.free_list (link_free new k).free_list
unfolding link_free
link_free-Holds new k lo low size fits apart b o = elim (Bool-cases (is_nil k.free_list)) [
  | inl nil ↦ rw nil put
  | inr other ↦ elim (Bool-cases (prev_of new.base 0 k.free_list == 0)) [
    | inl first ↦ rw (other, first) (merge_free-Holds new.at _ put)
    | inr later ↦
        rw (other, later)
          (merge_free-Holds (prev_of new.base 0 k.free_list) _ (merge_free-Holds new.at _ put))
  ]
]
  where
    put : Holds new lo k.free_list (insert_entry new k.free_list)
    put = record {
      bounded = insert_entry-Bounded new k.free_list fits b;
      ordered = insert_entry-Ordered new k.free_list lo low size apart o;
      covers = λ a. insert_entry-held a new k.free_list;
    }

-- What kfree does with the block behind the pointer: the free list then holds the block, header
-- included, and what it held before, in order; the header is marked as freed; the used bytes fall
-- by the block.
pub record Freed (k : Kmem) (ptr lo : ℕ) (k' : Kmem) : Type 0 where
  pub bounded : Bounded k'.free_list
  pub ordered : Ordered lo k'.free_list
  pub covers :
      (a : ℕ)
      → held a k'.free_list
        ≡ held a k.free_list
          + inside a (ptr - sizeof_header) (sizeof_header + (k.headers (ptr - sizeof_header)).size)
  pub marked : (k'.headers (ptr - sizeof_header)).sentinel ≡ sentinel_freed
  pub counted :
      k'.memory_used ≡ sub32 k.memory_used (sizeof_header + (k.headers (ptr - sizeof_header)).size)

keeps-memory_used : (first : ℕ) (k : Kmem) → (merge_free first k).memory_used ≡ k.memory_used
unfolding merge_free
keeps-memory_used first k = elim (Option-cases (merge_list first k.free_list).1) [
  | inl kept ↦ rw (kept, merge_free)
  | inr (out, merged) ↦ rw (merged, merge_free)
]

keeps-headers : (first : ℕ) (k : Kmem) → (merge_free first k).headers ≡ k.headers
unfolding merge_free
keeps-headers first k = elim (Option-cases (merge_list first k.free_list).1) [
  | inl kept ↦ rw (kept, merge_free)
  | inr (out, merged) ↦ rw (merged, merge_free)
]

link_free-keeps :
    (new : FreeEntry) (k : Kmem)
    → ((link_free new k).memory_used ≡ k.memory_used) × ((link_free new k).headers ≡ k.headers)
unfolding link_free
link_free-keeps new k = (
  ground (
    arith,
    keeps-memory_used new.at (linked new k),
    keeps-memory_used (prev_of new.base 0 k.free_list) (merge_free new.at (linked new k)),
  ),
  ground (
    arith,
    keeps-headers new.at (linked new k),
    keeps-headers (prev_of new.base 0 k.free_list) (merge_free new.at (linked new k)),
  ),
)

-- With a free structure at hand and an ordered and bounded free list, kfree_nolock of a live block
-- below 2 ^ 32, no address of which is held, returns, touches neither pages nor lock, and leaves
-- the block freed.
pub kfree_nolock-Freed :
    (fuel ptr lo : ℕ) (m : Mem) {e : FreeEntry} {es : List FreeEntry}
    → sizeof_header ≤ ptr
    → lo ≤ ptr - sizeof_header
    → ptr + (m.kmem.headers (ptr - sizeof_header)).size < u32_mod
    → (m.kmem.headers (ptr - sizeof_header)).sentinel ≡ sentinel_val
    → m.kmem.free_free_structs ≡ e ∷ es
    → Bounded m.kmem.free_list
    → Ordered lo m.kmem.free_list
    → ((a : ℕ)
        → ptr - sizeof_header ≤ a
        → a < ptr + (m.kmem.headers (ptr - sizeof_header)).size
        → held a m.kmem.free_list ≡ 0)
    → (k' : Kmem) × (kfree_nolock fuel ptr m ≡ ok tt (record m { kmem = k' }))
      × Freed m.kmem ptr lo k'
unfolding kfree_nolock give_back mark_freed get_struct pop_struct set_header
kfree_nolock-Freed fuel ptr lo m {e} {es} above low fits marked at_hand b o apart =
    let at : sub32 ptr sizeof_header ≡ ptr - sizeof_header = omega arith in
    let full : add32 (m.kmem.headers (ptr - sizeof_header)).size sizeof_header
        ≡ sizeof_header + (m.kmem.headers (ptr - sizeof_header)).size =
      omega arith in
    let used : (ptr == 0) ≡ false = ground arith in
    let fresh : ((m.kmem.headers (ptr - sizeof_header)).sentinel == sentinel_freed) ≡ false =
      ground arith in
    let live : ((m.kmem.headers (ptr - sizeof_header)).sentinel == sentinel_val) ≡ true =
      ground arith in
    let k1 : Kmem = record (mark_freed (ptr - sizeof_header) m.kmem) { free_free_structs = es } in
    let new : FreeEntry = record {
      at = e.at;
      size = sizeof_header + (m.kmem.headers (ptr - sizeof_header)).size;
      base = ptr - sizeof_header;
    } in
    let h =
      link_free-Holds new k1 lo low (omega arith) (omega arith) (λ a p q. apart a p (omega arith)) b
        o in
    let kept = link_free-keeps new k1 in
    (
      give_back (ptr - sizeof_header) (sizeof_header + (m.kmem.headers (ptr - sizeof_header)).size)
          e.at k1,
      rw (at, used, fresh, live, full, get_struct, at_hand, pop_struct),
      record {
        bounded = h.bounded;
        ordered = h.ordered;
        covers = h.covers;
        marked = rw kept.1 (ground arith);
        counted = rw kept.0;
      },
    )

-- kfree_nolock of a pointer whose header is not that of a live block ends in panic().
pub kfree_nolock-panic :
    (fuel ptr : ℕ) (m : Mem)
    → sizeof_header ≤ ptr
    → ptr < u32_mod
    → (m.kmem.headers (ptr - sizeof_header)).sentinel ≢ sentinel_val
    → kfree_nolock fuel ptr m ≡ panic
unfolding kfree_nolock
kfree_nolock-panic fuel ptr m above fits dead =
    let at : sub32 ptr sizeof_header ≡ ptr - sizeof_header = omega arith in
    let used : (ptr == 0) ≡ false = ground arith in
    let gone : ((m.kmem.headers (ptr - sizeof_header)).sentinel == sentinel_val) ≡ false =
      ground arith in
    rw (at, used, gone) (ground arith)
