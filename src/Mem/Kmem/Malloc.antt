-- ===== src/Mem/Kmem/Malloc.antt =====
-- What kmalloc of src/mem/kmem.cpp hands out when a free block is large enough.
use cantos.Prelude.{
  ℕ, suc, ◌+◌, ◌-◌, ◌%◌, ◌≤◌, ◌<◌, ◌≡◌, refl, ◌≢◌, inl, inr, Bool, false, List, [], ◌∷◌, ◌++◌, some,
  leb, ◌==◌, arith, Bool-cases, tests, Option-cases, add32, sub32, u32_mod,
}
use cantos.Mem.State.{FreeEntry, Kmem, Pages, ok}
use cantos.Mem.Kmem.{
  Fit, find_fit, take_fit, take_whole, take_part, round_size, search, serve, do_kmalloc, set_header,
  sizeof_header, sentinel_val, over_limit,
}
use cantos.Mem.PageAlloc.{sizeof_page}
use cantos.Mem.Kmem.Coverage.{
  Ordered-replace, Ordered-weaken, inside, held, held-append, held_middle, Bounded, Bounded-replace,
  Bounded-append_right, Ordered,
}

-- What is found is a block of the list, large enough.
pub find_fit_lem :
    (needed prev : ℕ) (xs : List FreeEntry) {f : Fit}
    → find_fit needed prev xs ≡ some f
    → (f.before ++ (f.free ∷ f.after) ≡ xs) × (needed ≤ f.free.size)
unfolding find_fit
find_fit_lem needed prev [] h = absurd (cc)
find_fit_lem needed prev (x ∷ xs) {f} h = elim (Bool-cases (leb needed x.size)) [
  | inl fits ↦ ground arith
  | inr small ↦ elim (Option-cases (find_fit needed x.at xs)) [
    | inl missed ↦ absurd (ground arith)
    | inr (g, found) ↦ ground (arith, find_fit_lem needed x.at xs found)
  ]
]

-- What kmalloc promises of the pointer that it returns: the block behind its header is large
-- enough, header and block come out of the free list, and nothing else does.
pub record Allocated (size : ℕ) (k : Kmem) (ptr : ℕ) (k' : Kmem) : Type 0 where
  pub above : sizeof_header ≤ ptr
  pub within : ptr + (k'.headers (ptr - sizeof_header)).size < u32_mod
  pub enough : size ≤ (k'.headers (ptr - sizeof_header)).size
  pub marked : (k'.headers (ptr - sizeof_header)).sentinel ≡ sentinel_val
  pub carved :
      (a : ℕ)
      → held a k.free_list
        ≡ held a k'.free_list
          + inside a (ptr - sizeof_header) (sizeof_header + (k'.headers (ptr - sizeof_header)).size)
  pub counted :
      k'.memory_used ≡ add32 k.memory_used (sizeof_header + (k'.headers (ptr - sizeof_header)).size)

-- A structure for a free block is left over, so that kfree does not have to allocate one.
abbrev pub AtHand : Kmem → Type 0
AtHand k = (e : FreeEntry) × (es : List FreeEntry) × (k.free_free_structs ≡ e ∷ es)

module _ (k : Kmem) (f : Fit) (size : ℕ) (same : f.before ++ (f.free ∷ f.after) ≡ k.free_list)
    (bounded : Bounded k.free_list) (fits : size + sizeof_header ≤ f.free.size) where
  free_end_lt : f.free.base + f.free.size < u32_mod
  free_end_lt = (Bounded-append_right f.before (f.free ∷ f.after) (rw same bounded)).0

  held_before :
      (a : ℕ)
      → held a k.free_list ≡ held a f.before + (inside a f.free.base f.free.size + held a f.after)
  held_before a = rw (← same) (held_middle a f.before f.free f.after)

  take_whole-Allocated : Allocated size k (take_whole k f).0 (take_whole k f).1
  unfolding take_whole set_header
  take_whole-Allocated = record {
    above = omega (arith, free_end_lt);
    within = ground (arith, free_end_lt);
    enough = ground (arith, free_end_lt);
    marked = ground (arith, free_end_lt);
    carved = λ a. ground (arith, free_end_lt, held_before a, held-append a f.before f.after);
    counted = ground (arith, free_end_lt);
  }

  take_part-Allocated : Allocated size k (take_part k f size).0 (take_part k f size).1
  unfolding take_part set_header
  take_part-Allocated = record {
    above = omega (arith, free_end_lt);
    within = ground (arith, free_end_lt);
    enough = ground (arith, free_end_lt);
    marked = ground (arith, free_end_lt);
    carved = λ a. ground (
      arith,
      free_end_lt,
      held_before a,
      held_middle a f.before
          (record f.free {
            size = sub32 f.free.size (add32 size sizeof_header);
            base = add32 f.free.base (add32 size sizeof_header);
          })
          f.after,
    );
    counted = ground (arith, free_end_lt);
  }

  pub take_fit-Allocated : Allocated size k (take_fit k f size).0 (take_fit k f size).1
  unfolding take_fit
  take_fit-Allocated =
      elim (Bool-cases (leb f.free.size (add32 (add32 size sizeof_header) sizeof_header))) [
        | inl whole ↦ rw whole take_whole-Allocated
        | inr part ↦ rw part take_part-Allocated
      ]

  -- The free list stays in order.
  pub take_fit-Ordered :
      (lo : ℕ)
      → size ≤ u32_mod - 64
      → Ordered lo k.free_list
      → Ordered lo (take_fit k f size).1.free_list
  unfolding take_fit take_whole take_part
  take_fit-Ordered lo small o =
      elim (Bool-cases (leb f.free.size (add32 (add32 size sizeof_header) sizeof_header))) [
        | inl whole ↦ rw whole (
            Ordered-replace f.before (f.free ∷ f.after) f.after lo
              (λ m p. Ordered-weaken f.after (omega arith) p.2) (rw same o))
        | inr part ↦ rw part (
            Ordered-replace f.before (f.free ∷ f.after) _ lo
              (λ m p. (
                omega (tests, free_end_lt),
                omega (tests, free_end_lt, part),
                Ordered-weaken f.after (omega (tests, free_end_lt)) p.2,
              ))
              (rw same o))
      ]

  pub take_fit-Bounded : Bounded (take_fit k f size).1.free_list
  unfolding take_fit take_whole take_part
  take_fit-Bounded =
      elim (Bool-cases (leb f.free.size (add32 (add32 size sizeof_header) sizeof_header))) [
        | inl whole ↦
            rw whole
              (Bounded-replace f.before (f.free ∷ f.after) f.after (λ b. b.1) (rw same bounded))
        | inr part ↦ rw part (
            Bounded-replace f.before (f.free ∷ f.after) _ (λ b. (omega (arith, b.0), b.1))
              (rw same bounded))
      ]

  pub take_fit-AtHand : AtHand k → AtHand (take_fit k f size).1
  unfolding take_fit take_whole take_part
  take_fit-AtHand (e, es, h) =
      elim (Bool-cases (leb f.free.size (add32 (add32 size sizeof_header) sizeof_header))) [
        | inl whole ↦ rw whole (f.free, k.free_free_structs, refl)
        | inr part ↦ rw part (e, es, h)
      ]

pub search_lem :
    (k : Kmem) (needed flags : ℕ) {f : Fit}
    → search k needed flags ≡ some f
    → (f.before ++ (f.free ∷ f.after) ≡ k.free_list) × (needed ≤ f.free.size)
unfolding search
search_lem k needed flags {f} h = elim (Bool-cases (over_limit k needed flags)) [
  | inl over ↦ absurd (ground arith)
  | inr under ↦ find_fit_lem needed 0 k.free_list {f = f} (ground arith)
]

-- A request of `size` bytes is rounded up to a multiple of four, not below a page record; within
-- three bytes of 2 ^ 32 the sum wraps, and the rounded size is that of a page record.
pub round_size_lem :
    (size : ℕ)
    → size < u32_mod
    → (round_size size % 4 ≡ 0)
      × (sizeof_page ≤ round_size size)
      × (size ≤ u32_mod - 4 → size ≤ round_size size)
      × (size ≤ u32_mod - 4 → round_size size ≤ size + 20)
      × (u32_mod - 4 < size → round_size size ≡ sizeof_page)
unfolding round_size
round_size_lem size h = ground arith

-- Enlarging the promise: what is allocated for a larger size is allocated for a smaller.
Allocated-weaken :
    {size size' ptr : ℕ} {k k' : Kmem}
    → size ≤ size'
    → Allocated size' k ptr k'
    → Allocated size k ptr k'
Allocated-weaken h w = record {
  above = w.above;
  within = w.within;
  enough = omega (arith, w.enough);
  marked = w.marked;
  carved = w.carved;
  counted = w.counted;
}

-- If the search finds a block, do_kmalloc returns without touching the pages or the lock, what it
-- returns is allocated for the size asked for, and the free list stays bounded by order.
pub do_kmalloc-Allocated :
    (fuel size flags lo : ℕ) (k : Kmem) {f : Fit}
    → size ≢ 0
    → size ≤ u32_mod - 128
    → Bounded k.free_list
    → Ordered lo k.free_list
    → search k (add32 (round_size size) sizeof_header) flags ≡ some f
    → (ptr : ℕ) × (k' : Kmem) × ((p : Pages) (b : Bool)
        → do_kmalloc (suc fuel) size flags (record { kmem = k; pages = p; locked = b })
          ≡ ok ptr (record { kmem = k'; pages = p; locked = b }))
      × Allocated size k ptr k'
      × Ordered lo k'.free_list
      × Bounded k'.free_list
      × (AtHand k → AtHand k')
unfolding do_kmalloc serve
do_kmalloc-Allocated fuel size flags lo k {f} h small b o found =
    let r = round_size_lem size (omega arith) in
    let s = search_lem k (add32 (round_size size) sizeof_header) flags found in
    let fits : round_size size + sizeof_header ≤ f.free.size = omega (arith, r, s.1) in
    (
      (take_fit k f (round_size size)).0,
      (take_fit k f (round_size size)).1,
      λ pages locked. let z : (size == 0) ≡ false = ground arith in rw (z, found, serve),
      Allocated-weaken (omega (arith, r)) (take_fit-Allocated k f (round_size size) s.0 b fits),
      take_fit-Ordered k f (round_size size) s.0 b fits lo (omega (arith, r)) o,
      take_fit-Bounded k f (round_size size) s.0 b fits,
      take_fit-AtHand k f (round_size size) s.0 b fits,
    )
