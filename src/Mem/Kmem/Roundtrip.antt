-- ===== src/Mem/Kmem/Roundtrip.antt =====
-- kmalloc and kfree of src/mem/kmem.cpp one behind the other.
use cantos.Prelude.{
  ℕ, suc, ◌+◌, ◌-◌, ◌≤◌, ◌<◌, ◌≡◌, ◌≢◌, inl, inr, Bool, true, false, List, ◌∷◌, some, arith,
  Bool-cases, add32, u32_mod,
}
use cantos.Mem.PageAlloc.{has_flag, kmalloc_nolock}
use cantos.Mem.State.{FreeEntry, Kmem, Pages, Mem, ok, panic, ◌>>=◌, ◌>>◌}
use cantos.Mem.Kmem.{
  Fit, round_size, search, kmalloc, do_kmalloc, locked_call, kfree, kfree_nolock, sizeof_header,
  sentinel_val,
}
use cantos.Mem.Kmem.Coverage.{held, held-le-one, held_below, Bounded, Ordered}
use cantos.Mem.Kmem.Malloc.{Allocated, AtHand, do_kmalloc-Allocated}
use cantos.Mem.Kmem.Free.{kfree_nolock-Freed, kfree_nolock-panic}

-- Handing the block back restores what the free list holds and the count of used bytes.
pub record Restored (lo : ℕ) (k k' : Kmem) : Type 0 where
  pub same : (a : ℕ) → held a k'.free_list ≡ held a k.free_list
  pub ordered : Ordered lo k'.free_list
  pub bounded : Bounded k'.free_list
  pub counted : k'.memory_used ≡ k.memory_used

module _ (size ptr lo : ℕ) (k : Kmem) (m : Mem) {e : FreeEntry} {es : List FreeEntry}
    (w : Allocated size k ptr m.kmem) (o : Ordered lo k.free_list)
    (o' : Ordered lo m.kmem.free_list) (b' : Bounded m.kmem.free_list)
    (at_hand : m.kmem.free_free_structs ≡ e ∷ es) (used : k.memory_used < u32_mod) where
  -- The block was held once, so it lies above the start and is not held any more.
  was_free :
      (a : ℕ)
      → ptr - sizeof_header ≤ a
      → a < ptr + (m.kmem.headers (ptr - sizeof_header)).size
      → (held a m.kmem.free_list ≡ 0) × (lo ≤ a)
  was_free a p q =
      ground
        (arith, w.above, w.carved a, held-le-one a k.free_list lo o, held_below a k.free_list lo o)

  kfree_nolock-Restored :
      (fuel : ℕ)
      → (k' : Kmem) × (kfree_nolock fuel ptr m ≡ ok tt (record m { kmem = k' })) × Restored lo k k'
  kfree_nolock-Restored fuel =
      let (k', run, f) =
        kfree_nolock-Freed fuel ptr lo m w.above
          (was_free (ptr - sizeof_header) (omega arith) (omega (arith, w.above))).1 w.within
          w.marked at_hand b' o' (λ a p q. (was_free a p q).0) in
      (
        k',
        run,
        record {
          same = λ a. omega (arith, f.covers a, w.carved a);
          ordered = f.ordered;
          bounded = f.bounded;
          counted = omega (arith, f.counted, w.counted, w.within);
        },
      )

-- The lock is taken and released around the call.
kmalloc_run :
    (fuel size flags ptr : ℕ) (k k' : Kmem) (p : Pages)
    → ((b : Bool)
        → do_kmalloc fuel size flags (record { kmem = k; pages = p; locked = b })
          ≡ ok ptr (record { kmem = k'; pages = p; locked = b }))
    → kmalloc fuel size flags (record { kmem = k; pages = p; locked = false })
      ≡ ok ptr (record { kmem = k'; pages = p; locked = false })
unfolding kmalloc locked_call
kmalloc_run fuel size flags ptr k k' p run = elim (Bool-cases (has_flag flags kmalloc_nolock)) [
  | inl nolock ↦ rw nolock (run false)
  | inr locks ↦ rw locks (rw (run true))
]

-- With the lock free, a request of `size` bytes that the search can serve, and its block handed
-- back at once, run to the end and restore what the free list holds, its order and the count of
-- used bytes.
pub kmalloc-kfree :
    (fuel size flags lo : ℕ) (k : Kmem) (p : Pages) {f : Fit}
    → size ≢ 0
    → size ≤ u32_mod - 128
    → Bounded k.free_list
    → Ordered lo k.free_list
    → k.memory_used < u32_mod
    → AtHand k
    → search k (add32 (round_size size) sizeof_header) flags ≡ some f
    → (k' : Kmem) × ((kmalloc (suc fuel) size flags >>= kfree fuel)
          (record { kmem = k; pages = p; locked = false })
        ≡ ok tt (record { kmem = k'; pages = p; locked = false }))
      × Restored lo k k'
unfolding kfree
kmalloc-kfree fuel size flags lo k p nonzero small b o used hand found =
    let (ptr, k', run, w, o', b', keep) =
      do_kmalloc-Allocated fuel size flags lo k nonzero small b o found in
    let (e, es, at_hand) = keep hand in
    let (k'', run', r) =
      kfree_nolock-Restored size ptr lo k (record { kmem = k'; pages = p; locked = true }) w o o' b'
        at_hand used fuel in
    (k'', rw (kmalloc_run (suc fuel) size flags ptr k k' p (run p)) (rw run'), r)

-- With the lock free and a structure at hand, kfree of a live block that touches nothing held, and
-- a second kfree of the same pointer, end in panic().
pub kfree-twice :
    (fuel ptr lo : ℕ) (k : Kmem) (p : Pages)
    → sizeof_header ≤ ptr
    → lo ≤ ptr - sizeof_header
    → ptr + (k.headers (ptr - sizeof_header)).size < u32_mod
    → (k.headers (ptr - sizeof_header)).sentinel ≡ sentinel_val
    → AtHand k
    → Bounded k.free_list
    → Ordered lo k.free_list
    → ((a : ℕ)
        → ptr - sizeof_header ≤ a
        → a < ptr + (k.headers (ptr - sizeof_header)).size
        → held a k.free_list ≡ 0)
    → (kfree fuel ptr >> kfree fuel ptr) (record { kmem = k; pages = p; locked = false }) ≡ panic
unfolding kfree
kfree-twice fuel ptr lo k p above low fits marked (e, es, hand) b o apart =
    let (k', run, f) =
      kfree_nolock-Freed fuel ptr lo (record { kmem = k; pages = p; locked = true }) above low fits
        marked hand b o apart in
    let again =
      kfree_nolock-panic fuel ptr (record { kmem = k'; pages = p; locked = true }) above
        (omega arith) (λ live. absurd (omega (arith, f.marked, live))) in
    rw run (rw again)
