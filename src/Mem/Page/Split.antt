-- ===== src/Mem/Page/Split.antt =====
-- Page::split and Page::count of src/mem/page.cpp.
use Prim.Native.Nat.{bit_or}
use cantos.Prelude.{
  ℕ, ◌+◌, ◌-◌, ◌*◌, ◌≤◌, ◌<◌, ◌≡◌, refl, ◌∙◌, inl, inr, true, false, List, [], ◌∷◌, ltb, arith,
  tests, Bool-cases, add32, sub32, mul32, u32_mod,
}
use cantos.Mem.State.{Page, Mem, ok}
use cantos.Mem.PageAlloc.{page_size, flag_allocated, sizeof_page, kmalloc_reserved, kmalloc_nolock}
use cantos.Mem.Kmem.{kmalloc}
use cantos.Mem.Kmem.Coverage.{inside_join}
use cantos.Mem.Frames.{total, held, Bounded}
use cantos.Mem.Page.{create, count, count_from, split}

count_from-total :
    (sum : ℕ) (ps : List Page) → sum + total ps < u32_mod → count_from sum ps ≡ sum + total ps
unfolding count_from total
count_from-total sum [] h = omega arith
count_from-total sum (p ∷ ps) h =
    count_from-total (add32 sum p.consecutive) ps (omega arith) ∙ omega arith

-- Page::count is the sum of the records' pages, as long as that sum fits 32 bits.
pub count-total : (ps : List Page) → total ps < u32_mod → count ps ≡ total ps
unfolding count
count-total ps h = count_from-total 0 ps (omega arith) ∙ omega arith

-- What a split of the chain `ps` at `n` pages yields: the parts are the pages before and behind
-- that point, and each physical address is in them as often as it was in the chain.
pub record Parts (ps : List Page) (n : ℕ) (front back : List Page) : Type 0 where
  pub first : total front ≡ n
  pub rest : total front + total back ≡ total ps
  pub frames : (a : ℕ) → held a front + held a back ≡ held a ps

split_further :
    (fuel n : ℕ) (p : Page) (ps : List Page) (m : Mem) {front back : List Page} {m' : Mem}
    → ltb p.consecutive n ≡ true
    → split fuel ps (sub32 n p.consecutive) m ≡ ok (front, back) m'
    → split fuel (p ∷ ps) n m ≡ ok (p ∷ front, back) m'
unfolding split
split_further fuel n p ps m further run = rw further (rw run)

-- The record that page::create makes.
abbrev created : ℕ → ℕ → Page → ℕ → Page
created at id p n = record {
  at = at;
  page_id = id;
  mem_base = add32 p.mem_base (mul32 n page_size);
  flags = bit_or flag_allocated p.flags;
  consecutive = sub32 p.consecutive n;
}

split_here :
    (fuel n : ℕ) (p : Page) (ps : List Page) (m : Mem) {at : ℕ} {m1 : Mem}
    → ltb p.consecutive n ≡ false
    → m.locked ≡ false
    → kmalloc fuel sizeof_page (kmalloc_reserved + kmalloc_nolock) (record m { locked = true })
      ≡ ok at m1
    → (m' : Mem) × (split fuel (p ∷ ps) n m
        ≡ ok (record p { consecutive = n } ∷ [], created at m1.pages.page_id_counter p n ∷ ps) m')
      × (m'.locked ≡ false)
unfolding split create
split_here fuel n p ps m {m1} here free run = (
  record m1 {
    pages = record m1.pages { page_id_counter = add32 m1.pages.page_id_counter 1 };
    locked = false;
  },
  rw here (rw free (rw run)),
  refl,
)

cut-Parts :
    (n at id : ℕ) (p : Page) (ps : List Page)
    → n ≤ p.consecutive
    → total (p ∷ ps) < u32_mod
    → Bounded (p ∷ ps)
    → Parts (p ∷ ps) n (record p { consecutive = n } ∷ []) (created at id p n ∷ ps)
unfolding total held
cut-Parts n at id p ps h small b =
    let left : sub32 p.consecutive n ≡ p.consecutive - n = omega arith in
    let base : add32 p.mem_base (mul32 n page_size) ≡ p.mem_base + n * page_size =
      omega (arith, b.0) in
    let whole : p.consecutive * page_size ≡ n * page_size + (p.consecutive - n) * page_size =
      omega arith in
    record {
      first = omega arith;
      rest = omega arith;
      frames = λ a.
          rw (left, base, whole)
            (omega
              (arith, inside_join a p.mem_base (n * page_size) ((p.consecutive - n) * page_size)));
    }

split_here-Parts :
    (fuel n : ℕ) (p : Page) (ps : List Page) (m : Mem) {at : ℕ} {m1 : Mem}
    → ltb p.consecutive n ≡ false
    → total (p ∷ ps) < u32_mod
    → Bounded (p ∷ ps)
    → m.locked ≡ false
    → kmalloc fuel sizeof_page (kmalloc_reserved + kmalloc_nolock) (record m { locked = true })
      ≡ ok at m1
    → (front back : List Page) × (m' : Mem) × (split fuel (p ∷ ps) n m ≡ ok (front, back) m')
      × Parts (p ∷ ps) n front back
      × (m'.locked ≡ false)
split_here-Parts fuel n p ps m {at} {m1} here small b free run =
    let (m', done, unlocked) = split_here fuel n p ps m here free run in
    (
      record p { consecutive = n } ∷ [],
      created at m1.pages.page_id_counter p n ∷ ps,
      m',
      done,
      cut-Parts n at m1.pages.page_id_counter p ps (omega (tests, here)) small b,
      unlocked,
    )

-- Page::split of a chain at a point inside it returns its two parts, if the one kmalloc that it
-- makes returns; the lock is free before and behind.
pub split-Parts :
    (fuel n : ℕ) (p : Page) (ps : List Page) (m : Mem) {at : ℕ} {m1 : Mem}
    → n ≤ total (p ∷ ps)
    → total (p ∷ ps) < u32_mod
    → Bounded (p ∷ ps)
    → m.locked ≡ false
    → kmalloc fuel sizeof_page (kmalloc_reserved + kmalloc_nolock) (record m { locked = true })
      ≡ ok at m1
    → (front back : List Page) × (m' : Mem) × (split fuel (p ∷ ps) n m ≡ ok (front, back) m')
      × Parts (p ∷ ps) n front back
      × (m'.locked ≡ false)
unfolding total held
split-Parts fuel n p [] m h small b free run =
    split_here-Parts fuel n p [] m (ground arith) small b free run
split-Parts fuel n p (q ∷ qs) m h small b free run = elim (Bool-cases (ltb p.consecutive n)) [
  | inr here ↦ split_here-Parts fuel n p (q ∷ qs) m here small b free run
  | inl further ↦
      let (front, back, m', done, parts, unlocked) =
        split-Parts fuel (sub32 n p.consecutive) q qs m (omega (tests, further)) (omega arith) b.1
          free run in
      (
        p ∷ front,
        back,
        m',
        split_further fuel n p (q ∷ qs) m further done,
        record {
          first = omega (tests, parts.first, further);
          rest = omega (arith, parts.rest);
          frames = λ a. omega (arith, parts.frames a);
        },
        unlocked,
      )
]
