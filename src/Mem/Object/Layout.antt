-- ===== src/Mem/Object/Layout.antt =====
-- How the pages of an object of src/mem/object.cpp lie in it: in order, apart, and below max_pages.
use cantos.Prelude.{
  ℕ, ◌+◌, ◌*◌, ◌/◌, ◌<◌, ◌≤◌, ◌≡◌, refl, List, [], ◌∷◌, Option, none, some, ltb, arith, ltb→lt,
  not_ltb→le, u32_mod, Bool-cases, inl, inr, ◌⊎◌,
}
use cantos.Mem.PageAlloc.{page_size}
use cantos.Mem.Frames.{total}
use cantos.Mem.Object.{PageEntry, cap, next_offset, limit, link_entry}

abbrev pub bytes_of : PageEntry → ℕ
bytes_of e = total e.page * page_size

-- The entries lie from address `lo` on and below address `hi`, each behind the one before it.
abbrev pub LaidOut : ℕ → ℕ → List PageEntry → Type 0
LaidOut lo hi [] = lo ≤ hi
LaidOut lo hi (e ∷ es) = (lo ≤ e.offset) × LaidOut (e.offset + bytes_of e) hi es

-- No entry that begins below `addr` reaches it.
abbrev pub Uncovered : ℕ → List PageEntry → Type 0
Uncovered addr [] = Unit {0}
Uncovered addr (e ∷ es) = (e.offset < addr → e.offset + bytes_of e ≤ addr) × Uncovered addr es

LaidOut-le : (lo hi : ℕ) (es : List PageEntry) → LaidOut lo hi es → lo ≤ hi
LaidOut-le lo hi [] h = h
LaidOut-le lo hi (e ∷ es) (from, rest) =
    let end : e.offset + bytes_of e ≤ hi = LaidOut-le (e.offset + bytes_of e) hi es rest in
    omega (arith, end, from)

LaidOut-lower :
    (lo lo' hi : ℕ) (es : List PageEntry) → lo' ≤ lo → LaidOut lo hi es → LaidOut lo' hi es
LaidOut-lower lo lo' hi [] h out = omega (arith, out)
LaidOut-lower lo lo' hi (e ∷ es) h (from, rest) = (omega (arith, from), rest)

-- A new entry ends before the entry behind it.
abbrev pub Fits : ℕ → ℕ → Option ℕ → Type 0
Fits end hi none = end ≤ hi
Fits end hi (some next) = end ≤ next

pub link_entry-LaidOut :
    (lo hi : ℕ) (new : PageEntry) (es : List PageEntry)
    → LaidOut lo hi es
    → Uncovered new.offset es
    → lo ≤ new.offset
    → Fits (new.offset + bytes_of new) hi (next_offset new.offset es)
    → LaidOut lo hi (link_entry new es)
link_entry-LaidOut lo hi new [] out uncovered from fits = (from, fits)
link_entry-LaidOut lo hi new (e ∷ es) (first, rest) (clear_of, uncovered) from fits =
    elim (Bool-cases (ltb e.offset new.offset)) [
      | inl below ↦
          let reaches : e.offset + bytes_of e ≤ new.offset = clear_of (ltb→lt _ _ below) in
          let tail =
            link_entry-LaidOut (e.offset + bytes_of e) hi new es rest uncovered reaches
              (rw below at fits) in
          rw below (first, tail)
      | inr above ↦
          let fits' : new.offset + bytes_of new ≤ e.offset = rw above at fits in
          rw above (from, (fits', rest))
    ]

pub next_offset-bounds :
    (addr lo hi next : ℕ) (es : List PageEntry)
    → LaidOut lo hi es
    → next_offset addr es ≡ some next
    → (addr ≤ next) × (next ≤ hi)
next_offset-bounds addr lo hi next [] out found = absurd cc
next_offset-bounds addr lo hi next (e ∷ es) (from, rest) found =
    elim (Bool-cases (ltb e.offset addr)) [
      | inl below ↦
          next_offset-bounds addr (e.offset + bytes_of e) hi next es rest (rw below at found)
      | inr above ↦
          let here : e.offset ≡ next = cc in
          let end : e.offset + bytes_of e ≤ hi = LaidOut-le (e.offset + bytes_of e) hi es rest in
          let from' : addr ≤ e.offset = not_ltb→le e.offset addr above in (omega arith, omega arith)
    ]

pub cap-le :
    (max_pages q n : ℕ)
    → max_pages * page_size < u32_mod
    → q + n < u32_mod
    → (cap max_pages (q * page_size) n ≡ 0) ⊎ (q + cap max_pages (q * page_size) n ≤ max_pages)
cap-le max_pages q n small sum =
    let page : q * page_size / page_size ≡ q = omega arith in rw page (ground arith)

pub limit-next :
    (q c max_pages next : ℕ)
    → max_pages * page_size < u32_mod
    → q + c ≤ max_pages
    → q * page_size ≤ next
    → next < u32_mod
    → (limit (q * page_size) c (some next) ≤ c)
      × (q * page_size + limit (q * page_size) c (some next) * page_size ≤ next)
limit-next q c max_pages next small inside above bound = ground arith

pub Fits-limit :
    (max_pages q c : ℕ) (next : Option ℕ)
    → max_pages * page_size < u32_mod
    → q + c ≤ max_pages
    → ((found : ℕ) → next ≡ some found → (q * page_size ≤ found) × (found < u32_mod))
    → (q + limit (q * page_size) c next ≤ max_pages)
      × Fits (q * page_size + limit (q * page_size) c next * page_size) (max_pages * page_size) next
Fits-limit max_pages q c none small inside bounds = (inside, omega arith)
Fits-limit max_pages q c (some next) small inside bounds =
    let (above, bound) = bounds next refl in
    let (less, fits) = limit-next q c max_pages next small inside above bound in
    (omega (arith, less, inside), fits)

pub limit-zero :
    (addr : ℕ) (next : Option ℕ)
    → addr < u32_mod
    → ((found : ℕ) → next ≡ some found → (addr ≤ found) × (found < u32_mod))
    → limit addr 0 next ≡ 0
limit-zero addr none small bounds = refl
limit-zero addr (some next) small bounds =
    let (above, bound) = bounds next refl in ground (arith, above, bound)
