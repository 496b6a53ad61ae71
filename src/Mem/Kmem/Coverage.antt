-- ===== src/Mem/Kmem/Coverage.antt =====
-- Which addresses the free list of src/mem/kmem.cpp holds, how often, and in what order.
use cantos.Prelude.{
  ℕ, ◌+◌, ◌≤◌, ◌<◌, ◌≡◌, refl, ◌&&◌, List, [], ◌∷◌, ◌++◌, ltb, leb, if◌then◌else◌, arith, u32_mod,
}
use cantos.Mem.State.{FreeEntry}

-- 1 if `a` is one of the `n` addresses from `lo` on, and 0 if not.
abbrev pub inside : ℕ → ℕ → ℕ → ℕ
inside a lo n = if leb lo a && ltb a (lo + n) then 1 else 0

-- How many entries of a free list hold the address `a`.
unfoldable pub held : ℕ → List FreeEntry → ℕ
held a [] = 0
held a (e ∷ es) = inside a e.base e.size + held a es

-- No entry reaches the end of the address space.
abbrev pub Bounded : List FreeEntry → Type 0
Bounded [] = Unit {0}
Bounded (e ∷ es) = (e.base + e.size < u32_mod) × Bounded es

-- From `lo` on, the entries are not empty, in order of address, and do not overlap.
abbrev pub Ordered : ℕ → List FreeEntry → Type 0
Ordered lo [] = Unit {0}
Ordered lo (e ∷ es) = (lo ≤ e.base) × (0 < e.size) × Ordered (e.base + e.size) es

pub held-append : (a : ℕ) (xs ys : List FreeEntry) → held a (xs ++ ys) ≡ held a xs + held a ys
unfolding held
held-append a [] ys = omega arith
held-append a (x ∷ xs) ys = omega (arith, held-append a xs ys)

pub Ordered-weaken : {lo lo' : ℕ} (xs : List FreeEntry) → lo' ≤ lo → Ordered lo xs → Ordered lo' xs
Ordered-weaken [] h o = tt
Ordered-weaken (x ∷ xs) h o = (omega arith, o.1, o.2)

pub Bounded-append_right : (xs ys : List FreeEntry) → Bounded (xs ++ ys) → Bounded ys
Bounded-append_right [] ys b = b
Bounded-append_right (x ∷ xs) ys b = Bounded-append_right xs ys b.1

-- In an ordered list no address is held twice, and none below the start.
pub held_below : (a : ℕ) (xs : List FreeEntry) (lo : ℕ) → Ordered lo xs → a < lo → held a xs ≡ 0
unfolding held
held_below a [] lo o h = refl
held_below a (x ∷ xs) lo o h = ground (arith, held_below a xs (x.base + x.size) o.2)

pub held-le-one : (a : ℕ) (xs : List FreeEntry) (lo : ℕ) → Ordered lo xs → held a xs ≤ 1
unfolding held
held-le-one a [] lo o = omega arith
held-le-one a (x ∷ xs) lo o =
    ground (arith, held-le-one a xs (x.base + x.size) o.2, held_below a xs (x.base + x.size) o.2)

pub held_middle :
    (a : ℕ) (xs : List FreeEntry) (e : FreeEntry) (ys : List FreeEntry)
    → held a (xs ++ (e ∷ ys)) ≡ held a xs + (inside a e.base e.size + held a ys)
unfolding held
held_middle a xs e ys = held-append a xs (e ∷ ys)

-- An order goes through a list block by block; the blocks of `ys` matter only from where `xs` ends.
pub Ordered-replace :
    (xs ys zs : List FreeEntry) (lo : ℕ)
    → ((m : ℕ) → Ordered m ys → Ordered m zs)
    → Ordered lo (xs ++ ys)
    → Ordered lo (xs ++ zs)
Ordered-replace [] ys zs lo h o = h lo o
Ordered-replace (x ∷ xs) ys zs lo h o = (o.0, o.1, Ordered-replace xs ys zs (x.base + x.size) h o.2)

-- Two blocks that touch hold what their union holds.
pub inside_join : (a lo n m : ℕ) → inside a lo (n + m) ≡ inside a lo n + inside a (lo + n) m
inside_join a lo n m = ground arith

pub Bounded-replace :
    (xs ys zs : List FreeEntry)
    → (Bounded ys → Bounded zs)
    → Bounded (xs ++ ys)
    → Bounded (xs ++ zs)
Bounded-replace [] ys zs h b = h b
Bounded-replace (x ∷ xs) ys zs h b = (b.0, Bounded-replace xs ys zs h b.1)
