-- ===== src/Structures/SharedPtr/Plain/Held.antt =====
-- That counting the pointers of include/structures/shared_ptr.tpp keeps the memory in step with them.
use cantos.Prelude.{
  ℕ, suc, ◌+◌, ◌<◌, ◌≡◌, ◌≢◌, ◌⊎◌, inl, inr, refl, sym, true, false, ◌==◌, arith, none, some,
  u32_mod, sub32,
}
use native.Mathlib.Decide.{ℕ_discrete, dec_lt}
use cantos.Structures.SharedPtr.{
  Pointer, Memory, done, retain, increment, put_uses, put_live, is_null,
}
use cantos.Structures.SharedPtr.Plain.{decrement_usage, decrement}
use cantos.Structures.SharedPtr.Plain.Counts.{weight}

-- The memory in step with a number of references to each object with each block.
pub record Held (c : ℕ → ℕ → ℕ) (m : Memory) : Type 0 where
  pub held : (r d : ℕ) → r ≢ 0 → 0 < c r d → (m.uses d ≡ some (c r d)) × (m.live r ≡ true)
  pub one_block :
      (r d r' d' : ℕ)
      → r ≢ 0
      → r' ≢ 0
      → 0 < c r d
      → 0 < c r' d'
      → (r ≡ r') ⊎ (d ≡ d')
      → (r ≡ r') × (d ≡ d')
  pub no_leak : (r : ℕ) → m.live r ≡ true → (d : ℕ) × (r ≢ 0) × (0 < c r d)
  pub no_block : (d n : ℕ) → m.uses d ≡ some n → (r : ℕ) × (r ≢ 0) × (0 < c r d)

-- One reference more.
abbrev pub more : Pointer → (ℕ → ℕ → ℕ) → ℕ → ℕ → ℕ
more p c r d = weight r d p + c r d

pub Held_same :
    (c c' : ℕ → ℕ → ℕ) (m : Memory) → ((r d : ℕ) → r ≢ 0 → c' r d ≡ c r d) → Held c m → Held c' m
Held_same c c' m same h = record {
  held = λ r d some_r some_c.
      let e = same r d some_r in let (a, b) = h.held r d some_r (omega arith) in (ground arith, b);
  one_block = λ r d r' d' nr nr' p q.
      h.one_block r d r' d' nr nr' (omega (arith, same r d nr)) (omega (arith, same r' d' nr'));
  no_leak = λ r alive. let (d, nr, p) = h.no_leak r alive in (d, nr, omega (arith, same r d nr));
  no_block =
      λ d n there. let (r, nr, p) = h.no_block d n there in (r, nr, omega (arith, same r d nr));
}

module _ (c : ℕ → ℕ → ℕ) (p : Pointer) (m : Memory) (some_p : p.ref ≢ 0) where
  -- What a reference more adds, at its own object and elsewhere.
  more_cases :
      (r d : ℕ)
      → ((r ≡ p.ref) × (d ≡ p.block) × (more p c r d ≡ suc (c r d))) ⊎ (more p c r d ≡ c r d)
  more_cases r d = elim (ℕ_discrete p.ref r) [
    | no other ↦ inr (ground arith)
    | yes same ↦ elim (ℕ_discrete p.block d) [
      | no other ↦ inr (ground arith)
      | yes same_d ↦ inl (sym same, sym same_d, ground arith)
    ]
  ]

  -- The block of a pointer serves its object alone.
  own_block : Held c m → 0 < c p.ref p.block → (r : ℕ) → r ≢ 0 → 0 < c r p.block → r ≡ p.ref
  own_block h counted r nr q =
      (h.one_block r p.block p.ref p.block nr some_p q counted (inr refl)).0

  was_counted : (r d : ℕ) → 0 < c p.ref p.block → 0 < more p c r d → 0 < c r d
  was_counted r d counted q = elim (more_cases r d) [
    | inl (e, f, g) ↦ rw (e, f) counted
    | inr same ↦ omega arith
  ]

  elsewhere : (r d : ℕ) → (r ≡ p.ref → d ≢ p.block) → 0 < more p c r d → 0 < c r d
  elsewhere r d away q = elim (more_cases r d) [
    | inl (e, f, g) ↦ absurd (away e f)
    | inr same ↦ omega arith
  ]

  retained :
      Held c m
      → 0 < c p.ref p.block
      → Held (more p c) (put_uses p.block (some (c p.ref p.block + 1)) m)
  retained h counted = record {
    held = λ r d nr q.
        let q' = was_counted r d counted q in
        let (used, alive) = h.held r d nr q' in
        elim (ℕ_discrete d p.block) [
          | yes e ↦
              let same : r ≡ p.ref = own_block h counted r nr (rw (← e) q') in (ground arith, alive)
          | no other ↦ (ground arith, alive)
        ];
    one_block = λ r d r' d' nr nr' q q' e.
        h.one_block r d r' d' nr nr' (was_counted r d counted q) (was_counted r' d' counted q') e;
    no_leak = λ r alive. let (d, nr, q) = h.no_leak r alive in (d, nr, omega arith);
    no_block = λ d n there. elim (ℕ_discrete d p.block) [
      | yes same ↦ (p.ref, some_p, rw same (omega (arith, counted)))
      | no other ↦ let (r, nr, q) = h.no_block d n (ground arith) in (r, nr, omega arith)
    ];
  }

  -- A reference less that is not the last.
  let_go :
      Held (more p c) m → 0 < c p.ref p.block → Held c (put_uses p.block (some (c p.ref p.block)) m)
  let_go h counted = record {
    held = λ r d nr q.
        let (used, alive) = h.held r d nr (omega arith) in
        elim (ℕ_discrete d p.block) [
          | yes e ↦
              let same : r ≡ p.ref =
                (h.one_block r d p.ref p.block nr some_p (omega arith) (omega (arith, counted))
                  (inr e)).0 in
              (ground arith, alive)
          | no other ↦ (ground arith, alive)
        ];
    one_block =
        λ r d r' d' nr nr' q q' e. h.one_block r d r' d' nr nr' (omega arith) (omega arith) e;
    no_leak = λ r alive. let (d, nr, q) = h.no_leak r alive in (d, nr, was_counted r d counted q);
    no_block = λ d n there. elim (ℕ_discrete d p.block) [
      | yes same ↦ (p.ref, some_p, rw same counted)
      | no other ↦
          let (r, nr, q) = h.no_block d n (ground arith) in (r, nr, was_counted r d counted q)
    ];
  }

  -- The last reference: the object and its block go.
  freed :
      Held (more p c) m
      → c p.ref p.block ≡ 0
      → Held c (put_uses p.block none (put_live p.ref false m))
  freed h last =
      let here : 0 < more p c p.ref p.block = ground arith in
      record {
        held = λ r d nr q.
            let (used, alive) = h.held r d nr (omega arith) in
            elim (ℕ_discrete d p.block) [
              | yes e ↦
                  let (same, same_d) : (r ≡ p.ref) × (d ≡ p.block) =
                    h.one_block r d p.ref p.block nr some_p (omega arith) here (inr e) in
                  absurd (ground arith)
              | no other ↦ elim (ℕ_discrete r p.ref) [
                | yes e ↦
                    let (same, same_d) : (r ≡ p.ref) × (d ≡ p.block) =
                      h.one_block r d p.ref p.block nr some_p (omega arith) here (inl e) in
                    absurd (other same_d)
                | no apart ↦ (ground arith, ground arith)
              ]
            ];
        one_block =
            λ r d r' d' nr nr' q q' e. h.one_block r d r' d' nr nr' (omega arith) (omega arith) e;
        no_leak = λ r alive. elim (ℕ_discrete r p.ref) [
          | yes same ↦ absurd (ground arith)
          | no other ↦
              let (d, nr, q) = h.no_leak r (ground arith) in
              (d, nr, elsewhere r d (λ e f. other e) q)
        ];
        no_block = λ d n there. elim (ℕ_discrete d p.block) [
          | yes same ↦ absurd (ground arith)
          | no other ↦
              let (r, nr, q) = h.no_block d n (ground arith) in
              (r, nr, elsewhere r d (λ e f. other f) q)
        ];
      }

-- The first reference to a new object with a new block.
pub created :
    (c : ℕ → ℕ → ℕ) (r d : ℕ) (m : Memory)
    → r ≢ 0
    → m.live r ≡ false
    → m.uses d ≡ none
    → Held c m
    → Held (more (record { ref = r; block = d }) c) (put_uses d (some 1) (put_live r true m))
created c r d m some_r new_r new_d h =
    let p : Pointer = record { ref = r; block = d } in
    let apart : (r' d' : ℕ) → r' ≢ 0 → 0 < c r' d' → (r' ≢ r) × (d' ≢ d) = λ r' d' nr q.
      let (used, alive) = h.held r' d' nr q in (λ e. ground arith, λ e. ground arith) in
    record {
      held = λ r' d' nr q. elim (more_cases c p m some_r r' d') [
        | inl (e, f, g) ↦
            let none_yet : c r' d' ≡ 0 = elim (dec_lt 0 (c r' d')) [
              | yes some_c ↦ absurd ((apart r' d' nr some_c).0 e)
              | no no_c ↦ omega arith
            ] in
            (ground arith, ground arith)
        | inr same ↦
            let q' : 0 < c r' d' = omega arith in
            let (away, away_d) = apart r' d' nr q' in
            let (used, alive) = h.held r' d' nr q' in (ground arith, ground arith)
      ];
      one_block = λ r1 d1 r2 d2 n1 n2 q1 q2 e. elim (more_cases c p m some_r r1 d1) [
        | inl (e1, f1, g1) ↦ elim (more_cases c p m some_r r2 d2) [
          | inl (e2, f2, g2) ↦ (cc, cc)
          | inr same ↦ let (away, away_d) = apart r2 d2 n2 (omega arith) in absurd (ground arith)
        ]
        | inr same1 ↦ elim (more_cases c p m some_r r2 d2) [
          | inl (e2, f2, g2) ↦
              let (away, away_d) = apart r1 d1 n1 (omega arith) in absurd (ground arith)
          | inr same2 ↦ h.one_block r1 d1 r2 d2 n1 n2 (omega arith) (omega arith) e
        ]
      ];
      no_leak = λ r' alive. elim (ℕ_discrete r' r) [
        | yes same ↦ (d, rw same some_r, ground arith)
        | no other ↦ let (d', nr, q) = h.no_leak r' (ground arith) in (d', nr, omega arith)
      ];
      no_block = λ d' n there. elim (ℕ_discrete d' d) [
        | yes same ↦ (r, some_r, ground arith)
        | no other ↦ let (r', nr, q) = h.no_block d' n (ground arith) in (r', nr, omega arith)
      ];
    }

pub retain_lem :
    (c : ℕ → ℕ → ℕ) (p : Pointer) (m : Memory)
    → Held c m
    → (p.ref ≢ 0 → 0 < c p.ref p.block)
    → c p.ref p.block + 1 < u32_mod
    → (n : Memory) × (retain p m ≡ done n) × Held (more p c) n
unfolding retain
retain_lem c p m h counted small = elim (ℕ_discrete p.ref 0) [
  | yes is_zero ↦ (m, ground arith, Held_same c (more p c) m (λ r d nr. ground arith) h)
  | no some_p ↦
      let (used, alive) = h.held p.ref p.block some_p (counted some_p) in
      let test : is_null p ≡ false = ground arith in
      (
        put_uses p.block (some (c p.ref p.block + 1)) m,
        rw (test, used, increment) (ground arith),
        retained c p m some_p h (counted some_p),
      )
]

pub release_lem :
    (c : ℕ → ℕ → ℕ) (p : Pointer) (m : Memory)
    → Held (more p c) m
    → c p.ref p.block + 1 < u32_mod
    → (n : Memory) × (decrement_usage p m ≡ done n) × Held c n
unfolding decrement_usage
release_lem c p m h small = elim (ℕ_discrete p.ref 0) [
  | yes is_zero ↦ (m, ground arith, Held_same (more p c) c m (λ r d nr. ground arith) h)
  | no some_p ↦
      let (used, alive) = h.held p.ref p.block some_p (ground arith) in
      let test : is_null p ≡ false = ground arith in
      let all : more p c p.ref p.block ≡ suc (c p.ref p.block) = ground arith in
      elim (ℕ_discrete (c p.ref p.block) 0) [
        | yes last ↦
            let zero_left : (sub32 (more p c p.ref p.block) 1 == 0) ≡ true = ground arith in
            let run_last : decrement_usage p m
                ≡ done (put_uses p.block none (put_live p.ref false m)) =
              rw (test, decrement, used, zero_left, alive) refl in
            (put_uses p.block none (put_live p.ref false m), run_last, freed c p m some_p h last)
        | no others ↦
            let left : sub32 (more p c p.ref p.block) 1 ≡ c p.ref p.block =
              omega (arith, all, small) in
            let some_left : (c p.ref p.block == 0) ≡ false = ground arith in
            let run_on : decrement_usage p m ≡ done (put_uses p.block (some (c p.ref p.block)) m) =
              rw (test, decrement, used, left, some_left) refl in
            (
              put_uses p.block (some (c p.ref p.block)) m,
              run_on,
              let_go c p m some_p h (omega arith),
            )
      ]
]
