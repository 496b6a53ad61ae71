-- ===== src/Interrupts/Commands/Exclusion.antt =====
-- That one command at a time is under way between the processors of src/int/lapic.cpp.
use cantos.Prelude.{ℕ, ◌≡◌, ◌≢◌, refl, sym, ◌∙◌, true, false, List, ◌==◌, arith, ◌⊎◌, inl, inr}
use native.Mathlib.Decide.{ℕ_discrete}
use cantos.Interrupts.Commands.{
  Phase, waiting, Cores, put_phase, others_from, next_target, Step, begin, send, finish, handle,
  Reaches, here, later, quiet,
}
use cantos.Interrupts.Commands.Deadlock.{still_waiting, not_waiting, differs}

-- A processor that waits for a command has the mutex, and it is the only one.
pub record Exclusive (s : Cores) : Type 0 where
  pub holds : (c p : ℕ) (rs : List ℕ) → s.phase c ≡ waiting p rs → s.locked ≡ true
  pub one :
      (c p : ℕ) (rs : List ℕ) (d q : ℕ) (qs : List ℕ)
      → s.phase c ≡ waiting p rs
      → s.phase d ≡ waiting q qs
      → c ≡ d

-- A phase that a processor gets by locking, or had before.
waiting_cases :
    (me p q : ℕ) (ps rs : List ℕ) (phase : ℕ → Phase) (c : ℕ)
    → put_phase me (waiting p ps) phase c ≡ waiting q rs
    → (c ≡ me) ⊎ (phase c ≡ waiting q rs)
waiting_cases me p q ps rs phase c e = elim (ℕ_discrete c me) [
  | yes same ↦ inl same
  | no other ↦ inr (rw (differs c me other) at e)
]

Step-Exclusive : {n : ℕ} {s t : Cores} → Step n s t → Exclusive s → Exclusive t
Step-Exclusive {n} {s} (begin me idle) ex =
    let before : (c p : ℕ) (rs : List ℕ)
        → put_phase me (next_target (others_from n 0 me)) s.phase c ≡ waiting p rs
        → s.phase c ≡ waiting p rs =
      still_waiting me (others_from n 0 me) s.phase in
    record {
      holds = λ c p rs e. ex.holds c p rs (before c p rs e);
      one = λ c p rs d q qs e f. ex.one c p rs d q qs (before c p rs e) (before d q qs f);
    }
Step-Exclusive {s} (send me p ps at open_lock) ex =
    let nobody : (c q : ℕ) (rs : List ℕ) → s.phase c ≢ waiting q rs =
      λ c q rs e. let bad : true ≡ false = sym (ex.holds c q rs e) ∙ open_lock in cc in
    let mine : (c q : ℕ) (rs : List ℕ)
        → put_phase me (waiting p ps) s.phase c ≡ waiting q rs
        → c ≡ me =
      λ c q rs e. elim (waiting_cases me p q ps rs s.phase c e) [
        | inl same ↦ same
        | inr old ↦ absurd (nobody c q rs old)
      ] in
    record {
      holds = λ c q rs e. refl;
      one = λ c q rs d r qs e f. mine c q rs e ∙ sym (mine d r qs f);
    }
Step-Exclusive {s} (finish me p ps at finished) ex =
    let nobody : (c q : ℕ) (rs : List ℕ) → put_phase me (next_target ps) s.phase c ≢ waiting q rs =
      λ c q rs e.
        let old : s.phase c ≡ waiting q rs = still_waiting me ps s.phase c q rs e in
        let same : c ≡ me = ex.one c q rs me p ps old at in
        let test : (c == me) ≡ true = ground arith in not_waiting ps q rs (rw test at e) in
    record {
      holds = λ c q rs e. absurd (nobody c q rs e);
      one = λ c q rs d r qs e f. absurd (nobody c q rs e);
    }
Step-Exclusive {s} (handle me idle sent) ex = record { holds = ex.holds; one = ex.one }

-- In every state that any interleaving reaches from the start, a processor that waits for a command
-- has locked the mutex, and no other processor waits for one.
pub Reaches-Exclusive : {n : ℕ} {s : Cores} → Reaches n quiet s → Exclusive s
Reaches-Exclusive here = record { holds = λ c p rs e. cc; one = λ c p rs d q qs e f. cc }
Reaches-Exclusive (later before step) = Step-Exclusive step (Reaches-Exclusive before)
