-- ===== src/Interrupts/Commands/Deadlock.antt =====
-- That two processors in send_command_all of src/int/lapic.cpp stop one another, and that one command at
-- a time is under way.
use cantos.Prelude.{
  ℕ, suc, ◌≡◌, ◌≢◌, refl, sym, ap, ◌∙◌, true, false, List, [], ◌∷◌, ◌==◌, arith, Bool-cases, inl,
  inr,
}
use native.Mathlib.Decide.{ℕ_discrete}
use cantos.Interrupts.Commands.{
  Phase, free, locking, waiting, Cores, put_phase, others_from, next_target, Step, begin, send,
  finish, handle, Reaches, here, later, quiet,
}

pub differs : (i j : ℕ) → i ≢ j → (i == j) ≡ false
differs i j other = ground arith

-- One processor waits for another, which waits for the mutex, which is locked.
pub record Stuck (a b : ℕ) (ps qs : List ℕ) (q : ℕ) (s : Cores) : Type 0 where
  pub sender : s.phase a ≡ waiting b ps
  pub busy : s.phase b ≡ locking q qs
  pub held : s.locked ≡ true
  pub unfinished : s.command_finished b ≡ false
  -- Nobody else is past the mutex.
  pub only : (c p : ℕ) (rs : List ℕ) → s.phase c ≡ waiting p rs → c ≡ a

update_ne :
    (i : ℕ) (x : Phase) (phase : ℕ → Phase) (j : ℕ) → j ≢ i → put_phase i x phase j ≡ phase j
update_ne i x phase j other = rw (differs j i other) refl

pub not_waiting : (l : List ℕ) (p : ℕ) (rs : List ℕ) → next_target l ≢ waiting p rs
not_waiting [] p rs e = cc
not_waiting (q ∷ qs) p rs e = cc

-- After a processor has got a phase that is no waiting, those that wait did so before.
pub still_waiting :
    (me : ℕ) (l : List ℕ) (phase : ℕ → Phase) (c p : ℕ) (rs : List ℕ)
    → put_phase me (next_target l) phase c ≡ waiting p rs
    → phase c ≡ waiting p rs
still_waiting me l phase c p rs e = elim (Bool-cases (c == me)) [
  | inl same ↦ absurd (not_waiting l p rs (rw same at e))
  | inr other ↦ rw other at e
]

apart : (phase : ℕ → Phase) (i j : ℕ) {x y : Phase} → phase i ≡ x → phase j ≡ y → x ≢ y → i ≢ j
apart phase i j e f other same = other (sym e ∙ ap phase same ∙ f)

Step-Stuck :
    {n : ℕ} {a b q : ℕ} {ps qs : List ℕ} {s t : Cores}
    → Step n s t
    → Stuck a b ps qs q s
    → Stuck a b ps qs q t
Step-Stuck {n} {a} {b} {s} (begin me idle) st =
    let away_a : me ≢ a = apart s.phase me a idle st.sender (λ e. cc) in
    let away_b : me ≢ b = apart s.phase me b idle st.busy (λ e. cc) in
    record {
      sender = rw (differs a me (λ e. away_a (sym e))) st.sender;
      busy = rw (differs b me (λ e. away_b (sym e))) st.busy;
      held = st.held;
      unfinished = st.unfinished;
      only = λ c p rs e. st.only c p rs (still_waiting me (others_from n 0 me) s.phase c p rs e);
    }
Step-Stuck (send me p rs at free_lock) st =
    absurd (let bad : true ≡ false = sym st.held ∙ free_lock in cc)
Step-Stuck {a} {b} {ps} {s} (finish me p rs at finished) st =
    let here_a : me ≡ a = st.only me p rs at in
    let same : waiting p rs ≡ waiting b ps = sym at ∙ ap s.phase here_a ∙ st.sender in
    let target : p ≡ b = cc in
    let bad : true ≡ false = sym finished ∙ ap s.command_finished target ∙ st.unfinished in
    absurd cc
Step-Stuck {b} {s} (handle me idle sent) st =
    let away_b : me ≢ b = apart s.phase me b idle st.busy (λ e. cc) in
    record {
      sender = st.sender;
      busy = st.busy;
      held = st.held;
      unfinished = rw (differs b me (λ e. away_b (sym e))) st.unfinished;
      only = st.only;
    }

Reaches-Stuck :
    {n : ℕ} {a b q : ℕ} {ps qs : List ℕ} {s t : Cores}
    → Reaches n s t
    → Stuck a b ps qs q s
    → Stuck a b ps qs q t
Reaches-Stuck here st = st
Reaches-Stuck (later before step) st = Step-Stuck step (Reaches-Stuck before st)

-- Processor 0 waits for processor 1, which is before the lock with its interrupts disabled.
abbrev pub called : ℕ → ℕ → Phase
called k =
    put_phase 1 (next_target (others_from (suc (suc k)) 0 1))
      (put_phase 0 (next_target (others_from (suc (suc k)) 0 0)) quiet.phase)

abbrev pub stuck : ℕ → Cores
stuck k = record {
  phase = put_phase 0 (waiting 1 (others_from k 2 0)) (called k);
  locked = true;
  command_finished = put_phase 1 false quiet.command_finished;
  sent = put_phase 1 true quiet.sent;
}

stuck_reached : (k : ℕ) → Reaches (suc (suc k)) quiet (stuck k)
stuck_reached k =
    later (later (later here (begin 0 refl)) (begin 1 refl))
      (send 0 1 (others_from k 2 0) refl refl)

stuck_only : (k c p : ℕ) (rs : List ℕ) → (stuck k).phase c ≡ waiting p rs → c ≡ 0
stuck_only k c p rs e = elim (ℕ_discrete c 0) [
  | yes same ↦ same
  | no other ↦
      let first : called k c ≡ waiting p rs =
        sym (update_ne 0 (waiting 1 (others_from k 2 0)) (called k) c other) ∙ e in
      let second =
        still_waiting 1 (others_from (suc (suc k)) 0 1)
          (put_phase 0 (next_target (others_from (suc (suc k)) 0 0)) quiet.phase) c p rs first in
      let third : free ≡ waiting p rs =
        still_waiting 0 (others_from (suc (suc k)) 0 0) quiet.phase c p rs second in
      absurd cc
]

stuck-Stuck : (k : ℕ) → Stuck 0 1 (others_from k 2 0) (others_from k 2 1) 0 (stuck k)
stuck-Stuck k = record {
  sender = refl;
  busy = refl;
  held = refl;
  unfinished = refl;
  only = stuck_only k;
}

-- On two processors or more, the processors 0 and 1 can call send_command_all so that from then on,
-- whatever happens, 0 waits for 1 to finish a command and 1 for the mutex that 0 holds.
pub send_command_all-stuck :
    (k : ℕ)
    → (s : Cores) × Reaches (suc (suc k)) quiet s
      × ((t : Cores)
          → Reaches (suc (suc k)) s t
          → (t.phase 0 ≡ waiting 1 (others_from k 2 0))
            × (t.phase 1 ≡ locking 0 (others_from k 2 1))
            × (t.locked ≡ true))
send_command_all-stuck k = (
  stuck k,
  stuck_reached k,
  λ t reached. let st = Reaches-Stuck reached (stuck-Stuck k) in (st.sender, st.busy, st.held),
)
