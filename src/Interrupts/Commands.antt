-- ===== src/Interrupts/Commands.antt =====
-- The commands that the processors send one another, send_command and send_command_all of
-- src/int/lapic.cpp, on several processors: each step is one processor between two of its accesses to
-- what they share. send_command_all runs with interrupts disabled, so a processor takes a command only
-- while it is in neither.
pub mod Deadlock
pub mod Exclusion
mod Tests
use cantos.Prelude.{
  ℕ, zero, suc, ◌+◌, ◌<◌, ◌≡◌, ◌≢◌, Bool, true, false, List, [], ◌∷◌, ◌==◌, if◌then◌else◌,
}

-- Where a processor is: outside of send_command_all, before the lock of _command_mutex for the
-- processors that are left, or waiting for the command_finished of one, with the others left.
pub data Phase : Type 0 where
  free : Phase
  locking : ℕ → List ℕ → Phase
  waiting : ℕ → List ℕ → Phase

-- `locked` is the flag of the mutex; `sent` says to which processors an interrupt is on its way.
pub record Cores : Type 0 where
  pub phase : ℕ → Phase
  pub locked : Bool
  pub command_finished : ℕ → Bool
  pub sent : ℕ → Bool

abbrev pub put_phase {ℓ} : {A : Type ℓ} → ℕ → A → (ℕ → A) → ℕ → A
put_phase i x f j = if j == i then x else f j

-- The processors below a number, the least first, without one of them.
abbrev pub others_from : ℕ → ℕ → ℕ → List ℕ
others_from zero i me = []
others_from (suc n) i me =
    if i == me then others_from n (suc i) me else i ∷ others_from n (suc i) me

-- The loop of send_command_all at the processors that are left.
abbrev pub next_target : List ℕ → Phase
next_target [] = free
next_target (p ∷ ps) = locking p ps

-- The step of one processor, for `n` of them. Nothing happens where it can only go on waiting.
pub data Step (n : ℕ) (s : Cores) : Cores → Type 0 where
  -- send_command_all is called.
  begin :
      (me : ℕ)
      → s.phase me ≡ free
      → Step n s (record s { phase = put_phase me (next_target (others_from n 0 me)) s.phase })
  -- _command_mutex.lock() succeeds, and send_command goes on to the interrupt.
  send :
      (me p : ℕ) (ps : List ℕ)
      → s.phase me ≡ locking p ps
      → s.locked ≡ false
      → Step n s (record s {
        phase = put_phase me (waiting p ps) s.phase;
        locked = true;
        command_finished = put_phase p false s.command_finished;
        sent = put_phase p true s.sent;
      })
  -- The loop of send_command ends, and the mutex is unlocked.
  finish :
      (me p : ℕ) (ps : List ℕ)
      → s.phase me ≡ waiting p ps
      → s.command_finished p ≡ true
      → Step n s (record s { phase = put_phase me (next_target ps) s.phase; locked = false })
  -- handle_command, in a processor whose interrupts are enabled.
  handle :
      (me : ℕ)
      → s.phase me ≡ free
      → s.sent me ≡ true
      → Step n s (record s {
        command_finished = put_phase me true s.command_finished;
        sent = put_phase me false s.sent;
      })

pub data Reaches (n : ℕ) (s : Cores) : Cores → Type 0 where
  here : Reaches n s s
  later : {t u : Cores} → Reaches n s t → Step n t u → Reaches n s u

-- No command has been sent yet.
abbrev pub quiet : Cores
quiet = record {
  phase = λ i. free;
  locked = false;
  command_finished = λ i. true;
  sent = λ i. false;
}
