-- ===== src/Task/Scheduler/Reachable.antt =====
-- What the interleavings of src/task/task.cpp reach, if resume is kept for threads that wait.
use cantos.Prelude.{ℕ, zero, suc, ◌≡◌, ◌≢◌, ◌≤◌, ◌+◌, refl, inl, inr, false, List, [], ◌∷◌, arith}
use cantos.Task.Scheduler.{Phase, awaiting, Scheduler, next, panic, no_wchan, Op, perform}
use cantos.Task.Scheduler.Counts.{runs, leaves, enters, tally}
use cantos.Task.Scheduler.Steps.{IsAllowed, perform-IsFine}
use cantos.Task.Scheduler.Safe.{IsSafe, queued, ran, left}

-- The states that allowed operations lead to.
pub data Reaches : Scheduler → Scheduler → Type 0 where
  here : {s : Scheduler} → Reaches s s
  after :
      {s t u : Scheduler} (op : Op)
      → Reaches s t
      → IsAllowed op t
      → perform op t ≡ next u
      → Reaches s u

Reaches-IsSafe : {s t : Scheduler} → IsSafe s → Reaches s t → IsSafe t
Reaches-IsSafe i here = i
Reaches-IsSafe i (after {t = t} {u = u} op path allowed went) =
    elim (perform-IsFine op t (Reaches-IsSafe i path) allowed) [
      | inl stuck ↦ absurd (cc)
      | inr (v, found, safe) ↦ let same : v ≡ u = cc in rw same at safe
    ]

-- All processors wait in schedule, and no thread exists.
abbrev pub all_awaiting : ℕ → List Phase
all_awaiting zero = []
all_awaiting (suc n) = awaiting ∷ all_awaiting n

abbrev pub start : ℕ → Scheduler
start n = record {
  cpus = all_awaiting n;
  waiting_threads = [];
  resuming = [];
  wchan = λ t. no_wchan;
  in_use = λ t. false;
  task_counter = 0;
}

tally-all_awaiting : (w : Phase → ℕ) (n : ℕ) → w awaiting ≡ 0 → tally w (all_awaiting n) ≡ 0
tally-all_awaiting w zero h = refl
tally-all_awaiting w (suc n) h = omega (arith, tally-all_awaiting w n h)

start-IsSafe : (n : ℕ) → IsSafe (start n)
start-IsSafe n =
    let e : (t : ℕ) → tally (enters t) (all_awaiting n) ≡ 0 =
      λ t. tally-all_awaiting (enters t) n refl in
    let r : (t : ℕ) → tally (runs t) (all_awaiting n) ≡ 0 =
      λ t. tally-all_awaiting (runs t) n refl in
    let l : (t : ℕ) → tally (leaves t) (all_awaiting n) ≡ 0 =
      λ t. tally-all_awaiting (leaves t) n refl in
    record {
      once = λ t. omega (arith, e t, r t, l t);
      ready = λ t p. refl;
      free = λ t p. refl;
      busy = λ t p. absurd (omega (arith, r t));
      gone = λ t p. refl;
      fresh = λ t p. omega (arith, e t, r t, l t);
    }

-- In every state that allowed operations reach from the start, on any number of processors, each
-- thread is queued at most once, or held by one processor, and never both.
pub Reaches-once :
    (n t : ℕ) {s : Scheduler} → Reaches (start n) s → queued t s + (ran t s + left t s) ≤ 1
Reaches-once n t path = (Reaches-IsSafe (start-IsSafe n) path).once t

-- In every state that allowed operations reach from the start, on any number of processors, no
-- operation that is allowed there ends in panic(): schedule never finds a thread in use in the
-- queue.
pub Reaches-no_panic :
    (n : ℕ) (op : Op) {s : Scheduler} → Reaches (start n) s → IsAllowed op s → perform op s ≢ panic
Reaches-no_panic n op {s} path allowed ended =
    elim (perform-IsFine op s (Reaches-IsSafe (start-IsSafe n) path) allowed) [
      | inl stuck ↦ absurd (cc)
      | inr (v, found, safe) ↦ absurd (cc)
    ]
