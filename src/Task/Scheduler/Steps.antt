-- ===== src/Task/Scheduler/Steps.antt =====
-- One operation of src/task/task.cpp on a safe state, if resume is kept for threads that wait.
use cantos.Prelude.{
  ℕ, ◌≤◌, ◌≡◌, ◌⊎◌, refl, inl, inr, false, List, [], ◌∷◌, some, ◌==◌, get_elem?, arith,
  Option-cases, Bool-cases,
}
use cantos.Task.Scheduler.{
  awaiting, entering, running, leaving, Scheduler, Result, next, blocked, no_wchan, pop_back,
  new_thread, wait, yield_out, yield_queue, take, taken, enter, end, resume_mark, resume_queue, Op,
  do_new_thread, do_wait, do_yield_out, do_yield_queue, do_take, do_enter, do_end, do_resume_mark,
  do_resume_queue, perform,
}
use cantos.Task.Scheduler.Safe.{
  IsSafe, left, new_thread-IsSafe, resume_mark-IsSafe, resume_queue-IsSafe, wait-IsSafe,
  yield_out-IsSafe, yield_queue-IsSafe, take-IsSafe, enter_free, enter-IsSafe, end-IsSafe,
}

-- The operation is not the next one of its processor, or it goes on to a safe state.
abbrev pub IsFine : Result → Type 0
IsFine r = (r ≡ blocked) ⊎ ((s' : Scheduler) × (r ≡ next s') × IsSafe s')

-- resume is called only for a thread that exists, is not in use, and is not on its way out.
abbrev pub IsAllowed : Op → Scheduler → Type 0
IsAllowed (do_resume_mark t) s = (t ≤ s.task_counter) × (s.in_use t ≡ false) × (left t s ≡ 0)
IsAllowed do_new_thread s = Unit {0}
IsAllowed (do_wait cpu w) s = Unit {0}
IsAllowed (do_yield_out cpu) s = Unit {0}
IsAllowed (do_yield_queue cpu) s = Unit {0}
IsAllowed (do_take cpu) s = Unit {0}
IsAllowed (do_enter cpu) s = Unit {0}
IsAllowed (do_end cpu) s = Unit {0}
IsAllowed do_resume_queue s = Unit {0}

module _ (s : Scheduler) (i : IsSafe s) where
  wait-IsFine : (cpu w : ℕ) → IsFine (wait cpu w s)
  unfolding wait
  wait-IsFine cpu w = elim (Option-cases (get_elem? s.cpus cpu)) [
    | inl h ↦ rw (h, wait) (inl refl)
    | inr (awaiting, h) ↦ rw (h, wait) (inl refl)
    | inr (entering u, h) ↦ rw (h, wait) (inl refl)
    | inr (running u, h) ↦ rw (h, wait) (inr (_, refl, wait-IsSafe s i cpu u w h))
    | inr (leaving u, h) ↦ rw (h, wait) (inl refl)
  ]

  yield_out-IsFine : (cpu : ℕ) → IsFine (yield_out cpu s)
  unfolding yield_out
  yield_out-IsFine cpu = elim (Option-cases (get_elem? s.cpus cpu)) [
    | inl h ↦ rw (h, yield_out) (inl refl)
    | inr (awaiting, h) ↦ rw (h, yield_out) (inl refl)
    | inr (entering u, h) ↦ rw (h, yield_out) (inl refl)
    | inr (running u, h) ↦ rw (h, yield_out) (inr (_, refl, yield_out-IsSafe s i cpu u h))
    | inr (leaving u, h) ↦ rw (h, yield_out) (inl refl)
  ]

  yield_queue-IsFine : (cpu : ℕ) → IsFine (yield_queue cpu s)
  unfolding yield_queue
  yield_queue-IsFine cpu = elim (Option-cases (get_elem? s.cpus cpu)) [
    | inl h ↦ rw (h, yield_queue) (inl refl)
    | inr (awaiting, h) ↦ rw (h, yield_queue) (inl refl)
    | inr (entering u, h) ↦ rw (h, yield_queue) (inl refl)
    | inr (running u, h) ↦ rw (h, yield_queue) (inl refl)
    | inr (leaving u, h) ↦ rw (h, yield_queue) (inr (_, refl, yield_queue-IsSafe s i cpu u h))
  ]

  taken-IsFine :
      (cpu : ℕ)
      → get_elem? s.cpus cpu ≡ some awaiting
      → IsFine (taken cpu s (pop_back s.waiting_threads))
  taken-IsFine cpu h = elim (Option-cases (pop_back s.waiting_threads)) [
    | inl empty ↦ rw empty (inl refl)
    | inr ((u, us), popped) ↦ rw popped (inr (_, refl, take-IsSafe s i cpu u us h popped))
  ]

  take-IsFine : (cpu : ℕ) → IsFine (take cpu s)
  unfolding take
  take-IsFine cpu = elim (Option-cases (get_elem? s.cpus cpu)) [
    | inl h ↦ rw (h, take) (inl refl)
    | inr (awaiting, h) ↦ rw (h, take) (taken-IsFine cpu h)
    | inr (entering u, h) ↦ rw (h, take) (inl refl)
    | inr (running u, h) ↦ rw (h, take) (inl refl)
    | inr (leaving u, h) ↦ rw (h, take) (inl refl)
  ]

  enter-IsFine : (cpu : ℕ) → IsFine (enter cpu s)
  unfolding enter
  enter-IsFine cpu = elim (Option-cases (get_elem? s.cpus cpu)) [
    | inl h ↦ rw (h, enter) (inl refl)
    | inr (awaiting, h) ↦ rw (h, enter) (inl refl)
    | inr (entering u, h) ↦
        let unused = enter_free s i cpu u h in
        rw (h, enter) (rw unused (inr (_, refl, enter-IsSafe s i cpu u h)))
    | inr (running u, h) ↦ rw (h, enter) (inl refl)
    | inr (leaving u, h) ↦ rw (h, enter) (inl refl)
  ]

  end-IsFine : (cpu : ℕ) → IsFine (end cpu s)
  unfolding end
  end-IsFine cpu = elim (Option-cases (get_elem? s.cpus cpu)) [
    | inl h ↦ rw (h, end) (inl refl)
    | inr (awaiting, h) ↦ rw (h, end) (inl refl)
    | inr (entering u, h) ↦ rw (h, end) (inl refl)
    | inr (running u, h) ↦ rw (h, end) (inr (_, refl, end-IsSafe s i cpu u h))
    | inr (leaving u, h) ↦ rw (h, end) (inl refl)
  ]

  resume_mark-IsFine : (t : ℕ) → IsAllowed (do_resume_mark t) s → IsFine (resume_mark t s)
  unfolding resume_mark
  resume_mark-IsFine t (old, unused, there) = elim (Bool-cases (s.wchan t == no_wchan)) [
    | inl ready ↦ rw ready (inr (s, refl, i))
    | inr waits ↦ rw waits (inr (_, refl, resume_mark-IsSafe s i t old (ground arith) unused there))
  ]

  resume_queue-IsFine : IsFine (resume_queue s)
  unfolding resume_queue
  resume_queue-IsFine = by_marked s.resuming refl
    where
      by_marked : (ts : List ℕ) → s.resuming ≡ ts → IsFine (resume_queue s)
      by_marked [] h = rw h (inl refl)
      by_marked (u ∷ us) h = rw h (inr (_, refl, resume_queue-IsSafe s i u us h))

-- An allowed operation on a safe state is fine.
pub perform-IsFine : (op : Op) (s : Scheduler) → IsSafe s → IsAllowed op s → IsFine (perform op s)
unfolding perform new_thread
perform-IsFine do_new_thread s i a = inr (_, refl, new_thread-IsSafe s i)
perform-IsFine (do_wait cpu w) s i a = wait-IsFine s i cpu w
perform-IsFine (do_yield_out cpu) s i a = yield_out-IsFine s i cpu
perform-IsFine (do_yield_queue cpu) s i a = yield_queue-IsFine s i cpu
perform-IsFine (do_take cpu) s i a = take-IsFine s i cpu
perform-IsFine (do_enter cpu) s i a = enter-IsFine s i cpu
perform-IsFine (do_end cpu) s i a = end-IsFine s i cpu
perform-IsFine (do_resume_mark t) s i a = resume_mark-IsFine s i t a
perform-IsFine do_resume_queue s i a = resume_queue-IsFine s i
