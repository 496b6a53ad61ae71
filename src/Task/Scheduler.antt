-- ===== src/Task/Scheduler.antt =====
-- The scheduler of src/task/task.cpp on several processors. Each operation below is what the code
-- does inside one critical section or between two of them, so a list of operations is an
-- interleaving. The stack switching is assembly and moves no part of this state. The counter of
-- tasks is taken not to reach 2 ^ 32.
pub mod Counts
pub mod Safe
pub mod Steps
pub mod Reachable
mod Tests
use cantos.Prelude.{
  ℕ, zero, suc, ◌+◌, ◌<◌, Bool, true, false, not, List, [], ◌∷◌, ◌++◌, Option, none, some, ◌==◌,
  if◌then◌else◌, get_elem?, set,
}

-- What a processor is doing: waiting in schedule, between the pop and the test of in_use, in a
-- thread, or in task_yield_done between the write of in_use and waiting_mutex.
pub data Phase : Type 0 where
  awaiting : Phase
  entering : ℕ → Phase
  running : ℕ → Phase
  leaving : ℕ → Phase

-- Threads by their task_id. `waiting_threads` has its front first; `resuming` are the threads that
-- resume has marked and not yet queued.
pub record Scheduler : Type 0 where
  pub cpus : List Phase
  pub waiting_threads : List ℕ
  pub resuming : List ℕ
  pub wchan : ℕ → ℕ
  pub in_use : ℕ → Bool
  pub task_counter : ℕ

abbrev pub no_wchan : ℕ
no_wchan = 0

-- An operation goes on, ends in panic(), or is not the next one of that processor.
pub data Result : Type 0 where
  next : Scheduler → Result
  panic : Result
  blocked : Result

abbrev pub assign {ℓ} : {A : Type ℓ} → (ℕ → A) → ℕ → A → ℕ → A
assign f t v u = if u == t then v else f u

-- The write to a processor's phase.
abbrev pub at_phase : ℕ → Phase → Scheduler → Scheduler
at_phase cpu p s = record s { cpus = set s.cpus cpu p }

-- Process::new_thread: a fresh thread at the front of the queue.
pub new_thread : Scheduler → Result
new_thread s = next (record s {
  task_counter = s.task_counter + 1;
  wchan = assign s.wchan (s.task_counter + 1) no_wchan;
  in_use = assign s.in_use (s.task_counter + 1) false;
  waiting_threads = (s.task_counter + 1) ∷ s.waiting_threads;
})

-- wait up to the call of task_yield.
pub wait : ℕ → ℕ → Scheduler → Result
wait cpu w s = elim (get_elem? s.cpus cpu) [
  | some (running t) ↦ next (record s { wchan = assign s.wchan t w })
  | _ ↦ blocked
]

-- task_yield_done up to waiting_mutex.lock().
pub yield_out : ℕ → Scheduler → Result
yield_out cpu s = elim (get_elem? s.cpus cpu) [
  | some (running t) ↦
      next (record (at_phase cpu (leaving t) s) { in_use = assign s.in_use t false })
  | _ ↦ blocked
]

-- The rest of task_yield_done up to schedule().
abbrev pub requeue : ℕ → Scheduler → List ℕ
requeue t s = if s.wchan t == no_wchan then t ∷ s.waiting_threads else s.waiting_threads

pub yield_queue : ℕ → Scheduler → Result
yield_queue cpu s = elim (get_elem? s.cpus cpu) [
  | some (leaving t) ↦ next (record (at_phase cpu awaiting s) { waiting_threads = requeue t s })
  | _ ↦ blocked
]

-- back() and pop_back() of a list.
pub pop_back : List ℕ → Option (ℕ × List ℕ)
pop_back [] = none
pop_back (t ∷ ts) = elim (pop_back ts) [ none ↦ some (t, []) | some (u, us) ↦ some (u, t ∷ us) ]

-- schedule up to _mutex.lock(), once the queue is not empty.
abbrev pub taken : ℕ → Scheduler → Option (ℕ × List ℕ) → Result
taken cpu s none = blocked
taken cpu s (some (t, ts)) = next (record (at_phase cpu (entering t) s) { waiting_threads = ts })

pub take : ℕ → Scheduler → Result
unfolding pop_back
take cpu s = elim (get_elem? s.cpus cpu) [
  | some awaiting ↦ taken cpu s (pop_back s.waiting_threads)
  | _ ↦ blocked
]

-- The rest of schedule, with task_enter.
abbrev pub entered : ℕ → ℕ → Scheduler → Bool → Result
entered cpu t s true = panic
entered cpu t s false =
    next (record (at_phase cpu (running t) s) { in_use = assign s.in_use t true })

pub enter : ℕ → Scheduler → Result
enter cpu s = elim (get_elem? s.cpus cpu) [
  | some (entering t) ↦ entered cpu t s (s.in_use t)
  | _ ↦ blocked
]

-- task_end_done: the thread is dropped and never queued again.
pub end : ℕ → Scheduler → Result
end cpu s = elim (get_elem? s.cpus cpu) [
  | some (running t) ↦ next (at_phase cpu awaiting s)
  | _ ↦ blocked
]

-- resume up to the unlock of _mutex.
pub resume_mark : ℕ → Scheduler → Result
resume_mark t s =
    if s.wchan t == no_wchan
    then next s
    else next (record s { wchan = assign s.wchan t no_wchan; resuming = t ∷ s.resuming })

-- The rest of resume.
pub resume_queue : Scheduler → Result
resume_queue s = elim s.resuming [
  | [] ↦ blocked
  | t ∷ ts ↦ next (record s { resuming = ts; waiting_threads = t ∷ s.waiting_threads })
]

pub data Op : Type 0 where
  do_new_thread : Op
  do_wait : ℕ → ℕ → Op
  do_yield_out : ℕ → Op
  do_yield_queue : ℕ → Op
  do_take : ℕ → Op
  do_enter : ℕ → Op
  do_end : ℕ → Op
  do_resume_mark : ℕ → Op
  do_resume_queue : Op

pub perform : Op → Scheduler → Result
perform do_new_thread s = new_thread s
perform (do_wait cpu w) s = wait cpu w s
perform (do_yield_out cpu) s = yield_out cpu s
perform (do_yield_queue cpu) s = yield_queue cpu s
perform (do_take cpu) s = take cpu s
perform (do_enter cpu) s = enter cpu s
perform (do_end cpu) s = end cpu s
perform (do_resume_mark t) s = resume_mark t s
perform do_resume_queue s = resume_queue s
