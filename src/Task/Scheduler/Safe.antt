-- ===== src/Task/Scheduler/Safe.antt =====
-- The invariant of the scheduler of src/task/task.cpp.
use cantos.Prelude.{
  ℕ, ◌+◌, ◌≤◌, ◌<◌, ◌≡◌, ◌≢◌, refl, true, false, List, ◌∷◌, some, ◌==◌, if◌then◌else◌, get_elem?,
  set, arith,
}
use cantos.Task.Scheduler.{
  awaiting, entering, running, leaving, Scheduler, assign, at_phase, requeue, no_wchan, pop_back,
}
use cantos.Task.Scheduler.Counts.{occurs, enters, runs, leaves, tally, tally-set, pop_back-occurs}

-- How often a thread is to be run: queued, marked by resume, or popped and not yet entered.
abbrev pub queued : ℕ → Scheduler → ℕ
queued t s = occurs t s.waiting_threads + (occurs t s.resuming + tally (enters t) s.cpus)

abbrev pub ran : ℕ → Scheduler → ℕ
ran t s = tally (runs t) s.cpus

abbrev pub left : ℕ → Scheduler → ℕ
left t s = tally (leaves t) s.cpus

-- Each thread is in one place at most; a thread that is to be run waits for nothing and is not in
-- use; one that runs is in use; one that leaves is not; and ids above the counter are not in use.
pub record IsSafe (s : Scheduler) : Type 0 where
  pub once : (t : ℕ) → queued t s + (ran t s + left t s) ≤ 1
  pub ready : (t : ℕ) → 0 < queued t s → s.wchan t ≡ no_wchan
  pub free : (t : ℕ) → 0 < queued t s → s.in_use t ≡ false
  pub busy : (t : ℕ) → 0 < ran t s → s.in_use t ≡ true
  pub gone : (t : ℕ) → 0 < left t s → s.in_use t ≡ false
  pub fresh : (t : ℕ) → s.task_counter < t → queued t s + (ran t s + left t s) ≡ 0

module _ (s : Scheduler) (i : IsSafe s) where
  pub new_thread-IsSafe : IsSafe (record s {
    task_counter = s.task_counter + 1;
    wchan = assign s.wchan (s.task_counter + 1) no_wchan;
    in_use = assign s.in_use (s.task_counter + 1) false;
    waiting_threads = (s.task_counter + 1) ∷ s.waiting_threads;
  })
  new_thread-IsSafe = record {
    once = λ t. ground (arith, i.once t, i.fresh t);
    ready = λ t p. ground (arith, i.ready t);
    free = λ t p. ground (arith, i.free t);
    busy = λ t p. ground (arith, i.busy t, i.fresh t);
    gone = λ t p. ground (arith, i.gone t);
    fresh = λ t p. ground (arith, i.fresh t);
  }

  pub resume_mark-IsSafe :
      (u : ℕ)
      → u ≤ s.task_counter
      → s.wchan u ≢ no_wchan
      → s.in_use u ≡ false
      → left u s ≡ 0
      → IsSafe (record s { wchan = assign s.wchan u no_wchan; resuming = u ∷ s.resuming })
  resume_mark-IsSafe u old waits unused there = record {
    once = λ t. ground (arith, i.once t, i.ready t, i.busy t);
    ready = λ t p. ground (arith, i.ready t);
    free = λ t p. ground (arith, i.free t);
    busy = i.busy;
    gone = i.gone;
    fresh = λ t p. ground (arith, i.fresh t);
  }

  pub resume_queue-IsSafe :
      (u : ℕ) (us : List ℕ)
      → s.resuming ≡ u ∷ us
      → IsSafe (record s { resuming = us; waiting_threads = u ∷ s.waiting_threads })
  resume_queue-IsSafe u us h =
      let one : (t : ℕ) → occurs t s.resuming ≡ (if u == t then 1 else 0) + occurs t us =
        λ t. rw h refl in
      record {
        once = λ t. omega (arith, i.once t, one t);
        ready = λ t p. i.ready t (omega (arith, one t));
        free = λ t p. i.free t (omega (arith, one t));
        busy = i.busy;
        gone = i.gone;
        fresh = λ t p. omega (arith, i.fresh t p, one t);
      }

  -- The phase of one processor changes; `e`, `r` and `l` are what that does to the sums.
  module _ (cpu u : ℕ) where
    pub wait-IsSafe :
        (w : ℕ)
        → get_elem? s.cpus cpu ≡ some (running u)
        → IsSafe (record s { wchan = assign s.wchan u w })
    wait-IsSafe w h =
        let r : (t : ℕ)
            → tally (runs t) (set s.cpus cpu awaiting) + (if u == t then 1 else 0) ≡ ran t s + 0 =
          λ t. tally-set (runs t) s.cpus cpu (running u) awaiting h in
        record {
          once = i.once;
          ready = λ t p. ground (arith, i.ready t p, i.once t, r t);
          free = i.free;
          busy = i.busy;
          gone = i.gone;
          fresh = i.fresh;
        }

    pub yield_out-IsSafe :
        get_elem? s.cpus cpu ≡ some (running u)
        → IsSafe (record (at_phase cpu (leaving u) s) { in_use = assign s.in_use u false })
    yield_out-IsSafe h =
        let e = λ (t : ℕ). tally-set (enters t) s.cpus cpu (running u) (leaving u) h in
        let r = λ (t : ℕ). tally-set (runs t) s.cpus cpu (running u) (leaving u) h in
        let l = λ (t : ℕ). tally-set (leaves t) s.cpus cpu (running u) (leaving u) h in
        record {
          once = λ t. omega (arith, i.once t, e t, r t, l t);
          ready = λ t p. i.ready t (omega (arith, e t));
          free = λ t p. ground (arith, i.free t, e t);
          busy = λ t p. ground (arith, i.busy t, i.once t, r t);
          gone = λ t p. ground (arith, i.gone t, l t);
          fresh = λ t p. omega (arith, i.fresh t p, e t, r t, l t);
        }

    pub yield_queue-IsSafe :
        get_elem? s.cpus cpu ≡ some (leaving u)
        → IsSafe (record (at_phase cpu awaiting s) { waiting_threads = requeue u s })
    yield_queue-IsSafe h =
        let e = λ (t : ℕ). tally-set (enters t) s.cpus cpu (leaving u) awaiting h in
        let r = λ (t : ℕ). tally-set (runs t) s.cpus cpu (leaving u) awaiting h in
        let l = λ (t : ℕ). tally-set (leaves t) s.cpus cpu (leaving u) awaiting h in
        record {
          once = λ t. ground (arith, i.once t, e t, r t, l t);
          ready = λ t p. ground (arith, i.ready t, e t);
          free = λ t p. ground (arith, i.free t, i.gone t, e t, l t);
          busy = λ t p. i.busy t (omega (arith, r t));
          gone = λ t p. i.gone t (omega (arith, l t));
          fresh = λ t p. ground (arith, i.fresh t p, e t, r t, l t);
        }

    pub take-IsSafe :
        (us : List ℕ)
        → get_elem? s.cpus cpu ≡ some awaiting
        → pop_back s.waiting_threads ≡ some (u, us)
        → IsSafe (record (at_phase cpu (entering u) s) { waiting_threads = us })
    take-IsSafe us h popped =
        let e = λ (t : ℕ). tally-set (enters t) s.cpus cpu awaiting (entering u) h in
        let r = λ (t : ℕ). tally-set (runs t) s.cpus cpu awaiting (entering u) h in
        let l = λ (t : ℕ). tally-set (leaves t) s.cpus cpu awaiting (entering u) h in
        let o = λ (t : ℕ). pop_back-occurs s.waiting_threads u us t popped in
        record {
          once = λ t. omega (arith, i.once t, e t, r t, l t, o t);
          ready = λ t p. i.ready t (omega (arith, e t, o t));
          free = λ t p. i.free t (omega (arith, e t, o t));
          busy = λ t p. i.busy t (omega (arith, r t));
          gone = λ t p. i.gone t (omega (arith, l t));
          fresh = λ t p. omega (arith, i.fresh t p, e t, r t, l t, o t);
        }

    pub enter_free : get_elem? s.cpus cpu ≡ some (entering u) → s.in_use u ≡ false
    enter_free h =
        let e = tally-set (enters u) s.cpus cpu (entering u) awaiting h in
        i.free u (ground (arith, e))

    pub enter-IsSafe :
        get_elem? s.cpus cpu ≡ some (entering u)
        → IsSafe (record (at_phase cpu (running u) s) { in_use = assign s.in_use u true })
    enter-IsSafe h =
        let e = λ (t : ℕ). tally-set (enters t) s.cpus cpu (entering u) (running u) h in
        let r = λ (t : ℕ). tally-set (runs t) s.cpus cpu (entering u) (running u) h in
        let l = λ (t : ℕ). tally-set (leaves t) s.cpus cpu (entering u) (running u) h in
        record {
          once = λ t. omega (arith, i.once t, e t, r t, l t);
          ready = λ t p. i.ready t (omega (arith, e t));
          free = λ t p. ground (arith, i.free t, i.once t, e t);
          busy = λ t p. ground (arith, i.busy t, r t);
          gone = λ t p. ground (arith, i.gone t, i.once t, e t, l t);
          fresh = λ t p. omega (arith, i.fresh t p, e t, r t, l t);
        }

    pub end-IsSafe : get_elem? s.cpus cpu ≡ some (running u) → IsSafe (at_phase cpu awaiting s)
    end-IsSafe h =
        let e = λ (t : ℕ). tally-set (enters t) s.cpus cpu (running u) awaiting h in
        let r = λ (t : ℕ). tally-set (runs t) s.cpus cpu (running u) awaiting h in
        let l = λ (t : ℕ). tally-set (leaves t) s.cpus cpu (running u) awaiting h in
        record {
          once = λ t. omega (arith, i.once t, e t, r t, l t);
          ready = λ t p. i.ready t (omega (arith, e t));
          free = λ t p. i.free t (omega (arith, e t));
          busy = λ t p. i.busy t (omega (arith, r t));
          gone = λ t p. i.gone t (omega (arith, l t));
          fresh = λ t p. omega (arith, i.fresh t p, e t, r t, l t);
        }
