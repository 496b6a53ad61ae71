-- ===== src/Task/Scheduler/Tests.antt =====
-- Runs of src/task/task.cpp, and its theorems there.
use cantos.Prelude.{◌+◌, ◌≤◌, ◌≡◌, ◌≢◌, refl, false, true, List, [], ◌∷◌}
use cantos.Task.Scheduler.{
  Scheduler, awaiting, entering, running, assign, Result, next, panic, blocked, Op, do_new_thread,
  do_wait, do_yield_out, do_take, do_enter, do_resume_mark, do_resume_queue, perform, new_thread,
  take, enter, wait, resume_mark, resume_queue,
}
use cantos.Task.Scheduler.Safe.{queued, ran, left}
use cantos.Task.Scheduler.Reachable.{here, after, start, Reaches-once, Reaches-no_panic}

abbrev run : List Op → Scheduler → Result
run [] s = next s
run (op ∷ ops) s = elim (perform op s) [ next s' ↦ run ops s' | panic ↦ panic | blocked ↦ blocked ]

-- A thread that is about to wait is resumed before it has left its processor: the other processor
-- takes it out of the queue while it is in use.
resume_early :
    run
      (do_new_thread
        ∷ do_take 0
        ∷ do_enter 0
        ∷ do_wait 0 5
        ∷ do_resume_mark 1
        ∷ do_resume_queue
        ∷ do_take 1
        ∷ do_enter 1
        ∷ [])
      (start 2)
    ≡ panic
unfolding perform new_thread take enter wait resume_mark resume_queue
resume_early = refl

abbrev created : Scheduler
created = record (start 2) {
  task_counter = 1;
  wchan = assign (λ t. 0) 1 0;
  in_use = assign (λ t. false) 1 false;
  waiting_threads = 1 ∷ [];
}

abbrev popped : Scheduler
popped = record created { cpus = entering 1 ∷ awaiting ∷ []; waiting_threads = [] }

abbrev started : Scheduler
started = record popped { cpus = running 1 ∷ awaiting ∷ []; in_use = assign created.in_use 1 true }

Reaches-no_panic_example : perform (do_yield_out 0) started ≢ panic
unfolding perform new_thread take enter
Reaches-no_panic_example =
    Reaches-no_panic 2 (do_yield_out 0)
      (after (do_enter 0)
        (after (do_take 0) (after {u = created} do_new_thread here tt refl) tt refl) tt refl)
      tt

Reaches-once_example : queued 1 started + (ran 1 started + left 1 started) ≤ 1
unfolding perform new_thread take enter
Reaches-once_example = Reaches-once 2 1 {s = started} (
    after (do_enter 0)
      (after {u = popped} (do_take 0) (after {u = created} do_new_thread here tt refl) tt refl) tt
      refl)
