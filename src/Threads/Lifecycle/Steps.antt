-- ===== src/Threads/Lifecycle/Steps.antt =====
-- The calls of thread-worker.c that enter the scheduler: timer_handler, worker_yield, worker_exit
-- and worker_join.
pub mod Wake
pub mod Block
pub mod Calls
use cs416_operating_systems.Base.{
  ℕ, ◌≡◌, ◌≢◌, refl, sym, ap, ◌∙◌, inl, inr, eq_or_ne, ◌++◌, [], ◌∷◌,
}
use cs416_operating_systems.Threads.Table.{running, blocked, terminated}
use cs416_operating_systems.Threads.Library.{Thread, Library, put_thread}
use cs416_operating_systems.Threads.Library.Waiting.{
  occurrences, places, state_of, waiting_of, IsWaiting, IsConsistent, IsLive, IsEntering,
}
use cs416_operating_systems.Threads.Library.Schedule.{
  state_put_self, state_put_other, waiting_put_self, waiting_put_other, put_thread-IsWaiting,
}

-- The thread that runs.
module _ (lib : Library) (live : IsLive lib) where
  pub running_nonzero : lib.running_tcb ≢ 0
  running_nonzero e = cc (live.runs, ap (state_of lib) e, live.consistent.waiting.null)

  pub running_awake : state_of lib lib.running_tcb ≢ blocked
  running_awake b = cc (live.runs, b)

  pub running_unqueued : occurrences lib.running_tcb lib.rr_queue ≡ 0
  running_unqueued = live.consistent.queued lib.running_tcb ∙ ap places live.runs

  pub live-IsEntering : IsEntering lib
  live-IsEntering = record {
    waiting = live.consistent.waiting;
    was_running = running_nonzero;
    not_queued = running_unqueued;
    others = λ t ne. live.consistent.queued t;
  }

  -- It changes its own TCB before it enters the scheduler.
  pub put_thread-IsEntering :
      (thread : Thread)
      → thread.waiting_thread ≡ waiting_of lib lib.running_tcb
      → IsEntering (put_thread lib.running_tcb thread lib)
  put_thread-IsEntering thread same = record {
    waiting =
        put_thread-IsWaiting lib lib.running_tcb thread live.consistent.waiting same running_nonzero
          running_awake;
    was_running = running_nonzero;
    not_queued = running_unqueued;
    others = λ t ne.
        live.consistent.queued t
        ∙ sym (ap places (state_put_other lib lib.running_tcb thread t ne));
  }
