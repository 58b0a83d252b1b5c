-- ===== src/Threads/Library/Requeue.antt =====
-- The thread that ran goes back to the ready queue in schedule of thread-worker.c.
use cs416_operating_systems.Base.{
  ℕ, ◌+◌, List, append-nil, ◌≡◌, ◌≢◌, refl, sym, ap, ◌∙◌, inl, inr, [], ◌∷◌, ◌++◌, arith, ◌==◌,
  ne→==, ==_self, eq_or_ne, if◌then◌else◌,
}
use cs416_operating_systems.Threads.Table.{ThreadState, ready, running, blocked, terminated}
use cs416_operating_systems.Threads.Library.{
  Timespec, Thread, Library, put_thread, add_to_scheduler, stops, requeue, schedule,
}
use cs416_operating_systems.Threads.Library.Waiting.{
  occurrences, occurrences-append, places, state_of, waiting_of, IsConsistent, IsEntering,
}
use cs416_operating_systems.Threads.Library.Schedule.{
  Runs, sched_rr-Runs, state_put_self, state_put_other, put_thread-IsWaiting,
}

-- The thread is made ready and joins the queue at its end.
module _ (lib : Library) (e : IsEntering lib) (thread : Thread) (is_ready : thread.state ≡ ready)
    (same : thread.waiting_thread ≡ waiting_of lib lib.running_tcb)
    (awake : state_of lib lib.running_tcb ≢ blocked) where
  abbrev r : ℕ
  r = lib.running_tcb

  abbrev requeued : Library
  requeued = record (put_thread r thread lib) { rr_queue = lib.rr_queue ++ r ∷ [] }

  requeued_place : (t : ℕ) → occurrences t (lib.rr_queue ++ r ∷ []) ≡ places (state_of requeued t)
  requeued_place t = elim (eq_or_ne t r) [
    | inl q ↦
        let one : occurrences r lib.rr_queue + (if r == r then 1 else 0) ≡ 1 =
          rw (e.not_queued, ==_self r) refl in
        rw q (
          occurrences-append r r lib.rr_queue
          ∙ one
          ∙ sym (ap places (state_put_self lib r thread ∙ is_ready)))
    | inr ne ↦
        let none_more : occurrences t lib.rr_queue + (if t == r then 1 else 0)
            ≡ occurrences t lib.rr_queue =
          rw (ne→== t r ne) (omega arith) in
        occurrences-append t r lib.rr_queue
        ∙ none_more
        ∙ e.others t ne
        ∙ sym (ap places (state_put_other lib r thread t ne))
  ]

  requeued-IsConsistent : IsConsistent (add_to_scheduler r (put_thread r thread lib))
  unfolding add_to_scheduler
  requeued-IsConsistent =
      let w = put_thread-IsWaiting lib r thread e.waiting same e.was_running awake in
      record {
        waiting = record { null = w.null; asleep = w.asleep; one_target = w.one_target };
        queued = requeued_place;
      }

-- A thread that is blocked or has ended is in no queue.
left_out :
    (lib : Library)
    → IsEntering lib
    → places (state_of lib lib.running_tcb) ≡ 0
    → (t : ℕ) → occurrences t lib.rr_queue ≡ places (state_of lib t)
left_out lib e none_due t = elim (eq_or_ne t lib.running_tcb) [
  | inl q ↦ rw q (e.not_queued ∙ sym none_due)
  | inr ne ↦ e.others t ne
]

requeue-IsConsistent : (lib : Library) → IsEntering lib → IsConsistent (requeue lib)
unfolding requeue
requeue-IsConsistent lib e =
    elim (state_of lib lib.running_tcb)
        as (λ s. state_of lib lib.running_tcb ≡ s → IsConsistent (requeue lib)) [
          | running ↦ λ s.
              rw (requeue, s)
                (requeued-IsConsistent lib e
                  (record (lib.tcbs lib.running_tcb) {
                    state = ready;
                    elapsed_quanta = (lib.tcbs lib.running_tcb).elapsed_quanta + 1;
                  })
                  refl refl (λ b. cc (s, b)))
          | ready ↦ λ s.
              rw (requeue, s)
                (requeued-IsConsistent lib e (record (lib.tcbs lib.running_tcb) { time_used = 0 }) s
                  refl (λ b. cc (s, b)))
          | blocked ↦ λ s.
              rw (requeue, s)
                (record { waiting = e.waiting; queued = left_out lib e (ap places s) })
          | terminated ↦ λ s.
              rw (requeue, s)
                (record {
                  waiting = record {
                    null = e.waiting.null;
                    asleep = e.waiting.asleep;
                    one_target = e.waiting.one_target;
                  };
                  queued = left_out lib e (ap places s);
                })
        ]
      refl

-- What the scheduler appends to the ready queue: the thread that ran, if it can go on.
abbrev pub comeback : ThreadState → ℕ → List ℕ
comeback running r = r ∷ []
comeback ready r = r ∷ []
comeback _ r = []

append_ne_nil : (queue : List ℕ) (r : ℕ) → queue ++ r ∷ [] ≢ []
append_ne_nil [] r e = cc
append_ne_nil (x ∷ queue) r e = cc

module _ (lib : Library) where
  abbrev ran : ThreadState
  ran = state_of lib lib.running_tcb

  requeue-rr_queue : (requeue lib).rr_queue ≡ lib.rr_queue ++ comeback ran lib.running_tcb
  unfolding requeue add_to_scheduler
  requeue-rr_queue =
      elim ran
          as (λ s. ran ≡ s → (requeue lib).rr_queue ≡ lib.rr_queue ++ comeback s lib.running_tcb) [
            | running ↦ λ s. rw (requeue, s) refl
            | ready ↦ λ s. rw (requeue, s) refl
            | blocked ↦ λ s. rw (requeue, s) (sym (append-nil lib.rr_queue))
            | terminated ↦ λ s. rw (requeue, s) (sym (append-nil lib.rr_queue))
          ]
        refl

  requeue-stops :
      lib.rr_queue ++ comeback ran lib.running_tcb ≡ [] → stops (requeue lib) ≡ stops lib
  unfolding requeue add_to_scheduler
  requeue-stops =
      elim ran
          as (λ s.
            ran ≡ s
            → lib.rr_queue ++ comeback s lib.running_tcb ≡ []
            → stops (requeue lib) ≡ stops lib) [
              | running ↦ λ s e. absurd (append_ne_nil lib.rr_queue lib.running_tcb e)
              | ready ↦ λ s e. absurd (append_ne_nil lib.rr_queue lib.running_tcb e)
              | blocked ↦ λ s e. rw (requeue, s) refl
              | terminated ↦ λ s e. rw (requeue, s) refl
            ]
        refl

pub schedule-Runs :
    (now : Timespec) (lib : Library) (queue : List ℕ)
    → IsEntering lib
    → lib.rr_queue ++ comeback (state_of lib lib.running_tcb) lib.running_tcb ≡ queue
    → Runs queue lib (schedule now lib)
unfolding schedule
schedule-Runs now lib queue e due =
    let c = requeue-IsConsistent lib e in
    rw (schedule, ne→== _ _ e.was_running)
      (sched_rr-Runs now _ lib queue
        (record {
          waiting = record {
            null = c.waiting.null;
            asleep = c.waiting.asleep;
            one_target = c.waiting.one_target;
          };
          queued = c.queued;
        })
        (requeue-rr_queue lib ∙ due) (λ none_left. requeue-stops lib (due ∙ none_left)))
