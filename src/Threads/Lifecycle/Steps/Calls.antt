-- ===== src/Threads/Lifecycle/Steps/Calls.antt =====
-- Every call of thread-worker.c that enters the scheduler keeps the ready queue in order.
use mathlib.Core.Path.{subst}
use cs416_operating_systems.Base.{
  ℕ, List, [], ◌∷◌, ◌++◌, append-nil, ap, ◌∙◌, ◌≡◌, ◌≢◌, refl, sym, inl, inr, true, some, ◌==◌,
  ne→==, Bool-cases,
}
use cs416_operating_systems.Threads.Table.{
  ThreadState, ready, running, blocked, terminated, find_tcb_by_id,
}
use cs416_operating_systems.Threads.Library.{
  Timespec, Library, Switch, put_thread, schedule, timer_handler, threads_of,
}
use cs416_operating_systems.Threads.Lifecycle.{
  worker_yield, finish, wake_waiting, worker_exit, returned, waits, block_for, worker_join,
  by_state,
}
use cs416_operating_systems.Threads.Library.Waiting.{state_of, waiting_of, IsLive, IsEntering}
use cs416_operating_systems.Threads.Library.Schedule.{Runs, state_put_self, waiting_put_self}
use cs416_operating_systems.Threads.Library.Requeue.{comeback, schedule-Runs}
use cs416_operating_systems.Threads.Lifecycle.Steps.{
  running_nonzero, live-IsEntering, put_thread-IsEntering,
}
use cs416_operating_systems.Threads.Lifecycle.Steps.Wake.{
  wake_waiting-IsEntering, woken_by, wake_waiting-rr_queue, wake_waiting-running_tcb,
  wake_waiting-state,
}
use cs416_operating_systems.Threads.Lifecycle.Steps.Block.{
  neutral-IsLive, block_for-IsEntering, block_for-state, block_for-rr_queue, block_for-running_tcb,
}

-- A call of the running thread, or an interrupt, that ends in a context switch.
pub data Enters (lib : Library) (s : Switch) : Type 0 where
  interrupted : (now : Timespec) → timer_handler now lib ≡ some s → Enters lib s
  yielded : (now : Timespec) → worker_yield now lib ≡ some s → Enters lib s
  exited : (now : Timespec) (value : ℕ) → worker_exit now value lib ≡ some s → Enters lib s
  joining :
      (now : Timespec) (thread target : ℕ)
      → worker_join now thread lib ≡ waits target s
      → Enters lib s

some_injective : {a b : Switch} → some a ≡ some b → a ≡ b
some_injective h = cc

waits_injective : {t u : ℕ} {a b : Switch} → waits t a ≡ waits u b → a ≡ b
waits_injective h = cc

finish-IsEntering :
    (now : Timespec) (value : ℕ) (lib : Library)
    → IsLive lib
    → IsEntering (finish now value lib.running_tcb lib)
unfolding finish
finish-IsEntering now value lib live =
    let e =
      put_thread-IsEntering lib live
        (record (lib.tcbs lib.running_tcb) {
          state = terminated;
          retval = value;
          finish_time = now;
        })
        refl in
    record {
      waiting = record {
        null = e.waiting.null;
        asleep = e.waiting.asleep;
        one_target = e.waiting.one_target;
      };
      was_running = e.was_running;
      not_queued = e.not_queued;
      others = e.others;
    }

finish-awake :
    (now : Timespec) (value : ℕ) (lib : Library)
    → state_of (finish now value lib.running_tcb lib) lib.running_tcb ≢ blocked
unfolding finish
finish-awake now value lib b = cc (
  b,
  state_put_self lib lib.running_tcb
      (record (lib.tcbs lib.running_tcb) { state = terminated; retval = value; finish_time = now }),
)

-- The library as worker_join marks the target.
abbrev marked : ℕ → Library → Library
marked target lib = put_thread target (record (lib.tcbs target) { joined = true }) lib

by_state-waits :
    (state : ThreadState) (value t : ℕ) {u : ℕ} (l : Library) {a s : Switch}
    → by_state state (returned value l) (waits t a) ≡ waits u s
    → a ≡ s
unfolding by_state
by_state-waits ready value t l e = waits_injective e
by_state-waits running value t l e = waits_injective e
by_state-waits blocked value t l e = waits_injective e
by_state-waits terminated value t l e = cc

worker_join-schedule :
    (now : Timespec) (thread target : ℕ) (lib : Library) (s : Switch)
    → worker_join now thread lib ≡ waits target s
    → let t = find_tcb_by_id (threads_of lib) lib.table thread in
      schedule now (block_for t (marked t lib)) ≡ s
unfolding worker_join
worker_join-schedule now thread target lib s e =
    let t = find_tcb_by_id (threads_of lib) lib.table thread in
    elim (Bool-cases (t == 0)) [
      | inl a ↦ cc (rw a at e)
      | inr a ↦ elim (Bool-cases ((lib.tcbs lib.running_tcb).id == thread)) [
        | inl b ↦ cc (rw (a, b) at e)
        | inr b ↦ elim (Bool-cases (lib.tcbs t).joined) [
          | inl c ↦ cc (rw (a, b, c) at e)
          | inr c ↦ by_state-waits (lib.tcbs t).state _ _ _ (rw (a, b, c) at e)
        ]
      ]
    ]

-- The ready queue when the scheduler chooses: a thread that is interrupted or yields is at its end,
-- and so is the one that waited for a thread that exits.
abbrev pub due : {lib : Library} {s : Switch} → Enters lib s → List ℕ
due {lib} (interrupted now e) = lib.rr_queue ++ lib.running_tcb ∷ []
due {lib} (yielded now e) = lib.rr_queue ++ lib.running_tcb ∷ []
due {lib} (exited now value e) = lib.rr_queue ++ woken_by (waiting_of lib lib.running_tcb)
due {lib} (joining now thread target e) = lib.rr_queue

-- The library when the call enters the scheduler.
abbrev pub entered : {lib : Library} {s : Switch} → Enters lib s → Library
entered {lib} (interrupted now e) = lib
entered {lib} (yielded now e) =
    put_thread lib.running_tcb (record (lib.tcbs lib.running_tcb) { state = ready }) lib
entered {lib} (exited now value e) =
    wake_waiting lib.running_tcb (finish now value lib.running_tcb lib)
entered {lib} (joining now thread target e) =
    let t = find_tcb_by_id (threads_of lib) lib.table thread in block_for t (marked t lib)

exited-Runs :
    (now : Timespec) (value : ℕ) (lib : Library)
    → IsLive lib
    → Runs
        (lib.rr_queue ++ woken_by (waiting_of lib lib.running_tcb))
        (wake_waiting lib.running_tcb (finish now value lib.running_tcb lib))
        (schedule now (wake_waiting lib.running_tcb (finish now value lib.running_tcb lib)))
unfolding finish
exited-Runs now value lib live =
    let ended = finish now value lib.running_tcb lib in
    let e = finish-IsEntering now value lib live in
    let awake = finish-awake now value lib in
    let thread = record (lib.tcbs lib.running_tcb) {
      state = terminated;
      retval = value;
      finish_time = now;
    } in
    let over =
      ap (state_of (wake_waiting lib.running_tcb ended)) (wake_waiting-running_tcb ended e awake)
      ∙ wake_waiting-state ended e awake
      ∙ state_put_self lib lib.running_tcb thread in
    schedule-Runs now _ _ (wake_waiting-IsEntering ended e awake) (
      ap
        (λ s.
          (wake_waiting lib.running_tcb ended).rr_queue
          ++ comeback s (wake_waiting lib.running_tcb ended).running_tcb)
        over
      ∙ append-nil _
      ∙ wake_waiting-rr_queue ended e awake
      ∙ ap (λ w. lib.rr_queue ++ woken_by w) (waiting_put_self lib lib.running_tcb thread))

joining-Runs :
    (now : Timespec) (lib : Library) (t : ℕ)
    → IsLive lib
    → Runs lib.rr_queue (block_for t lib) (schedule now (block_for t lib))
joining-Runs now lib t live =
    let asleep =
      ap (state_of (block_for t lib)) (block_for-running_tcb lib live t)
      ∙ block_for-state lib live t in
    schedule-Runs now (block_for t lib) lib.rr_queue (block_for-IsEntering lib live t) (
      ap (λ s. (block_for t lib).rr_queue ++ comeback s (block_for t lib).running_tcb) asleep
      ∙ append-nil _
      ∙ block_for-rr_queue lib live t)

-- A timer interrupt, a worker_yield, a worker_exit or a worker_join that waits, from a state in
-- which a thread runs and the ready queue holds the ready threads once each and no others. A thread
-- that is interrupted or yields goes to the end of the queue, and so does the one that waits for a
-- thread that exits. If the queue then has a head, that thread runs, the rest is the queue, and the
-- state is of the same kind. If it is empty and at most one thread is counted or one in the table is
-- blocked, main goes on; if it is empty and neither is so, the loop of sched_rr does not end.
pub Enters-Runs :
    (lib : Library) (s : Switch) → IsLive lib → (e : Enters lib s) → Runs (due e) (entered e) s
unfolding timer_handler worker_yield worker_exit
Enters-Runs lib s live (interrupted now e) =
    let q = rw (ne→== _ _ (running_nonzero lib live)) at e in
    rw (sym (some_injective q)) (
      schedule-Runs now lib _ (live-IsEntering lib live)
        (ap (λ s. lib.rr_queue ++ comeback s lib.running_tcb) live.runs))
Enters-Runs lib s live (yielded now e) =
    let q = rw (ne→== _ _ (running_nonzero lib live)) at e in
    let thread = record (lib.tcbs lib.running_tcb) { state = ready } in
    rw (sym (some_injective q)) (
      schedule-Runs now _ _ (put_thread-IsEntering lib live thread refl) (
        ap (λ s. lib.rr_queue ++ comeback s lib.running_tcb)
          (state_put_self lib lib.running_tcb thread)))
Enters-Runs lib s live (exited now value e) =
    let q = rw (ne→== _ _ (running_nonzero lib live)) at e in
    subst (Runs _ _) (some_injective q) (exited-Runs now value lib live)
Enters-Runs lib s live (joining now thread target e) =
    let t = find_tcb_by_id (threads_of lib) lib.table thread in
    subst (Runs _ _) (worker_join-schedule now thread target lib s e) (
      joining-Runs now (marked t lib) t
        (neutral-IsLive lib t (record (lib.tcbs t) { joined = true }) refl refl live))
