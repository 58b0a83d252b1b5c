-- ===== src/Threads/Library.antt =====
-- The state of the threads of thread-worker.c and its round-robin scheduler (built with RR):
-- timer_handler, schedule and sched_rr. `rr_queue` is the list that its nodes hold. A context
-- switch ends a function: its result says whose context goes on.
pub mod Waiting
pub mod Schedule
pub mod Requeue
use cs416_operating_systems.Base.{
  ℕ, ◌+◌, ◌-◌, ◌*◌, ◌/◌, ◌%◌, ◌^◌, Bool, true, false, not, ◌&&◌, ◌||◌, Option, none, some, List, [],
  ◌∷◌, ◌++◌, leb, ◌==◌, if◌then◌else◌,
}
use cs416_operating_systems.Base.Memory.{update}
use cs416_operating_systems.Threads.Table
use cs416_operating_systems.Threads.Table.{
  ThreadState, ready, running, blocked, terminated, Threads, Table, find_tcb_by_id,
  add_thread_to_table, has_blocked_threads, cleanup_thread,
}

-- A time of clock_gettime.
pub record Timespec : Type 0 where
  pub tv_sec : ℕ
  pub tv_nsec : ℕ

-- The fields of TCB, without the context and the stack.
pub record Thread : Type 0 where
  pub id : ℕ
  pub retval : ℕ
  pub state : ThreadState
  pub arrival_time : Timespec
  pub start_time : Timespec
  pub finish_time : Timespec
  pub has_started : Bool
  pub elapsed_quanta : ℕ
  pub priority : ℕ
  pub time_slice : ℕ
  pub time_used : ℕ
  pub vruntime : ℕ
  pub waiting_thread : ℕ
  pub joined : Bool

-- The globals of thread-worker.c, with the TCBs by their addresses.
pub record Library : Type 0 where
  pub tcbs : ℕ → Thread
  pub table : Table
  pub main_tcb : ℕ
  pub running_tcb : ℕ
  pub rr_queue : List ℕ
  pub next_thread_id : ℕ
  pub tot_cntx_switches : ℕ
  pub completed_threads : ℕ
  pub total_turnaround_time : ℕ
  pub total_response_time : ℕ

-- The context that goes on: that of running_tcb, or that of main_tcb; or the loop of the scheduler
-- does not end.
pub data Switch : Type 0 where
  to_thread to_main : Library → Switch
  spins : Switch

abbrev pub threads_of : Library → Threads
threads_of lib = record { id = λ a. (lib.tcbs a).id; state = λ a. (lib.tcbs a).state }

abbrev pub put_thread : ℕ → Thread → Library → Library
put_thread a thread lib = record lib { tcbs = update lib.tcbs a thread }

unfoldable pub add_to_scheduler : ℕ → Library → Library
add_to_scheduler thread lib = record lib { rr_queue = lib.rr_queue ++ thread ∷ [] }

-- `thread_count <= 1`, of an `int`.
abbrev pub is_alone : ℕ → Bool
is_alone count = leb count 1 || leb (2 ^ 31) count

-- A thread that gets the processor at the time `now`.
pub dispatched : Timespec → Thread → Thread
dispatched now thread = record thread {
  state = running;
  start_time = if thread.has_started then thread.start_time else now;
  has_started = true;
}

-- The loop of sched_rr goes on in main if no other thread is counted, or one is blocked.
abbrev pub stops : Library → Bool
stops lib = is_alone lib.table.thread_count || has_blocked_threads (threads_of lib) lib.table

-- The rounds of the loop over what is left of the queue; a NULL in it is passed over. With an empty
-- queue the loop ends in the next round or never: nothing else runs meanwhile.
pub rr_loop : Timespec → Library → List ℕ → Switch
rr_loop now lib [] = if stops lib then to_main (record lib { rr_queue = [] }) else spins
rr_loop now lib (next ∷ queue) =
    let rest = rr_loop now lib queue in
    if next == 0
    then (if stops lib then to_main (record lib { rr_queue = queue }) else rest)
    else to_thread (
        put_thread next (dispatched now (lib.tcbs next))
          (record lib { rr_queue = queue; running_tcb = next }))

pub sched_rr : Timespec → Library → Switch
sched_rr now lib = rr_loop now lib lib.rr_queue

-- The switch of schedule over the state of the thread that ran.
pub requeue : Library → Library
requeue lib =
    let r = lib.running_tcb in
    let thread = lib.tcbs r in
    elim thread.state [
      | running ↦ add_to_scheduler r (
          put_thread r (record thread { state = ready; elapsed_quanta = thread.elapsed_quanta + 1 })
            lib)
      | ready ↦ add_to_scheduler r (put_thread r (record thread { time_used = 0 }) lib)
      | blocked ↦ lib
      | terminated ↦ record lib { running_tcb = 0 }
    ]

pub schedule : Timespec → Library → Switch
schedule now lib =
    let lib' = if lib.running_tcb == 0 then lib else requeue lib in
    sched_rr now (record lib' { tot_cntx_switches = lib'.tot_cntx_switches + 1 })

-- The interrupt does nothing while no thread runs.
unfoldable pub timer_handler : Timespec → Library → Option Switch
timer_handler now lib = if lib.running_tcb == 0 then none else some (schedule now lib)
