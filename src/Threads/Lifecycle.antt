-- ===== src/Threads/Lifecycle.antt =====
-- The life cycle of the threads of thread-worker.c (built with RR): worker_create, worker_yield,
-- worker_exit and worker_join. The sums of times keep the wrap-around of a `long`. worker_join has
-- a second part for when the thread that waits goes on.
pub mod Steps
pub mod Create
use cs416_operating_systems.Base.{
  ℕ, ◌+◌, ◌-◌, ◌*◌, ◌/◌, ◌%◌, ◌^◌, Bool, true, false, not, ◌&&◌, ◌||◌, Option, none, some, List, [],
  ◌∷◌, ◌++◌, leb, ◌==◌, if◌then◌else◌,
}
use cs416_operating_systems.Base.Memory.{update}
use cs416_operating_systems.Threads.Table
use cs416_operating_systems.Threads.Table.{
  ThreadState, ready, running, blocked, terminated, Threads, Table, find_tcb_by_id,
  add_thread_to_table, has_blocked_threads, cleanup_thread,
}
use cs416_operating_systems.Threads.Library
use cs416_operating_systems.Threads.Library.{
  Timespec, Thread, Library, Switch, threads_of, put_thread, add_to_scheduler, schedule,
}

-- A `long`, as its bit pattern.
abbrev u64 : ℕ
u64 = 2 ^ 64

-- The difference of the nanoseconds is rounded towards 0.
time_diff_microseconds : Timespec → Timespec → ℕ
time_diff_microseconds start end =
    let seconds = (end.tv_sec + (u64 - start.tv_sec)) % u64 in
    let rest =
      if leb start.tv_nsec end.tv_nsec
      then (end.tv_nsec - start.tv_nsec) / 1000
      else u64 - (start.tv_nsec - end.tv_nsec) / 1000 in
    (seconds * 1000000 + rest) % u64

abbrev pub no_slots : Table
no_slots = record { slots = λ _. 0; thread_count = 0 }

-- init_main_thread with the address that malloc returns; fields that it does not set are those of
-- `raw`, what malloc returns.
unfoldable pub init_main_thread : ℕ → Thread → Library → Library
init_main_thread main raw lib =
    if lib.main_tcb == 0
    then record lib {
      tcbs =
          update lib.tcbs main
            (record raw { id = 0; state = running; retval = 0; has_started = true });
      table = no_slots;
      rr_queue = [];
      main_tcb = main;
      running_tcb = main;
    }
    else lib

-- `created id` is the result 0 with `*thread`.
pub data Created : Type 0 where
  failed : Library → Created
  created : ℕ → Library → Created

-- The increment of thread_count in worker_create itself.
abbrev pub counted_thread : Library → Library
counted_thread lib = record lib {
  table = record lib.table { thread_count = (lib.table.thread_count + 1) % 2 ^ 32 };
  next_thread_id = (lib.next_thread_id + 1) % 2 ^ 32;
}

abbrev pub new_thread : Timespec → ℕ → Thread → Thread
new_thread now id raw = record raw {
  id = id;
  arrival_time = now;
  has_started = false;
  state = ready;
  retval = 0;
  joined = false;
  elapsed_quanta = 0;
  priority = 0;
  time_slice = 1;
  time_used = 0;
  vruntime = 0;
}

-- worker_create behind the test of main_tcb: `a` is the address of the TCB that malloc returns and
-- `raw` its contents; `has_stack` says whether the stack and the context could be made.
pub create_thread : Timespec → ℕ → Thread → Bool → Library → Created
create_thread now a raw has_stack lib =
    let lib1 = counted_thread lib in
    let lib2 = put_thread a (new_thread now lib.next_thread_id raw) lib1 in
    let lib3 = record lib2 { table = (add_thread_to_table a lib2.table).1 } in
    if a == 0
    then failed lib
    else if has_stack
    then created (lib3.tcbs a).id (add_to_scheduler a lib3)
    else failed lib1

pub worker_create : Timespec → ℕ → Thread → ℕ → Thread → Bool → Library → Created
worker_create now main raw_main a raw has_stack lib =
    create_thread now a raw has_stack (init_main_thread main raw_main lib)

-- `none` is the result -1.
unfoldable pub worker_yield : Timespec → Library → Option Switch
worker_yield now lib =
    let r = lib.running_tcb in
    if r == 0
    then none
    else some (schedule now (put_thread r (record (lib.tcbs r) { state = ready }) lib))

-- The thread that waits for `r` in worker_join goes back to the scheduler.
pub wake_waiting : ℕ → Library → Library
wake_waiting r lib =
    let w = (lib.tcbs r).waiting_thread in
    let lib1 = put_thread w (record (lib.tcbs w) { state = ready }) lib in
    let lib2 = add_to_scheduler w lib1 in
    if w == 0 then lib else put_thread r (record (lib2.tcbs r) { waiting_thread = 0 }) lib2

pub finish : Timespec → ℕ → ℕ → Library → Library
finish now value r lib =
    let thread = lib.tcbs r in
    record lib {
      tcbs =
          update lib.tcbs r
            (record thread { state = terminated; retval = value; finish_time = now });
      table = record lib.table { thread_count = (lib.table.thread_count + (2 ^ 32 - 1)) % 2 ^ 32 };
      completed_threads = lib.completed_threads + 1;
      total_turnaround_time =
          (lib.total_turnaround_time + time_diff_microseconds thread.arrival_time now) % u64;
      total_response_time =
          (lib.total_response_time + time_diff_microseconds thread.arrival_time thread.start_time)
          % u64;
    }

-- `none` is the exit of the process.
pub worker_exit : Timespec → ℕ → Library → Option Switch
worker_exit now value lib =
    let r = lib.running_tcb in
    if r == 0 then none else some (schedule now (wake_waiting r (finish now value r lib)))

-- worker_join: an error, the result of a thread that has ended, or a wait for `target`.
pub data Join : Type 0 where
  refused : Join
  returned : ℕ → Library → Join
  waits : ℕ → Switch → Join

-- The end of worker_join, also after a wait. The TCB is freed.
pub finish_join : ℕ → Library → ℕ × Library
finish_join target lib = (
  (lib.tcbs target).retval,
  record lib { table = cleanup_thread (threads_of lib) target lib.table },
)

pub block_for : ℕ → Library → Library
block_for target lib =
    let r = lib.running_tcb in
    let lib1 = put_thread r (record (lib.tcbs r) { state = blocked }) lib in
    put_thread target (record (lib1.tcbs target) { waiting_thread = r }) lib1

-- What worker_join does by the state of the target.
pub by_state : ThreadState → Join → Join → Join
by_state terminated ended wait = ended
by_state _ ended wait = wait

pub worker_join : Timespec → ℕ → Library → Join
worker_join now thread lib =
    let target = find_tcb_by_id (threads_of lib) lib.table thread in
    let lib1 = put_thread target (record (lib.tcbs target) { joined = true }) lib in
    let (value, lib2) = finish_join target lib1 in
    if target == 0
    then refused
    else if (lib.tcbs lib.running_tcb).id == thread
    then refused
    else if (lib.tcbs target).joined
    then refused
    else by_state (lib.tcbs target).state (returned value lib2)
        (waits target (schedule now (block_for target lib1)))
