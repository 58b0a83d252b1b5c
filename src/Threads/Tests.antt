-- ===== src/Threads/Tests.antt =====
-- The theorems on the thread library at concrete inputs.
use cs416_operating_systems.Base.{
  ℕ, ◌+◌, ◌≡◌, ◌≢◌, refl, true, false, arith, ltb, ◌==◌, if◌then◌else◌, some, [], ◌∷◌,
}
use cs416_operating_systems.Base.Memory.{update}
use cs416_operating_systems.Threads.Heap.{MinHeap, heap_push, heap_pop}
use cs416_operating_systems.Threads.Heap.Swaps.{IsOrder}
use cs416_operating_systems.Threads.Heap.Operations.{
  IsOrdered, Pushed, Popped, heap_push-Pushed, heap_pop-Popped,
}
use cs416_operating_systems.Threads.Queue.{Queue, Store, enqueue, dequeue}
use cs416_operating_systems.Threads.Queue.Chain.{IsChain, IsFresh, IsDistinct, last_of, IsQueue}
use cs416_operating_systems.Threads.Queue.Operations.{
  Enqueued, Dequeued, enqueue-Enqueued, dequeue-Dequeued,
}
use cs416_operating_systems.Threads.Table.{
  Threads, Table, ready, running, terminated, find_tcb_by_id, add_thread_to_table,
  remove_thread_from_table,
}
use cs416_operating_systems.Threads.Table.Search.{IsTable}
use cs416_operating_systems.Threads.Table.Updates.{
  Adds, add_thread_to_table-Adds, find_tcb_by_id-remove_thread_from_table,
}
use cs416_operating_systems.Threads.Library.{Timespec, Thread, Library, Switch, schedule}
use cs416_operating_systems.Threads.Lifecycle.{no_slots, worker_yield}
use cs416_operating_systems.Threads.Library.Waiting.{IsLive}
use cs416_operating_systems.Threads.Library.Schedule.{Runs}
use cs416_operating_systems.Threads.Lifecycle.Steps.Calls.{
  Enters, yielded, due, entered, Enters-Runs,
}
use cs416_operating_systems.Threads.Mutex.{
  Mutex, moved, trying, taking, worker_mutex_init, Reaches, start, next, call_lock, test_free,
}
use cs416_operating_systems.Threads.Mutex.Holding.{IsExclusive}
use cs416_operating_systems.Threads.Mutex.Exclusion.{worker_mutex-IsExclusive}
use cs416_operating_systems.Threads.Mutex.Wakeup.{IsStranded, worker_mutex-IsStranded}
use cs416_operating_systems.Threads.Compare.{
  Tcb, psjf_cmp, cfs_cmp, lex, psjf_cmp-IsOrder, cfs_cmp-IsOrder, cfs_cmp_reversed,
}

-- Three threads, ordered by number.
abbrev three : MinHeap
three = record { threads = λ i. i + 4; size = 3; cmp = ltb }

ltb-IsOrder : IsOrder ltb
ltb-IsOrder = record { asym = λ x y h. ground arith; trans = λ x y z h k. ground arith }

three-IsOrdered : IsOrdered three
three-IsOrdered j p h = ground arith

heap_push-Pushed_example : (t : MinHeap) × (heap_push three 2 ≡ some t) × Pushed three 2 t
heap_push-Pushed_example = heap_push-Pushed three 2 ltb-IsOrder three-IsOrdered (omega arith)

heap_pop-Popped_example :
    (x : ℕ) × (t : MinHeap) × (heap_pop three ≡ some (x, t)) × Popped three x t
heap_pop-Popped_example = heap_pop-Popped three ltb-IsOrder three-IsOrdered (omega arith)

-- Two nodes, at 8 and 5.
abbrev two_nodes : Store
two_nodes = λ a. record { thread_data = a + 100; next = if a == 8 then 5 else 0 }

abbrev two_threads : Queue
two_threads = record { head = 8; tail = 5 }

two_threads-IsQueue : IsQueue two_nodes two_threads (8 ∷ 5 ∷ [])
unfolding IsChain IsFresh IsDistinct last_of
two_threads-IsQueue = record {
  chain = (refl, (λ e. omega (arith, e)), (refl, (λ e. omega (arith, e)), refl));
  ends = refl;
  distinct = (((λ e. omega (arith, e)), tt), (tt, tt));
}

three-IsFresh : IsFresh 3 (8 ∷ 5 ∷ [])
unfolding IsFresh
three-IsFresh = ((λ e. omega (arith, e)), ((λ e. omega (arith, e)), tt))

enqueue-Enqueued_example :
    Enqueued two_nodes (8 ∷ 5 ∷ []) 200 3 (enqueue (some two_threads) 200 3 two_nodes)
enqueue-Enqueued_example =
    enqueue-Enqueued two_nodes two_threads (8 ∷ 5 ∷ []) 200 3 two_threads-IsQueue
      (λ e. omega (arith, e)) three-IsFresh

dequeue-Dequeued_example :
    Dequeued two_nodes two_threads (8 ∷ 5 ∷ []) (dequeue (some two_threads) two_nodes)
dequeue-Dequeued_example = dequeue-Dequeued two_nodes two_threads (8 ∷ 5 ∷ []) two_threads-IsQueue

-- Thread 0 has run for long, all others not at all.
abbrev tcbs : ℕ → Tcb
tcbs a = record { id = 7; elapsed_quanta = 3; vruntime = if a == 0 then 3000000000 else 0 }

abbrev young : ℕ → Tcb
young a = record { id = 7; elapsed_quanta = if a == 0 then 2 else 5; vruntime = 20 }

psjf_cmp-IsOrder_example :
    ((a b : ℕ) → psjf_cmp young a b ≡ lex (λ c. (young c).elapsed_quanta) (λ c. (young c).id) a b)
    × IsOrder (psjf_cmp young)
psjf_cmp-IsOrder_example = psjf_cmp-IsOrder young (λ a. omega arith) (λ a. ground arith)

cfs_cmp-IsOrder_example :
    ((a b : ℕ) → cfs_cmp young a b ≡ lex (λ c. (young c).vruntime) (λ c. (young c).id) a b)
    × IsOrder (cfs_cmp young)
cfs_cmp-IsOrder_example = cfs_cmp-IsOrder young (λ a. omega arith) (λ a. omega arith)

cfs_cmp_reversed_example : (cfs_cmp tcbs 1 0 ≡ false) × (cfs_cmp tcbs 0 1 ≡ true)
cfs_cmp_reversed_example = cfs_cmp_reversed tcbs 1 0 3000000000 refl (omega arith) (omega arith)

-- Slot 0 holds the thread at 40, slot 2 the one at 42; a thread's identity is its address.
abbrev some_threads : Threads
some_threads = record { id = λ a. a; state = λ a. ready }

abbrev some_table : Table
some_table = record {
  slots = λ i. if i == 0 then 40 else if i == 2 then 42 else 0;
  thread_count = 2;
}

some_table-IsTable : IsTable some_threads some_table
some_table-IsTable id i j (hi, ni, ei) (hj, nj, ej) = ground arith

add_thread_to_table-Adds_example :
    Adds some_threads some_table 50 (add_thread_to_table 50 some_table)
add_thread_to_table-Adds_example =
    add_thread_to_table-Adds some_threads some_table 50 some_table-IsTable (λ e. omega (arith, e))
      (λ k (hk, nk, ek). ground arith)

find_tcb_by_id-remove_thread_from_table_example :
    let t' = remove_thread_from_table some_threads 42 some_table in
    IsTable some_threads t'
    × (find_tcb_by_id some_threads t' 42 ≡ 0)
    × ((other : ℕ)
        → other ≢ 42
        → find_tcb_by_id some_threads t' other ≡ find_tcb_by_id some_threads some_table other)
find_tcb_by_id-remove_thread_from_table_example =
    find_tcb_by_id-remove_thread_from_table some_threads some_table 42 some_table-IsTable

-- Thread 1 calls lock.
abbrev called : Mutex
called = record worker_mutex_init { place = moved worker_mutex_init 1 trying }

-- It takes the flag.
abbrev flag_taken : Mutex
flag_taken = record called { locked = true; place = moved called 1 taking }

flag_taken-Reaches : Reaches worker_mutex_init flag_taken
unfolding worker_mutex_init
flag_taken-Reaches =
    next (next start (call_lock 1 (λ e. omega (arith, e)) refl)) (test_free 1 refl refl)

worker_mutex-IsExclusive_example : IsExclusive flag_taken
worker_mutex-IsExclusive_example = worker_mutex-IsExclusive flag_taken flag_taken-Reaches

worker_mutex-IsStranded_example : (m : Mutex) × Reaches worker_mutex_init m × IsStranded m 2
worker_mutex-IsStranded_example =
    worker_mutex-IsStranded 2 1 (λ e. omega (arith, e)) (λ e. omega (arith, e))
      (λ e. omega (arith, e))

abbrev time : ℕ → Timespec
time n = record { tv_sec = n; tv_nsec = 0 }

-- A TCB that no thread uses.
abbrev idle_thread : Thread
idle_thread = record {
  id = 0;
  retval = 0;
  state = terminated;
  arrival_time = time 0;
  start_time = time 0;
  finish_time = time 0;
  has_started = false;
  elapsed_quanta = 0;
  priority = 0;
  time_slice = 1;
  time_used = 0;
  vruntime = 0;
  waiting_thread = 0;
  joined = false;
}

-- The main thread at 1 runs and the thread at 2 is ready.
abbrev two_running : Library
two_running = record {
  tcbs = λ a.
      if a == 1
      then record idle_thread { state = running; has_started = true }
      else if a == 2
      then record idle_thread { id = 1; state = ready }
      else idle_thread;
  table = no_slots;
  main_tcb = 1;
  running_tcb = 1;
  rr_queue = 2 ∷ [];
  next_thread_id = 2;
  tot_cntx_switches = 0;
  completed_threads = 0;
  total_turnaround_time = 0;
  total_response_time = 0;
}

two_running-IsLive : IsLive two_running
two_running-IsLive = record {
  consistent = record {
    waiting = record {
      null = refl;
      asleep = λ t h. absurd (h (ground arith));
      one_target = λ t u h e. absurd (h (ground arith));
    };
    queued = λ t. ground arith;
  };
  runs = refl;
}

-- Before any call.
abbrev unstarted : Library
unstarted = record two_running {
  tcbs = λ a. idle_thread;
  main_tcb = 0;
  running_tcb = 0;
  rr_queue = [];
  next_thread_id = 1;
}

-- The main thread yields, and the thread at 2 goes on.
abbrev after_yield : Switch
after_yield = schedule (time 50) (record two_running {
  tcbs = update two_running.tcbs 1 (record idle_thread { state = ready; has_started = true });
})

two_running-Enters : Enters two_running after_yield
unfolding worker_yield
two_running-Enters = yielded (time 50) refl

Enters-Runs_example : Runs (due two_running-Enters) (entered two_running-Enters) after_yield
Enters-Runs_example = Enters-Runs two_running after_yield two_running-IsLive two_running-Enters
