-- ===== src/Threads/Table.antt =====
-- The thread table of thread-worker.c: find_tcb_by_id, add_thread_to_table,
-- remove_thread_from_table and has_blocked_threads.
pub mod Search
pub mod Updates
pub mod Slots
use cs416_operating_systems.Base.{
  ℕ, zero, suc, ◌+◌, ◌-◌, ◌%◌, ◌^◌, Bool, true, false, not, ◌&&◌, Option, none, some, ◌==◌,
  if◌then◌else◌,
}
use cs416_operating_systems.Base.Memory.{update}
use cs416_operating_systems.Base.Search.{first_slot}
use cs416_operating_systems.Threads.Heap.{max_threads}

pub data ThreadState : Type 0 where
  ready running blocked terminated : ThreadState

abbrev pub is_blocked : ThreadState → Bool
is_blocked blocked = true
is_blocked state = false

-- The identity and the state of each thread, by the address of its TCB.
pub record Threads : Type 0 where
  pub id : ℕ → ℕ
  pub state : ℕ → ThreadState

-- `thread_table` and `thread_count`, the latter by the bit pattern of the C `int`.
pub record Table : Type 0 where
  pub slots : ℕ → ℕ
  pub thread_count : ℕ

-- `thread_table[i] != NULL && thread_table[i]->id == id`
pub has_id : Threads → Table → ℕ → ℕ → Bool
has_id ts t id i = not (t.slots i == 0) && ts.id (t.slots i) == id

-- `thread_table[i] == NULL`
pub is_unused : Table → ℕ → Bool
is_unused t i = t.slots i == 0

-- `thread_table[i] != NULL && thread_table[i]->state == BLOCKED`
pub has_blocked : Threads → Table → ℕ → Bool
has_blocked ts t i = not (t.slots i == 0) && is_blocked (ts.state (t.slots i))

pub find_tcb_by_id : Threads → Table → ℕ → ℕ
find_tcb_by_id ts t id = elim (first_slot max_threads 0 (has_id ts t id)) [
  | none ↦ 0
  | some i ↦ t.slots i
]

-- `none` is the result -1.
pub add_thread_to_table : ℕ → Table → Option ℕ × Table
add_thread_to_table thread t = elim (first_slot max_threads 0 (is_unused t)) [
  | none ↦ (none, t)
  | some i ↦ (
    some i,
    record { slots = update t.slots i thread; thread_count = (t.thread_count + 1) % 2 ^ 32 },
  )
]

pub remove_thread_from_table : Threads → ℕ → Table → Table
remove_thread_from_table ts id t = elim (first_slot max_threads 0 (has_id ts t id)) [
  | none ↦ t
  | some i ↦ record {
    slots = update t.slots i 0;
    thread_count = (t.thread_count + (2 ^ 32 - 1)) % 2 ^ 32;
  }
]

pub has_blocked_threads : Threads → Table → Bool
has_blocked_threads ts t = elim (first_slot max_threads 0 (has_blocked ts t)) [
  | none ↦ false
  | some i ↦ true
]

-- The two calls of free that follow are left out.
pub cleanup_thread : Threads → ℕ → Table → Table
cleanup_thread ts thread t = remove_thread_from_table ts (ts.id thread) t
