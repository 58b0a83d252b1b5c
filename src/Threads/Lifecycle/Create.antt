-- ===== src/Threads/Lifecycle/Create.antt =====
-- worker_create of thread-worker.c keeps the ready queue in order.
use cs416_operating_systems.Base.{ℕ, ◌+◌, ◌%◌, ◌^◌, ◌≡◌, ◌≢◌, [], ◌∷◌, ◌++◌}
use cs416_operating_systems.Threads.Table.{ready, running, terminated}
use cs416_operating_systems.Threads.Table.Slots.{Registered}
use cs416_operating_systems.Threads.Library.{Thread, Library, put_thread}
use cs416_operating_systems.Threads.Lifecycle.{Created, created}
use cs416_operating_systems.Threads.Library.Waiting.{state_of, waiting_of, IsLive}

module _ (lib : Library) (live : IsLive lib) (a : ℕ) (nz : a ≢ 0)
    (free : state_of lib a ≡ terminated) (thread : Thread) (is_ready : thread.state ≡ ready)
    (alone : thread.waiting_thread ≡ 0) where
  abbrev placed : Library
  placed = put_thread a thread lib

-- The library after worker_create, which succeeds.
pub record Creates (lib : Library) (a : ℕ) (c : Created) : Type 0 where
  pub after : Library
  pub succeeds : c ≡ created lib.next_thread_id after
  pub is_live : IsLive after
  pub identity : (after.tcbs a).id ≡ lib.next_thread_id
  pub is_ready : state_of after a ≡ ready
  pub others : (t : ℕ) → t ≢ a → after.tcbs t ≡ lib.tcbs t
  pub counter : after.next_thread_id ≡ (lib.next_thread_id + 1) % 2 ^ 32
  pub registered : Registered lib.table a after.table
  pub last : after.rr_queue ≡ lib.rr_queue ++ a ∷ []
  pub goes_on : after.running_tcb ≡ lib.running_tcb

-- When worker_create can be called: first, with no thread in any TCB and other memory for the main
-- thread in which waiting_thread is NULL, or later while a thread runs.
pub data Calls (lib : Library) (main : ℕ) (raw : Thread) : Type 0 where
  first :
      lib.main_tcb ≡ 0
      → main ≢ 0
      → raw.waiting_thread ≡ 0
      → ((t : ℕ) → state_of lib t ≡ terminated)
      → ((t : ℕ) → waiting_of lib t ≡ 0)
      → Calls lib main raw
  later : lib.main_tcb ≢ 0 → IsLive lib → Calls lib main raw

-- The library in which the main thread alone runs.
module _ (lib : Library) (main : ℕ) (thread : Thread) (nz : main ≢ 0)
    (runs_now : thread.state ≡ running) (alone : thread.waiting_thread ≡ 0)
    (unused : (t : ℕ) → state_of lib t ≡ terminated) (nobody : (t : ℕ) → waiting_of lib t ≡ 0) where
  abbrev begun : Library
  begun = put_thread main thread lib
