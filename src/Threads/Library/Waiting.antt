-- ===== src/Threads/Library/Waiting.antt =====
-- The invariant of the threads of thread-worker.c: the ready queue holds each ready thread once,
-- and no other.
use cs416_operating_systems.Base.{
  ℕ, suc, ◌+◌, ◌≡◌, ◌≢◌, List, [], ◌∷◌, ◌++◌, arith, ◌==◌, if◌then◌else◌,
}
use cs416_operating_systems.Threads.Table.{ThreadState, ready, running, blocked, terminated}
use cs416_operating_systems.Threads.Library.{Library}

-- How often a thread stands in a queue.
abbrev pub occurrences : ℕ → List ℕ → ℕ
occurrences t [] = 0
occurrences t (x ∷ queue) = if t == x then suc (occurrences t queue) else occurrences t queue

pub occurrences-append :
    (t x : ℕ) (queue : List ℕ)
    → occurrences t (queue ++ x ∷ []) ≡ occurrences t queue + (if t == x then 1 else 0)
occurrences-append t x [] = ground arith
occurrences-append t x (y ∷ queue) = ground (arith, occurrences-append t x queue)

-- How often it is to stand in the ready queue.
abbrev pub places : ThreadState → ℕ
places ready = 1
places _ = 0

abbrev pub state_of : Library → ℕ → ThreadState
state_of lib t = (lib.tcbs t).state

abbrev pub waiting_of : Library → ℕ → ℕ
waiting_of lib t = (lib.tcbs t).waiting_thread

-- Threads that wait in worker_join are blocked, and each waits for one thread.
pub record IsWaiting (lib : Library) : Type 0 where
  pub null : state_of lib 0 ≡ terminated
  pub asleep : (t : ℕ) → waiting_of lib t ≢ 0 → state_of lib (waiting_of lib t) ≡ blocked
  pub one_target : (t u : ℕ) → waiting_of lib t ≢ 0 → waiting_of lib t ≡ waiting_of lib u → t ≡ u

-- While the scheduler chooses: every ready thread is in the queue once, and no other.
pub record IsConsistent (lib : Library) : Type 0 where
  pub waiting : IsWaiting lib
  pub queued : (t : ℕ) → occurrences t lib.rr_queue ≡ places (state_of lib t)

-- While a thread runs.
pub record IsLive (lib : Library) : Type 0 where
  pub consistent : IsConsistent lib
  pub runs : state_of lib lib.running_tcb ≡ running

-- When the scheduler is entered: the thread that ran is not in the queue, in whatever state it is.
pub record IsEntering (lib : Library) : Type 0 where
  pub waiting : IsWaiting lib
  pub was_running : lib.running_tcb ≢ 0
  pub not_queued : occurrences lib.running_tcb lib.rr_queue ≡ 0
  pub others : (t : ℕ) → t ≢ lib.running_tcb → occurrences t lib.rr_queue ≡ places (state_of lib t)
