-- ===== src/Threads/Mutex.antt =====
-- worker_mutex_lock, worker_mutex_unlock and worker_mutex_destroy of thread-worker.c as steps of
-- threads that the timer can interleave anywhere: none of them blocks the timer signal. Each step is one access to the
-- mutex. The wait queue is its list of threads; a thread is a positive number.
pub mod Holding
pub mod Exclusion
pub mod Wakeup
use cs416_operating_systems.Base.{
  ℕ, Option, none, some, Bool, true, false, ◌≡◌, ◌≢◌, List, [], ◌∷◌, ◌++◌,
}
use cs416_operating_systems.Base.Memory.{update}

-- Where a thread is: `outside` and `inside` are before its next call, `inside` if its last one was a
-- worker_mutex_lock, which has returned. `trying` is before the test-and-set of the loop of
-- worker_mutex_lock and `refused` after it found the flag set; `asleep` is in the wait queue;
-- `taking` has set the flag. In worker_mutex_unlock `releasing` has cleared the owner and `waking`
-- the flag too. In worker_mutex_destroy `destroying` has set the flag and `checking` has cleared it.
pub data Place : Type 0 where
  outside trying refused asleep taking inside releasing waking destroying checking : Place

-- The thread can make a call.
abbrev pub calls : Place → Bool
calls outside = true
calls inside = true
calls p = false

-- `worker_mutex_t` and where each thread is. `owner` is owner_tcb.
pub record Mutex : Type 0 where
  pub locked : Bool
  pub owner : Option ℕ
  pub wait_queue : List ℕ
  pub place : ℕ → Place

abbrev pub moved : Mutex → ℕ → Place → ℕ → Place
moved m t p = update m.place t p

-- worker_mutex_init
unfoldable pub worker_mutex_init : Mutex
worker_mutex_init = record { locked = false; owner = none; wait_queue = []; place = λ t. outside }

-- unlock_refused and destroy_locked are the results -1 for a thread that is not the owner and for a
-- mutex that is locked.
pub data Step (m : Mutex) : Mutex → Type 0 where
  call_lock :
      (t : ℕ) → t ≢ 0 → calls (m.place t) ≡ true → Step m (record m { place = moved m t trying })
  test_free :
      (t : ℕ)
      → m.place t ≡ trying
      → m.locked ≡ false
      → Step m (record m { locked = true; place = moved m t taking })
  test_set :
      (t : ℕ)
      → m.place t ≡ trying
      → m.locked ≡ true
      → Step m (record m { place = moved m t refused })
  sleep :
      (t : ℕ)
      → m.place t ≡ refused
      → Step m (record m { wait_queue = m.wait_queue ++ (t ∷ []); place = moved m t asleep })
  own :
      (t : ℕ) → m.place t ≡ taking → Step m (record m { owner = some t; place = moved m t inside })
  unlock_refused : (t : ℕ) → calls (m.place t) ≡ true → m.owner ≢ some t → Step m m
  call_unlock :
      (t : ℕ)
      → calls (m.place t) ≡ true
      → m.owner ≡ some t
      → Step m (record m { owner = none; place = moved m t releasing })
  clear :
      (t : ℕ)
      → m.place t ≡ releasing
      → Step m (record m { locked = false; place = moved m t waking })
  wake :
      (t u : ℕ) (rest : List ℕ)
      → m.place t ≡ waking
      → m.wait_queue ≡ u ∷ rest
      → Step m (record m { wait_queue = rest; place = update (moved m t outside) u trying })
  none_waiting :
      (t : ℕ)
      → m.place t ≡ waking
      → m.wait_queue ≡ []
      → Step m (record m { place = moved m t outside })
  destroy_locked : (t : ℕ) → calls (m.place t) ≡ true → m.locked ≡ true → Step m m
  destroy_free :
      (t : ℕ)
      → calls (m.place t) ≡ true
      → m.locked ≡ false
      → Step m (record m { locked = true; place = moved m t destroying })
  destroy_clear :
      (t : ℕ)
      → m.place t ≡ destroying
      → Step m (record m { locked = false; place = moved m t checking })
  destroy_waiting :
      (t : ℕ)
      → m.place t ≡ checking
      → m.wait_queue ≢ []
      → Step m (record m { place = moved m t outside })
  destroyed :
      (t : ℕ)
      → m.place t ≡ checking
      → m.wait_queue ≡ []
      → Step m (record m { place = moved m t outside })

-- What a run of steps can lead to.
pub data Reaches (m : Mutex) : Mutex → Type 0 where
  start : Reaches m m
  next : {n o : Mutex} → Reaches m n → Step n o → Reaches m o
