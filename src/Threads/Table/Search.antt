-- ===== src/Threads/Table/Search.antt =====
-- What the loops over the thread table of thread-worker.c find.
use cs416_operating_systems.Base.{ℕ, ◌<◌, ◌≡◌, ◌≢◌, refl, true, false, arith}
use cs416_operating_systems.Base.Search.{found, missing, search_lem}
use cs416_operating_systems.Threads.Heap.{max_threads}
use cs416_operating_systems.Threads.Table.{Threads, Table, has_id, find_tcb_by_id}

-- Slot `k` holds the thread with the given identity.
abbrev pub Holds : Threads → Table → ℕ → ℕ → Type 0
Holds ts t id k = (k < max_threads) × (t.slots k ≢ 0) × (ts.id (t.slots k) ≡ id)

-- No two slots hold threads with the same identity.
abbrev pub IsTable : Threads → Table → Type 0
IsTable ts t = (id i j : ℕ) → Holds ts t id i → Holds ts t id j → i ≡ j

pub has_id-true :
    (ts : Threads) (t : Table) (id k : ℕ)
    → has_id ts t id k ≡ true
    → (t.slots k ≢ 0) × (ts.id (t.slots k) ≡ id)
unfolding has_id
has_id-true ts t id k h = (ground (arith), ground arith)

pub has_id-false :
    (ts : Threads) (t : Table) (id k : ℕ)
    → has_id ts t id k ≡ false
    → t.slots k ≢ 0
    → ts.id (t.slots k) ≢ id
unfolding has_id
has_id-false ts t id k h nz = ground arith

-- The search finds a thread that a slot holds, and NULL if none does.
module _ (ts : Threads) (t : Table) (id : ℕ) where
  pub find_held : (k : ℕ) → IsTable ts t → Holds ts t id k → find_tcb_by_id ts t id ≡ t.slots k
  unfolding find_tcb_by_id
  find_held k w (hk, nz, e) = elim (search_lem max_threads (has_id ts t id)) [
    | found i r lo hi h before ↦
        let (ni, ei) = has_id-true ts t id i h in
        let same : i ≡ k = w id i k (hi, ni, ei) (hk, nz, e) in rw (find_tcb_by_id, r, same) refl
    | missing r all ↦ absurd (has_id-false ts t id k (all k (omega arith) hk) nz e)
  ]

  pub find_absent : ((k : ℕ) → ¬ Holds ts t id k) → find_tcb_by_id ts t id ≡ 0
  unfolding find_tcb_by_id
  find_absent none_held = elim (search_lem max_threads (has_id ts t id)) [
    | found i r lo hi h before ↦
        let (ni, ei) = has_id-true ts t id i h in absurd (none_held i (hi, ni, ei))
    | missing r all ↦ rw (find_tcb_by_id, r) refl
  ]
