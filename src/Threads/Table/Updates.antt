-- ===== src/Threads/Table/Updates.antt =====
-- Adding to and removing from the thread table of thread-worker.c.
use cs416_operating_systems.Base.{
  ℕ, ◌+◌, ◌-◌, ◌%◌, ◌^◌, ◌<◌, ◌≡◌, ◌≢◌, refl, sym, ◌∙◌, inl, inr, Option, none, some, arith, ==_iff,
  ==→ne, ne→==, ==_self, eq_or_ne,
}
use cs416_operating_systems.Base.Memory.{update}
use cs416_operating_systems.Base.Search.{found, missing, search_lem}
use cs416_operating_systems.Threads.Heap.{max_threads}
use cs416_operating_systems.Threads.Table.{
  Threads, Table, has_id, is_unused, find_tcb_by_id, add_thread_to_table, remove_thread_from_table,
}
use cs416_operating_systems.Threads.Table.Search.{
  Holds, IsTable, has_id-true, has_id-false, find_held, find_absent,
}

-- What a lookup finds, by the slots of the table.
pub data Lookup (ts : Threads) (t : Table) (id : ℕ) (r : ℕ) : Type 0 where
  held : (k : ℕ) → Holds ts t id k → r ≡ t.slots k → Lookup ts t id r
  absent : ((k : ℕ) → ¬ Holds ts t id k) → r ≡ 0 → Lookup ts t id r

lookup : (ts : Threads) (t : Table) (id : ℕ) → Lookup ts t id (find_tcb_by_id ts t id)
unfolding find_tcb_by_id
lookup ts t id = elim (search_lem max_threads (has_id ts t id)) [
  | found i r lo hi h before ↦
      let (ni, ei) = has_id-true ts t id i h in rw (find_tcb_by_id, r) (held i (hi, ni, ei) refl)
  | missing r all ↦
      rw (find_tcb_by_id, r)
        (absent (λ k (hk, nk, ek). has_id-false ts t id k (all k (omega arith) hk) nk ek) refl)
]

-- The table with `thread` in the slot `i`.
abbrev with_slot : Table → ℕ → ℕ → ℕ → Table
with_slot t i thread count = record { slots = update t.slots i thread; thread_count = count }

-- Writing a slot changes no other one.
module _ (ts : Threads) (t : Table) (i thread count : ℕ) where
  abbrev after : Table
  after = with_slot t i thread count

  keeps : (id k : ℕ) → k ≢ i → Holds ts t id k → Holds ts after id k
  keeps id k ne (hk, nk, ek) = (hk, rw (ne→== k i ne) nk, rw (ne→== k i ne) ek)

  kept : (id k : ℕ) → k ≢ i → Holds ts after id k → Holds ts t id k
  kept id k ne (hk, nk, ek) = (hk, rw (ne→== k i ne) at nk, rw (ne→== k i ne) at ek)

  new : (id : ℕ) → Holds ts after id i → (thread ≢ 0) × (ts.id thread ≡ id)
  new id (hk, nk, ek) = (rw (==_self i) at nk, rw (==_self i) at ek)

  -- Identities that neither the old nor the new thread of the slot has are found as before.
  others :
      (id : ℕ)
      → IsTable ts after
      → ¬ Holds ts t id i
      → ¬ Holds ts after id i
      → find_tcb_by_id ts after id ≡ find_tcb_by_id ts t id
  others id w not_before not_after = elim (lookup ts t id) [
    | held k h r ↦
        let ne : k ≢ i = λ e. not_before (rw e at h) in
        find_held ts after id k w (keeps id k ne h) ∙ rw (ne→== k i ne) (sym r)
    | absent none_held r ↦
        find_absent ts after id (λ k h. elim (eq_or_ne k i) [
          | inl e ↦ not_after (rw e at h)
          | inr ne ↦ none_held k (kept id k ne h)
        ])
        ∙ sym r
  ]

-- What add_thread_to_table makes of a table.
pub data Adds (ts : Threads) (t : Table) (thread : ℕ) (r : Option ℕ × Table) : Type 0 where
  added :
      (i : ℕ) (t' : Table)
      → r ≡ (some i, t')
      → i < max_threads
      → t.slots i ≡ 0
      → IsTable ts t'
      → find_tcb_by_id ts t' (ts.id thread) ≡ thread
      → ((id : ℕ) → id ≢ ts.id thread → find_tcb_by_id ts t' id ≡ find_tcb_by_id ts t id)
      → Adds ts t thread r
  full : r ≡ (none, t) → ((k : ℕ) → k < max_threads → t.slots k ≢ 0) → Adds ts t thread r

module _ (ts : Threads) (t : Table) (thread i count : ℕ) (nz : thread ≢ 0) (hi : i < max_threads)
    (unused : t.slots i ≡ 0) (w : IsTable ts t)
    (unknown : (k : ℕ) → ¬ Holds ts t (ts.id thread) k) where
  abbrev added_table : Table
  added_table = with_slot t i thread count

  added-IsTable : IsTable ts added_table
  added-IsTable id a b ha hb = elim (eq_or_ne a i) [
    | inl ea ↦ elim (eq_or_ne b i) [
      | inl eb ↦ ea ∙ sym eb
      | inr nb ↦
          let (q, same) = new ts t i thread count id (rw ea at ha) in
          absurd (unknown b (rw same (kept ts t i thread count id b nb hb)))
    ]
    | inr na ↦ elim (eq_or_ne b i) [
      | inl eb ↦
          let (q, same) = new ts t i thread count id (rw eb at hb) in
          absurd (unknown a (rw same (kept ts t i thread count id a na ha)))
      | inr nb ↦
          w id a b (kept ts t i thread count id a na ha) (kept ts t i thread count id b nb hb)
    ]
  ]

  added-find : find_tcb_by_id ts added_table (ts.id thread) ≡ thread
  added-find =
      let here : Holds ts added_table (ts.id thread) i =
        (hi, rw (==_self i) nz, rw (==_self i) refl) in
      find_held ts added_table (ts.id thread) i added-IsTable here ∙ rw (==_self i) refl

  added_others :
      (id : ℕ) → id ≢ ts.id thread → find_tcb_by_id ts added_table id ≡ find_tcb_by_id ts t id
  added_others id ne =
      others ts t i thread count id added-IsTable (λ (hk, nk, ek). nk unused)
        (λ h. let (q, same) = new ts t i thread count id h in ne (sym same))

-- add_thread_to_table, on a table in which no two slots hold the same identity, of a thread that is
-- not NULL and whose identity no thread in the table has: it takes an unused
-- slot, the thread is then found by its identity, and the others as before; or no slot is unused,
-- and it reports that and changes nothing.
pub add_thread_to_table-Adds :
    (ts : Threads) (t : Table) (thread : ℕ)
    → IsTable ts t
    → thread ≢ 0
    → ((k : ℕ) → ¬ Holds ts t (ts.id thread) k)
    → Adds ts t thread (add_thread_to_table thread t)
unfolding add_thread_to_table is_unused
add_thread_to_table-Adds ts t thread w nz unknown = elim (search_lem max_threads (is_unused t)) [
  | found i r lo hi h before ↦
      let count = (t.thread_count + 1) % 2 ^ 32 in
      let unused = (==_iff (t.slots i) 0).0 h in
      rw (add_thread_to_table, r)
        (added i (with_slot t i thread count) refl hi unused
          (added-IsTable ts t thread i count nz hi unused w unknown)
          (added-find ts t thread i count nz hi unused w unknown)
          (added_others ts t thread i count nz hi unused w unknown))
  | missing r all ↦
      rw (add_thread_to_table, r) (full refl (λ k h. ==→ne (t.slots k) 0 (all k (omega arith) h)))
]

module _ (ts : Threads) (t : Table) (id i count : ℕ) (w : IsTable ts t)
    (here : Holds ts t id i) where
  abbrev emptied : Table
  emptied = with_slot t i 0 count

  elsewhere : (x k : ℕ) → Holds ts emptied x k → (k ≢ i) × Holds ts t x k
  elsewhere x k h =
      let ne : k ≢ i = λ e. (new ts t i 0 count x (rw e at h)).0 refl in
      (ne, kept ts t i 0 count x k ne h)

  emptied-IsTable : IsTable ts emptied
  emptied-IsTable x a b ha hb = w x a b (elsewhere x a ha).1 (elsewhere x b hb).1

  emptied-find : find_tcb_by_id ts emptied id ≡ 0
  emptied-find =
      find_absent ts emptied id (λ k h. let (ne, old) = elsewhere id k h in ne (w id k i old here))

  emptied_others : (x : ℕ) → x ≢ id → find_tcb_by_id ts emptied x ≡ find_tcb_by_id ts t x
  emptied_others x ne =
      others ts t i 0 count x emptied-IsTable
        (λ (hk, nk, ek). let (hi, ni, ei) = here in ne (sym ek ∙ ei))
        (λ h. (elsewhere x i h).0 refl)

-- remove_thread_from_table, on a table in which no two slots hold the same identity: that identity is
-- not found afterwards, all others are as before, and no two slots hold the same identity.
pub find_tcb_by_id-remove_thread_from_table :
    (ts : Threads) (t : Table) (id : ℕ)
    → IsTable ts t
    → let t' = remove_thread_from_table ts id t in
      IsTable ts t'
      × (find_tcb_by_id ts t' id ≡ 0)
      × ((other : ℕ) → other ≢ id → find_tcb_by_id ts t' other ≡ find_tcb_by_id ts t other)
unfolding remove_thread_from_table
find_tcb_by_id-remove_thread_from_table ts t id w = elim (search_lem max_threads (has_id ts t id)) [
  | found i r lo hi h before ↦
      let count = (t.thread_count + (2 ^ 32 - 1)) % 2 ^ 32 in
      let (ni, ei) = has_id-true ts t id i h in
      let here : Holds ts t id i = (hi, ni, ei) in
      rw (remove_thread_from_table, r)
        (
          emptied-IsTable ts t id i count w here,
          emptied-find ts t id i count w here,
          emptied_others ts t id i count w here,
        )
  | missing r all ↦
      rw (remove_thread_from_table, r)
        (
          w,
          find_absent ts t id
              (λ k (hk, nk, ek). has_id-false ts t id k (all k (omega arith) hk) nk ek),
          λ other ne. refl,
        )
]
