-- ===== src/Threads/Table/Slots.antt =====
-- The slots of the thread table of thread-worker.c after add_thread_to_table.
use cs416_operating_systems.Base.{
  ℕ, ◌≤◌, ◌<◌, ◌≡◌, ◌≢◌, refl, ap, ◌∙◌, inl, inr, arith, ==_iff, ==→ne, ne→==, ==_self, eq_or_ne,
  false, Bool-cases, ltb, ltb→lt,
}
use cs416_operating_systems.Base.Search.{found, missing, search_lem}
use cs416_operating_systems.Threads.Heap.{max_threads}
use cs416_operating_systems.Threads.Table.{Table, is_unused, add_thread_to_table}

-- The thread stands in the first slot that was NULL, if there was one, and the other threads stand
-- where they did.
pub record Registered (t : Table) (thread : ℕ) (t' : Table) : Type 0 where
  pub first_unused :
      (k : ℕ)
      → k < max_threads
      → t.slots k ≡ 0
      → ((j : ℕ) → j < k → t.slots j ≢ 0)
      → t'.slots k ≡ thread
  pub kept : (k : ℕ) → t.slots k ≢ 0 → t'.slots k ≡ t.slots k

pub add_thread_to_table-Registered :
    (thread : ℕ) (t : Table) → Registered t thread (add_thread_to_table thread t).1
unfolding add_thread_to_table is_unused
add_thread_to_table-Registered thread t = elim (search_lem max_threads (is_unused t)) [
  | found i r lo hi h before ↦
      let unused = (==_iff (t.slots i) 0).0 h in
      rw (add_thread_to_table, r)
        (record {
          first_unused = λ k hk z first. elim (eq_or_ne k i) [
            | inl e ↦ rw (e, ==_self i) refl
            | inr ne ↦ absurd (first_is k i ne z unused first before)
          ];
          kept = λ k nz. rw (ne→== k i (λ e. nz (ap t.slots e ∙ unused))) refl;
        })
  | missing r all ↦
      rw (add_thread_to_table, r)
        (record {
          first_unused = λ k hk z first. absurd (==→ne (t.slots k) 0 (all k (omega arith) hk) z);
          kept = λ k nz. refl;
        })
]
  where
    first_is :
        (k i : ℕ)
        → k ≢ i
        → t.slots k ≡ 0
        → t.slots i ≡ 0
        → ((j : ℕ) → j < k → t.slots j ≢ 0)
        → ((j : ℕ) → 0 ≤ j → j < i → is_unused t j ≡ false)
        → ⊥
    first_is k i ne z unused first before = elim (Bool-cases (ltb i k)) [
      | inl lt ↦ first i (ltb→lt i k lt) unused
      | inr ge ↦ ==→ne (t.slots k) 0 (before k (omega arith) (ground (arith, ne, ge))) z
    ]
