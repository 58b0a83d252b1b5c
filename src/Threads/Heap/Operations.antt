-- ===== src/Threads/Heap/Operations.antt =====
-- heap_push and heap_pop of datastructures.c on a heap.
use cs416_operating_systems.Base.{
  ℕ, zero, suc, ◌+◌, ◌-◌, ◌≤◌, ◌<◌, ◌≡◌, ◌≢◌, refl, inl, inr, Bool, false, arith, ne→==, eq_or_ne,
  lt→ltb, some,
}
use cs416_operating_systems.Base.Memory.{update}
use cs416_operating_systems.Threads.Heap.{MinHeap, max_threads, sift_down, heap_push, heap_pop}
use cs416_operating_systems.Threads.Heap.Swaps.{IsOrder, parent_of}
use cs416_operating_systems.Threads.Heap.Up.{IsHeap, UpHeap, sift_up-IsHeap}
use cs416_operating_systems.Threads.Heap.Down.{DownHeap, irreflexive, sift_down-IsHeap}
use cs416_operating_systems.Threads.Heap.Rearranged.{
  Rearranged, Rearranged-empty, Rearranged-join, Rearranged-swap, Rearranged-extend,
  sift_up-Rearranged, sift_down-Rearranged,
}

abbrev pub IsOrdered : MinHeap → Type 0
IsOrdered h = IsHeap h.cmp h.size h.threads

-- The heap `t` after the thread `x` is added to `h`.
pub record Pushed (h : MinHeap) (x : ℕ) (t : MinHeap) : Type 0 where
  pub ordered : IsOrdered t
  pub grown : t.size ≡ h.size + 1
  pub same_cmp : t.cmp ≡ h.cmp
  pub elements : Rearranged (suc h.size) (update h.threads h.size x) t.threads

-- The heap `t` after the thread `x` is taken from `h`.
pub record Popped (h : MinHeap) (x : ℕ) (t : MinHeap) : Type 0 where
  pub ordered : IsOrdered t
  pub shrunk : h.size ≡ t.size + 1
  pub same_cmp : t.cmp ≡ h.cmp
  pub least : (j : ℕ) → j < h.size → h.cmp (h.threads j) x ≡ false
  pub elements : Rearranged (suc t.size) h.threads (update t.threads t.size x)

module _ (h : MinHeap) (x : ℕ) (heap : IsOrdered h) where
  abbrev grown_array : ℕ → ℕ
  grown_array = update h.threads h.size x

  -- The new last element may come before its parent.
  push-UpHeap : UpHeap h.cmp (suc h.size) grown_array h.size
  push-UpHeap = record {
    order = λ j pj hj ne.
        let np : parent_of j ≢ h.size = λ e. omega (arith, e) in
        rw (ne→== j h.size ne, ne→== (parent_of j) h.size np) (heap j pj (omega (arith, ne)));
    skip = λ j pj hj e p. absurd (omega (arith, e));
  }

-- heap_push onto a heap with room: the result is a heap of one more element, which holds the
-- elements of the old one and the new one.
pub heap_push-Pushed :
    (h : MinHeap) (x : ℕ)
    → IsOrder h.cmp
    → IsOrdered h
    → h.size < max_threads
    → (t : MinHeap) × (heap_push h x ≡ some t) × Pushed h x t
unfolding heap_push
heap_push-Pushed h x ord heap room = (
  _,
  rw (lt→ltb h.size max_threads room) refl,
  record {
    ordered =
        (let n : h.size + 1 ≡ suc h.size = omega arith in
          rw n (
            sift_up-IsHeap h.size h.cmp (suc h.size) (update h.threads h.size x) h.size ord
              (omega arith) (omega arith) (push-UpHeap h x heap)));
    grown = refl;
    same_cmp = refl;
    elements =
        sift_up-Rearranged h.size h.cmp (suc h.size) h.size (update h.threads h.size x)
          (omega arith);
  },
)

-- Each element is reached from the root by steps that do not go down in the order.
root_least :
    (cmp : ℕ → ℕ → Bool) (n : ℕ) (a : ℕ → ℕ)
    → IsOrder cmp
    → IsHeap cmp n a
    → (fuel j : ℕ) → j ≤ fuel
    → j < n
    → cmp (a j) (a 0) ≡ false
root_least cmp n a ord heap zero j e h =
    let z : j ≡ 0 = omega arith in rw z (irreflexive cmp ord (a 0))
root_least cmp n a ord heap (suc fuel) j e h = elim (eq_or_ne j 0) [
  | inl z ↦ rw z (irreflexive cmp ord (a 0))
  | inr ne ↦
      ord.trans (a j) (a (parent_of j)) (a 0) (heap j (omega (arith, ne)) h)
        (root_least cmp n a ord heap fuel (parent_of j) (omega (arith, ne)) (omega arith))
]

module _ (h : MinHeap) (m : ℕ) (size : h.size ≡ suc m) (heap : IsOrdered h) where
  abbrev moved : ℕ → ℕ
  moved = update h.threads 0 (h.threads m)

  -- The last element, moved to the root, may come after its children.
  pop-DownHeap : DownHeap h.cmp m moved 0
  pop-DownHeap = record {
    order = λ j pj hj np.
        let nj : j ≢ 0 = λ e. omega (arith, e) in
        rw (ne→== j 0 nj, ne→== (parent_of j) 0 np) (heap j pj (omega arith));
    skip = λ j pj hj e p. absurd (omega arith);
  }

  pop-Rearranged :
      Rearranged (suc m) h.threads (update (sift_down m h.cmp m 0 moved) m (h.threads 0))
  pop-Rearranged =
      Rearranged-join (suc m) h.threads _ _
        (Rearranged-swap (suc m) h.threads 0 m (omega arith) (omega arith))
        (Rearranged-extend m (h.threads 0) moved _ (elim (eq_or_ne m 0) [
          | inl z ↦ Rearranged-empty m moved _ z
          | inr ne ↦ sift_down-Rearranged m h.cmp m 0 moved (omega (arith, ne))
        ]))

-- heap_pop from a heap that is not empty: no element of the heap comes before the one returned, and
-- the result is a heap of the other elements.
pub heap_pop-Popped :
    (h : MinHeap)
    → IsOrder h.cmp
    → IsOrdered h
    → 0 < h.size
    → (x : ℕ) × (t : MinHeap) × (heap_pop h ≡ some (x, t)) × Popped h x t
unfolding heap_pop
heap_pop-Popped h ord heap pos =
    let m = h.size - 1 in
    let size : h.size ≡ suc m = omega arith in
    (
      h.threads 0,
      _,
      rw (ne→== h.size 0 (λ e. omega (arith, e))) refl,
      record {
        ordered =
            sift_down-IsHeap m h.cmp m (moved h m size heap) 0 ord (omega arith)
              (pop-DownHeap h m size heap);
        shrunk = omega arith;
        same_cmp = refl;
        least = λ j hj. root_least h.cmp h.size h.threads ord heap j j (omega arith) hj;
        elements = pop-Rearranged h m size heap;
      },
    )
