-- ===== src/Threads/Heap.antt =====
-- The minimum heap of datastructures.c. `cmp` stands for the test `heap->cmp(a, b) < 0`, the only
-- use that the code makes of the comparison.
pub mod Swaps
pub mod Up
pub mod Down
pub mod Rearranged
pub mod Operations
use cs416_operating_systems.Base.{
  ℕ, zero, suc, ◌+◌, ◌-◌, ◌*◌, ◌/◌, Bool, true, false, ◌&&◌, Option, none, some, ltb, ◌==◌,
  if◌then◌else◌,
}
use cs416_operating_systems.Base.Memory.{update}

-- MAX_THREADS
abbrev pub max_threads : ℕ
max_threads = 128

pub record MinHeap : Type 0 where
  pub threads : ℕ → ℕ
  pub size : ℕ
  pub cmp : ℕ → ℕ → Bool

-- `temp = a[i]; a[i] = a[j]; a[j] = temp`
abbrev pub swap : (ℕ → ℕ) → ℕ → ℕ → ℕ → ℕ
swap a i j = update (update a i (a j)) j (a i)

pub init_heap : (ℕ → ℕ → Bool) → MinHeap → MinHeap
init_heap cmp heap = record {
  threads = λ i. if ltb i max_threads then 0 else heap.threads i;
  size = 0;
  cmp = cmp;
}

-- The loop of heap_push. The index decreases, so fuel of the index is enough.
pub sift_up : ℕ → (ℕ → ℕ → Bool) → ℕ → (ℕ → ℕ) → ℕ → ℕ
sift_up zero cmp i a = a
sift_up (suc fuel) cmp i a =
    let parent = (i - 1) / 2 in
    elim (i == 0) [
      | true ↦ a
      | false ↦ elim (cmp (a i) (a parent)) [
        | true ↦ sift_up fuel cmp parent (swap a i parent)
        | false ↦ a
      ]
    ]

-- `none` is a write past the end of the array, which the code does not check for.
pub heap_push : MinHeap → ℕ → Option MinHeap
heap_push heap thread =
    if ltb heap.size max_threads
    then some (record heap {
      threads = sift_up heap.size heap.cmp heap.size (update heap.threads heap.size thread);
      size = heap.size + 1;
    })
    else none

-- The child that the loop of heap_pop picks, or `i` itself.
pub smallest_at : (ℕ → ℕ → Bool) → ℕ → ℕ → (ℕ → ℕ) → ℕ
smallest_at cmp size i a =
    let left = 2 * i + 1 in
    let right = 2 * i + 2 in
    let smallest = if ltb left size && cmp (a left) (a i) then left else i in
    if ltb right size && cmp (a right) (a smallest) then right else smallest

-- The loop of heap_pop. The index grows below the size, so fuel of the size is enough.
pub sift_down : ℕ → (ℕ → ℕ → Bool) → ℕ → ℕ → (ℕ → ℕ) → ℕ → ℕ
sift_down zero cmp size i a = a
sift_down (suc fuel) cmp size i a =
    let smallest = smallest_at cmp size i a in
    elim (smallest == i) [ true ↦ a | false ↦ sift_down fuel cmp size smallest (swap a i smallest) ]

-- `none` is the read before the start of the array that an empty heap leads to.
pub heap_pop : MinHeap → Option (ℕ × MinHeap)
heap_pop heap =
    let size = heap.size - 1 in
    let moved = update heap.threads 0 (heap.threads size) in
    if heap.size == 0
    then none
    else some (
      heap.threads 0,
      record heap { threads = sift_down size heap.cmp size 0 moved; size = size },
    )

pub is_empty_heap : Option MinHeap → Bool
is_empty_heap none = true
is_empty_heap (some heap) = heap.size == 0
