-- ===== src/Threads/Queue.antt =====
-- The linked queue of datastructures.c, over a store of nodes. A `Queue_t *` that is NULL is
-- `none`; the store is the part of the heap that holds the nodes, by address.
pub mod Chain
pub mod Operations
use cs416_operating_systems.Base.{ℕ, Bool, true, Option, none, some, ◌==◌, if◌then◌else◌}
use cs416_operating_systems.Base.Memory.{update}

pub record Node : Type 0 where
  pub thread_data : ℕ
  pub next : ℕ

pub record Queue : Type 0 where
  pub head : ℕ
  pub tail : ℕ

abbrev pub Store : Type 0
Store = ℕ → Node

pub init_queue : Option Queue → Option Queue
init_queue none = none
init_queue (some queue) = some (record { head = 0; tail = 0 })

-- `node` is what malloc returns. The code does not check it for NULL: it is taken not to be.
pub enqueue : Option Queue → ℕ → ℕ → Store → Option Queue × Store
enqueue none thread node nodes = (none, nodes)
enqueue (some queue) thread node nodes =
    let filled : Store = update nodes node (record { thread_data = thread; next = 0 }) in
    if queue.tail == 0 then (some (record { head = node; tail = node }), filled) else (
      some (record queue { tail = node }),
      update filled queue.tail (record (filled queue.tail) { next = node }),
    )

-- `free` leaves the contents of the store unspecified at the node, which nothing reads afterwards.
pub dequeue : Option Queue → Store → ℕ × Option Queue
dequeue none nodes = (0, none)
dequeue (some queue) nodes =
    let next = (nodes queue.head).next in
    let tail = if next == 0 then 0 else queue.tail in
    if queue.head == 0
    then (0, some queue)
    else ((nodes queue.head).thread_data, some (record { head = next; tail = tail }))

pub is_empty_queue : Option Queue → Bool
is_empty_queue none = true
is_empty_queue (some queue) = queue.head == 0
