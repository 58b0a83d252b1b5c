-- ===== src/Threads/Queue/Operations.antt =====
-- enqueue and dequeue of datastructures.c: first in, first out.
use cs416_operating_systems.Base.{
  ℕ, ◌≡◌, ◌≢◌, refl, sym, ap, ◌∙◌, ne→==, ==_self, List, [], ◌∷◌, ◌++◌, Option, some,
}
use cs416_operating_systems.Base.Memory.{update}
use cs416_operating_systems.Threads.Queue.{Node, Queue, Store, enqueue, dequeue}
use cs416_operating_systems.Threads.Queue.Chain.{
  IsChain, IsFresh, IsDistinct, last_of, threads_in, IsQueue, IsChain-update, threads_in-update,
  IsChain-append, threads_in-relink, threads_in-append, last_of-append, IsDistinct-append,
  last_of_pos,
}

-- What enqueue leaves of a queue with the nodes `xs`.
pub record Enqueued (nodes : Store) (xs : List ℕ) (thread x : ℕ) (r : Option Queue × Store)
    : Type 0 where
  pub queue : Queue
  pub present : r.0 ≡ some queue
  pub linked : IsQueue r.1 queue (xs ++ (x ∷ []))
  pub threads : threads_in r.1 (xs ++ (x ∷ [])) ≡ threads_in nodes xs ++ (thread ∷ [])

-- What dequeue leaves of it.
pub data Dequeued (nodes : Store) (q : Queue) (xs : List ℕ) (r : ℕ × Option Queue) : Type 0 where
  was_empty : xs ≡ [] → r ≡ (0, some q) → Dequeued nodes q xs r
  taken :
      (x t : ℕ) (rest : List ℕ) (q' : Queue)
      → xs ≡ x ∷ rest
      → r ≡ (t, some q')
      → threads_in nodes xs ≡ t ∷ threads_in nodes rest
      → IsQueue nodes q' rest
      → Dequeued nodes q xs r

-- enqueue with a node that malloc returned, so neither NULL nor in the queue: the queue has that
-- node at its end, and its threads are those of before, followed by the new one.
pub enqueue-Enqueued :
    (nodes : Store) (q : Queue) (xs : List ℕ) (thread x : ℕ)
    → IsQueue nodes q xs
    → x ≢ 0
    → IsFresh x xs
    → Enqueued nodes xs thread x (enqueue (some q) thread x nodes)
unfolding enqueue IsChain IsFresh IsDistinct last_of threads_in
enqueue-Enqueued nodes q [] thread x h nx f = rw h.ends (record {
  queue = record { head = x; tail = x };
  present = refl;
  linked = record { chain = (refl, nx, rw (==_self x) refl); ends = refl; distinct = (tt, tt) };
  threads = rw (==_self x) refl;
})
enqueue-Enqueued nodes q (a ∷ xs) thread x h nx f =
    let node : Node = record { thread_data = thread; next = 0 } in
    let filled : Store = update nodes x node in
    let last = last_of (a ∷ xs) in
    let pos = last_of_pos nodes q.head a xs h.chain in
    let kept = IsChain-update nodes x q.head node (a ∷ xs) f h.chain in
    rw (h.ends, ne→== last 0 pos)
      (record {
        queue = record { head = q.head; tail = x };
        present = refl;
        linked = record {
          chain =
              IsChain-append filled x q.head (a ∷ xs) nx (rw (==_self x) refl) f h.distinct kept
                pos;
          ends = sym (last_of-append x (a ∷ xs));
          distinct = IsDistinct-append x (a ∷ xs) f h.distinct;
        };
        threads =
            threads_in-relink filled last x (a ∷ xs ++ (x ∷ []))
            ∙ threads_in-append filled x (a ∷ xs)
            ∙ ap (λ (ys : List ℕ). ys ++ ((filled x).thread_data ∷ []))
                (threads_in-update nodes x node (a ∷ xs) f)
            ∙ rw (==_self x) refl;
      })

-- dequeue: of an empty queue the result is NULL and nothing changes; otherwise it is the first
-- thread, and the queue keeps the others in their order.
pub dequeue-Dequeued :
    (nodes : Store) (q : Queue) (xs : List ℕ)
    → IsQueue nodes q xs
    → Dequeued nodes q xs (dequeue (some q) nodes)
unfolding dequeue IsChain IsDistinct last_of threads_in
dequeue-Dequeued nodes q [] h = let e : q.head ≡ 0 = h.chain in rw e (was_empty refl refl)
dequeue-Dequeued nodes q (a ∷ []) h =
    let (e, nz, c) = h.chain in
    rw (e, ne→== a 0 nz, c)
      (taken a (nodes a).thread_data [] (record { head = 0; tail = 0 }) refl refl refl
        (record { chain = refl; ends = refl; distinct = tt }))
dequeue-Dequeued nodes q (a ∷ b ∷ xs) h =
    let (e, nz, (f, nb, c)) = h.chain in
    rw (e, ne→== a 0 nz, f, ne→== b 0 nb)
      (taken a (nodes a).thread_data (b ∷ xs) (record { head = b; tail = q.tail }) refl refl refl
        (record { chain = (refl, nb, c); ends = h.ends; distinct = h.distinct.1 }))
