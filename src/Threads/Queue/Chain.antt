-- ===== src/Threads/Queue/Chain.antt =====
-- When the nodes of datastructures.c form a queue, and which threads are in it.
use cs416_operating_systems.Base.{
  ℕ, ◌≡◌, ◌≢◌, refl, sym, ne→==, ==_self, eq_or_ne, inl, inr, List, [], ◌∷◌, ◌++◌,
}
use cs416_operating_systems.Base.Memory.{update}
use cs416_operating_systems.Threads.Queue.{Node, Queue, Store}

-- The nodes from the address `p` on are those of the list, and the last one has no next node.
unfoldable pub IsChain : Store → ℕ → List ℕ → Type 0
IsChain nodes p [] = p ≡ 0
IsChain nodes p (a ∷ xs) = (p ≡ a) × (a ≢ 0) × IsChain nodes (nodes a).next xs

-- The address `x` is not in the list.
unfoldable pub IsFresh : ℕ → List ℕ → Type 0
IsFresh x [] = Unit
IsFresh x (a ∷ xs) = (x ≢ a) × IsFresh x xs

unfoldable pub IsDistinct : List ℕ → Type 0
IsDistinct [] = Unit
IsDistinct (a ∷ xs) = IsFresh a xs × IsDistinct xs

unfoldable pub last_of : List ℕ → ℕ
last_of [] = 0
last_of (a ∷ []) = a
last_of (a ∷ b ∷ xs) = last_of (b ∷ xs)

-- The threads in the nodes of the list.
unfoldable pub threads_in : Store → List ℕ → List ℕ
threads_in nodes [] = []
threads_in nodes (a ∷ xs) = (nodes a).thread_data ∷ threads_in nodes xs

-- The queue has the nodes of the list, in order.
pub record IsQueue (nodes : Store) (q : Queue) (xs : List ℕ) : Type 0 where
  pub chain : IsChain nodes q.head xs
  pub ends : q.tail ≡ last_of xs
  pub distinct : IsDistinct xs

-- A write to a node outside the list changes nothing about it.
pub IsChain-update :
    (nodes : Store) (x p : ℕ) (v : Node) (xs : List ℕ)
    → IsFresh x xs
    → IsChain nodes p xs
    → IsChain (update nodes x v) p xs
unfolding IsChain IsFresh
IsChain-update nodes x p v [] f c = c
IsChain-update nodes x p v (a ∷ xs) (ne, f) (e, nz, c) =
    (e, nz, rw (ne→== a x (λ q. ne (sym q))) (IsChain-update nodes x _ v xs f c))

pub threads_in-update :
    (nodes : Store) (x : ℕ) (v : Node) (xs : List ℕ)
    → IsFresh x xs
    → threads_in (update nodes x v) xs ≡ threads_in nodes xs
unfolding threads_in IsFresh
threads_in-update nodes x v [] f = refl
threads_in-update nodes x v (a ∷ xs) (ne, f) =
    rw (ne→== a x (λ q. ne (sym q)), threads_in-update nodes x v xs f) refl

last_of-IsFresh : (a b : ℕ) (xs : List ℕ) → IsFresh a (b ∷ xs) → a ≢ last_of (b ∷ xs)
unfolding IsFresh last_of
last_of-IsFresh a b [] (ne, f) = ne
last_of-IsFresh a b (c ∷ xs) (ne, f) = last_of-IsFresh a c xs f

-- The list with a new last node, written by enqueue into a queue that is not empty.
pub IsChain-append :
    (nodes : Store) (x p : ℕ) (xs : List ℕ)
    → x ≢ 0
    → (nodes x).next ≡ 0
    → IsFresh x xs
    → IsDistinct xs
    → IsChain nodes p xs
    → last_of xs ≢ 0
    → IsChain
        (update nodes (last_of xs) (record (nodes (last_of xs)) { next = x }))
        p
        (xs ++ (x ∷ []))
unfolding IsChain IsFresh IsDistinct last_of
IsChain-append nodes x p [] nx end f d c l = absurd (l refl)
IsChain-append nodes x p (a ∷ []) nx end (ne, f) d (e, nz, c) l =
    (e, nz, (rw (==_self a) refl, nx, rw (ne→== x a ne) end))
IsChain-append nodes x p (a ∷ b ∷ xs) nx end (ne, f) (fa, d) (e, nz, c) l =
    let apart = last_of-IsFresh a b xs fa in
    let rest = IsChain-append nodes x (nodes a).next (b ∷ xs) nx end f d c l in
    (e, nz, rw (ne→== a (last_of (b ∷ xs)) apart) rest)

-- A change of a link changes no thread.
pub threads_in-relink :
    (nodes : Store) (l n : ℕ) (xs : List ℕ)
    → threads_in (update nodes l (record (nodes l) { next = n })) xs ≡ threads_in nodes xs
unfolding threads_in
threads_in-relink nodes l n [] = refl
threads_in-relink nodes l n (a ∷ xs) =
    rw (threads_in-relink nodes l n xs)
      (elim (eq_or_ne a l) [ inl e ↦ rw (e, ==_self l) refl | inr ne ↦ rw (ne→== a l ne) refl ])

pub threads_in-append :
    (nodes : Store) (x : ℕ) (xs : List ℕ)
    → threads_in nodes (xs ++ (x ∷ [])) ≡ threads_in nodes xs ++ ((nodes x).thread_data ∷ [])
unfolding threads_in
threads_in-append nodes x [] = refl
threads_in-append nodes x (a ∷ xs) = rw (threads_in-append nodes x xs) refl

pub last_of-append : (x : ℕ) (xs : List ℕ) → last_of (xs ++ (x ∷ [])) ≡ x
unfolding last_of
last_of-append x [] = refl
last_of-append x (a ∷ []) = refl
last_of-append x (a ∷ b ∷ xs) = last_of-append x (b ∷ xs)

IsFresh-append : (a x : ℕ) (xs : List ℕ) → a ≢ x → IsFresh a xs → IsFresh a (xs ++ (x ∷ []))
unfolding IsFresh
IsFresh-append a x [] ne f = (ne, tt)
IsFresh-append a x (b ∷ xs) ne (nb, f) = (nb, IsFresh-append a x xs ne f)

pub IsDistinct-append :
    (x : ℕ) (xs : List ℕ) → IsFresh x xs → IsDistinct xs → IsDistinct (xs ++ (x ∷ []))
unfolding IsDistinct IsFresh
IsDistinct-append x [] f d = (tt, tt)
IsDistinct-append x (a ∷ xs) (ne, f) (fa, d) =
    (IsFresh-append a x xs (λ e. ne (sym e)) fa, IsDistinct-append x xs f d)

pub last_of_pos :
    (nodes : Store) (p a : ℕ) (xs : List ℕ) → IsChain nodes p (a ∷ xs) → last_of (a ∷ xs) ≢ 0
unfolding IsChain last_of
last_of_pos nodes p a [] (e, nz, c) = nz
last_of_pos nodes p a (b ∷ xs) (e, nz, c) = last_of_pos nodes (nodes a).next b xs c
