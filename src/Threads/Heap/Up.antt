-- ===== src/Threads/Heap/Up.antt =====
-- The loop of heap_push of datastructures.c restores the order of the heap.
use cs416_operating_systems.Base.{
  ℕ, zero, suc, ◌≤◌, ◌<◌, ◌≡◌, ◌≢◌, inl, inr, Bool, true, false, arith, ◌==◌, ==_iff, ==→ne,
  eq_or_ne, Bool-cases,
}
use cs416_operating_systems.Threads.Heap.{swap, sift_up}
use cs416_operating_systems.Threads.Heap.Swaps.{
  IsOrder, parent_of, swap_left, swap_right, swap_other,
}

-- No element of the first `n` comes before its parent.
abbrev pub IsHeap : (ℕ → ℕ → Bool) → ℕ → (ℕ → ℕ) → Type 0
IsHeap cmp n a = (j : ℕ) → 0 < j → j < n → cmp (a j) (a (parent_of j)) ≡ false

-- A heap but for the element at `i`, which may come before its parent.
pub record UpHeap (cmp : ℕ → ℕ → Bool) (n : ℕ) (a : ℕ → ℕ) (i : ℕ) : Type 0 where
  pub order : (j : ℕ) → 0 < j → j < n → j ≢ i → cmp (a j) (a (parent_of j)) ≡ false
  pub skip : (j : ℕ) → 0 < j → j < n → parent_of j ≡ i → 0 < i → cmp (a j) (a (parent_of i)) ≡ false

module _ (cmp : ℕ → ℕ → Bool) (ord : IsOrder cmp) (n : ℕ) (a : ℕ → ℕ) (i : ℕ) (hi : i < n)
    (up : UpHeap cmp n a i) (pos : 0 < i) where
  abbrev p : ℕ
  p = parent_of i

  settled : cmp (a i) (a p) ≡ false → IsHeap cmp n a
  settled h j pj hj = elim (eq_or_ne j i) [ inl e ↦ rw e h | inr ne ↦ up.order j pj hj ne ]

  apart : i ≢ p
  apart e = omega (arith, e)

  module _ (less : cmp (a i) (a p) ≡ true) where
    abbrev b : ℕ → ℕ
    b = swap a i p

    raised_order : (j : ℕ) → 0 < j → j < n → j ≢ p → cmp (b j) (b (parent_of j)) ≡ false
    raised_order j pj hj ne = elim (eq_or_ne j i) [
      | inl e ↦ rw (e, swap_left a i p apart, swap_right a i p) (ord.asym (a i) (a p) less)
      | inr nj ↦ elim (eq_or_ne (parent_of j) i) [
        | inl e ↦ rw (swap_other a i p j nj ne, e, swap_left a i p apart) (up.skip j pj hj e pos)
        | inr ni ↦ elim (eq_or_ne (parent_of j) p) [
          | inl e ↦
              rw (swap_other a i p j nj ne, e, swap_right a i p)
                (ord.trans (a j) (a p) (a i) (rw e at (up.order j pj hj nj))
                  (ord.asym (a i) (a p) less))
          | inr np ↦
              rw (swap_other a i p j nj ne, swap_other a i p (parent_of j) ni np)
                (up.order j pj hj nj)
        ]
      ]
    ]

    raised_skip :
        (j : ℕ) → 0 < j → j < n → parent_of j ≡ p → 0 < p → cmp (b j) (b (parent_of p)) ≡ false
    raised_skip j pj hj e pp =
        let above = up.order p pp (omega arith) (λ q. apart (omega (arith, q))) in
        let top = swap_other a i p (parent_of p) (λ q. omega (arith, q)) (λ q. omega (arith, q)) in
        elim (eq_or_ne j i) [
          | inl same ↦ rw (same, swap_left a i p apart, top) above
          | inr nj ↦
              rw (swap_other a i p j nj (λ q. omega (arith, q)), top)
                (ord.trans (a j) (a p) (a (parent_of p)) (rw e at (up.order j pj hj nj)) above)
        ]

    raised : UpHeap cmp n b p
    raised = record { order = raised_order; skip = raised_skip }

pub sift_up-IsHeap :
    (fuel : ℕ) (cmp : ℕ → ℕ → Bool) (n : ℕ) (a : ℕ → ℕ) (i : ℕ)
    → IsOrder cmp
    → i ≤ fuel
    → i < n
    → UpHeap cmp n a i
    → IsHeap cmp n (sift_up fuel cmp i a)
unfolding sift_up
sift_up-IsHeap zero cmp n a i ord enough hi up = λ j pj hj. up.order j pj hj (λ e. omega (arith, e))
sift_up-IsHeap (suc fuel) cmp n a i ord enough hi up = elim (Bool-cases (i == 0)) [
  | inl z ↦
      rw (sift_up, z)
        (λ j pj hj. let root = (==_iff i 0).0 z in up.order j pj hj (λ e. omega (arith, e, root)))
  | inr nz ↦
      let pos : 0 < i = omega (arith, ==→ne i 0 nz) in
      elim (Bool-cases (cmp (a i) (a (parent_of i)))) [
        | inl less ↦
            rw (sift_up, nz, less)
              (sift_up-IsHeap fuel cmp n (swap a i (parent_of i)) (parent_of i) ord (omega arith)
                (omega arith) (raised cmp ord n a i hi up pos less))
        | inr more ↦ rw (sift_up, nz, more) (settled cmp ord n a i hi up pos more)
      ]
]
