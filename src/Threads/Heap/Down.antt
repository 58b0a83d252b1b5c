-- ===== src/Threads/Heap/Down.antt =====
-- The loop of heap_pop of datastructures.c restores the order of the heap.
use cs416_operating_systems.Base.{
  ℕ, zero, suc, ◌+◌, ◌*◌, ◌≤◌, ◌<◌, ◌≡◌, ◌≢◌, ◌⊎◌, refl, inl, inr, Bool, true, false, arith, ◌==◌,
  ==_iff, ne→==, eq_or_ne, Bool-cases, ltb, ◌&&◌,
}
use cs416_operating_systems.Threads.Heap.{swap, sift_down, smallest_at}
use cs416_operating_systems.Threads.Heap.Swaps.{
  IsOrder, parent_of, swap_left, swap_right, swap_other,
}
use cs416_operating_systems.Threads.Heap.Up.{IsHeap}

-- A heap but for the element at `i`, which may come after its children.
pub record DownHeap (cmp : ℕ → ℕ → Bool) (n : ℕ) (a : ℕ → ℕ) (i : ℕ) : Type 0 where
  pub order : (j : ℕ) → 0 < j → j < n → parent_of j ≢ i → cmp (a j) (a (parent_of j)) ≡ false
  pub skip : (j : ℕ) → 0 < j → j < n → parent_of j ≡ i → 0 < i → cmp (a j) (a (parent_of i)) ≡ false

-- What the test of a round finds: no child comes before the element at `i`, or a child does, and
-- no other child comes before that one.
pub data Picks (cmp : ℕ → ℕ → Bool) (n i : ℕ) (a : ℕ → ℕ) (c : ℕ) : Type 0 where
  stay :
      c ≡ i
      → ((j : ℕ) → 0 < j → j < n → parent_of j ≡ i → cmp (a j) (a i) ≡ false)
      → Picks cmp n i a c
  child :
      0 < c
      → c < n
      → parent_of c ≡ i
      → cmp (a c) (a i) ≡ true
      → ((j : ℕ) → 0 < j → j < n → parent_of j ≡ i → cmp (a j) (a c) ≡ false)
      → Picks cmp n i a c

children : (i j : ℕ) → 0 < j → parent_of j ≡ i → (j ≡ 2 * i + 1) ⊎ (j ≡ 2 * i + 2)
children i j p e = omega arith

module _ (cmp : ℕ → ℕ → Bool) (ord : IsOrder cmp) where
  pub irreflexive : (x : ℕ) → cmp x x ≡ false
  irreflexive x = elim (Bool-cases (cmp x x)) [ inl e ↦ ord.asym x x e | inr e ↦ e ]

  test_true : (k n : ℕ) (t : Bool) → (ltb k n && t) ≡ true → (k < n) × (t ≡ true)
  test_true k n t h = (ground arith, ground arith)

  test_false : (k n : ℕ) (t : Bool) → (ltb k n && t) ≡ false → k < n → t ≡ false
  test_false k n t h lt = ground arith

  -- What holds of the two children holds of each child.
  both_children :
      (n i x : ℕ) (a : ℕ → ℕ)
      → (2 * i + 1 < n → cmp (a (2 * i + 1)) x ≡ false)
      → (2 * i + 2 < n → cmp (a (2 * i + 2)) x ≡ false)
      → (j : ℕ) → 0 < j
      → j < n
      → parent_of j ≡ i
      → cmp (a j) x ≡ false
  both_children n i x a l r j pj hj e = elim (children i j pj e) [
    | inl left ↦ rw left (l (omega (arith, left)))
    | inr right ↦ rw right (r (omega (arith, right)))
  ]

  between : (x y z : ℕ) → cmp x y ≡ true → cmp y z ≡ true → cmp x z ≡ true
  between x y z f g = elim (Bool-cases (cmp x z)) [
    | inl e ↦ e
    | inr e ↦ let h = ord.trans x z y e (ord.asym y z g) in cc
  ]

  smallest_at-Picks : (n i : ℕ) (a : ℕ → ℕ) → Picks cmp n i a (smallest_at cmp n i a)
  unfolding smallest_at
  smallest_at-Picks n i a =
      let l = 2 * i + 1 in
      let r = 2 * i + 2 in
      elim (Bool-cases (ltb l n && cmp (a l) (a i))) [
        | inl el ↦ elim (Bool-cases (ltb r n && cmp (a r) (a l))) [
          | inl er ↦
              rw (el, er)
                (let (hl, less) = test_true l n _ el in
                  let (hr, lesser) = test_true r n _ er in
                  child (omega arith) hr (omega arith) (between (a r) (a l) (a i) lesser less) (
                    both_children n i (a r) a (λ h. ord.asym (a r) (a l) lesser)
                      (λ h. irreflexive (a r))))
          | inr er ↦
              rw (el, er)
                (let (hl, less) = test_true l n _ el in
                  child (omega arith) hl (omega arith) less
                    (both_children n i (a l) a (λ h. irreflexive (a l)) (test_false r n _ er)))
        ]
        | inr el ↦ elim (Bool-cases (ltb r n && cmp (a r) (a i))) [
          | inl er ↦
              rw (el, er)
                (let (hr, less) = test_true r n _ er in
                  child (omega arith) hr (omega arith) less (
                    both_children n i (a r) a
                      (λ h.
                        ord.trans (a l) (a i) (a r) (test_false l n _ el h)
                          (ord.asym (a r) (a i) less))
                      (λ h. irreflexive (a r))))
          | inr er ↦
              rw (el, er)
                (stay refl (both_children n i (a i) a (test_false l n _ el) (test_false r n _ er)))
        ]
      ]

  module _ (n : ℕ) (a : ℕ → ℕ) (i : ℕ) (down : DownHeap cmp n a i) where
    settled : ((j : ℕ) → 0 < j → j < n → parent_of j ≡ i → cmp (a j) (a i) ≡ false) → IsHeap cmp n a
    settled h j pj hj = elim (eq_or_ne (parent_of j) i) [
      | inl e ↦ rw e (h j pj hj e)
      | inr ne ↦ down.order j pj hj ne
    ]

    module _ (c : ℕ) (pc : 0 < c) (hc : c < n) (under : parent_of c ≡ i)
        (less : cmp (a c) (a i) ≡ true)
        (least : (j : ℕ) → 0 < j → j < n → parent_of j ≡ i → cmp (a j) (a c) ≡ false) where
      abbrev b : ℕ → ℕ
      b = swap a i c

      apart : i ≢ c
      apart e = omega (arith, e)

      lowered_order :
          (j : ℕ) → 0 < j → j < n → parent_of j ≢ c → cmp (b j) (b (parent_of j)) ≡ false
      lowered_order j pj hj ne = elim (eq_or_ne j c) [
        | inl e ↦ rw (e, under, swap_right a i c, swap_left a i c apart) (ord.asym (a c) (a i) less)
        | inr nc ↦ elim (eq_or_ne (parent_of j) i) [
          | inl e ↦
              rw (swap_other a i c j (λ q. omega (arith, q, e)) nc, e, swap_left a i c apart)
                (least j pj hj e)
          | inr np ↦ elim (eq_or_ne j i) [
            | inl same ↦
                rw
                  (
                    same,
                    swap_left a i c apart,
                    swap_other a i c (parent_of i) (λ q. omega (arith, q, same))
                        (λ q. omega (arith, q)),
                  )
                  (down.skip c pc hc under (omega arith))
            | inr ni ↦
                rw (swap_other a i c j ni nc, swap_other a i c (parent_of j) np ne)
                  (down.order j pj hj np)
          ]
        ]
      ]

      lowered_skip :
          (j : ℕ) → 0 < j → j < n → parent_of j ≡ c → 0 < c → cmp (b j) (b (parent_of c)) ≡ false
      lowered_skip j pj hj e p0 =
          rw
            (
              under,
              swap_left a i c apart,
              swap_other a i c j (λ q. omega (arith, q, e)) (λ q. omega (arith, q, e)),
            )
            (rw e at (down.order j pj hj (λ q. apart (omega (arith, q, e)))))

      lowered : DownHeap cmp n b c
      lowered = record { order = lowered_order; skip = lowered_skip }

pub sift_down-IsHeap :
    (fuel : ℕ) (cmp : ℕ → ℕ → Bool) (n : ℕ) (a : ℕ → ℕ) (i : ℕ)
    → IsOrder cmp
    → n ≤ i + fuel
    → DownHeap cmp n a i
    → IsHeap cmp n (sift_down fuel cmp n i a)
unfolding sift_down
sift_down-IsHeap zero cmp n a i ord enough down =
    λ j pj hj. down.order j pj hj (λ e. omega (arith, e))
sift_down-IsHeap (suc fuel) cmp n a i ord enough down = elim (smallest_at-Picks cmp ord n i a) [
  | stay e all ↦ rw (sift_down, (==_iff _ _).1 e) (settled cmp ord n a i down all)
  | child pc hc under less least ↦
      let c = smallest_at cmp n i a in
      let moves : (c == i) ≡ false = ne→== c i (λ e. omega (arith, e)) in
      rw (sift_down, moves)
        (sift_down-IsHeap fuel cmp n (swap a i c) c ord (omega arith)
          (lowered cmp ord n a i down c pc hc under less least))
]
