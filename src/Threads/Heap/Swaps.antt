-- ===== src/Threads/Heap/Swaps.antt =====
-- Exchanging two elements of the array of datastructures.c, and the order that the heap needs.
use cs416_operating_systems.Base.{ℕ, ◌-◌, ◌/◌, ◌≡◌, ◌≢◌, refl, Bool, true, false, ==_self, ne→==}
use cs416_operating_systems.Threads.Heap.{swap}

-- `cmp(a, b) < 0` is a strict order in which incomparable elements count as equal.
pub record IsOrder (cmp : ℕ → ℕ → Bool) : Type 0 where
  pub asym : (x y : ℕ) → cmp x y ≡ true → cmp y x ≡ false
  pub trans : (x y z : ℕ) → cmp x y ≡ false → cmp y z ≡ false → cmp x z ≡ false

abbrev pub parent_of : ℕ → ℕ
parent_of j = (j - 1) / 2

module _ (a : ℕ → ℕ) (i j : ℕ) where
  pub swap_left : i ≢ j → swap a i j i ≡ a j
  swap_left ne = rw (ne→== i j ne, ==_self i) refl

  pub swap_right : swap a i j j ≡ a i
  swap_right = rw (==_self j) refl

  pub swap_other : (k : ℕ) → k ≢ i → k ≢ j → swap a i j k ≡ a k
  swap_other k ni nj = rw (ne→== k i ni, ne→== k j nj) refl
