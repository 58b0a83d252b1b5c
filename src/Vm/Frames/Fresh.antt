-- ===== src/Vm/Frames/Fresh.antt =====
-- What allocate_phys_page of my_vm.c returns: the first frame that is free.
use cs416_operating_systems.Base.{
  ℕ, zero, suc, ◌+◌, ◌*◌, ◌%◌, ◌≤◌, ◌<◌, ◌≡◌, refl, inl, inr, arith, ◌==◌, Bool-cases,
}
use cs416_operating_systems.Base.Memory.{IsBytes}
use cs416_operating_systems.Vm.{Vm, pgsize, u32, invalid_pa}
use cs416_operating_systems.Vm.Bitmap.{get_bit, set_bit, get_bit-lt}
use cs416_operating_systems.Vm.Frames.{allocate_loop, allocate_phys_page}

-- A search of `n` frames from `p` on either takes the first free one, and sets its bit alone, or
-- finds every frame in use and changes nothing.
pub data Allocates (n p : ℕ) (s : Vm) (r : ℕ × Vm) : Type 0 where
  taken :
      (f : ℕ)
      → p ≤ f
      → f < p + n
      → get_bit s.phys_bitmap f ≡ 0
      → ((g : ℕ) → p ≤ g → g < f → get_bit s.phys_bitmap g ≡ 1)
      → r ≡ (f * pgsize % u32, record s { phys_bitmap = set_bit s.phys_bitmap f })
      → Allocates n p s r
  full :
      ((g : ℕ) → p ≤ g → g < p + n → get_bit s.phys_bitmap g ≡ 1)
      → r ≡ (invalid_pa, s)
      → Allocates n p s r

-- One more frame in front, in use, changes nothing of what a search finds.
Allocates-step :
    (n p : ℕ) (s : Vm) (r : ℕ × Vm)
    → get_bit s.phys_bitmap p ≡ 1
    → Allocates n (p + 1) s r
    → Allocates (suc n) p s r
Allocates-step n p s r used (taken f lo hi free before e) =
    taken f (omega arith) (omega arith) free
      (λ g a b. elim (Bool-cases (p == g)) [
        | inl same ↦ ground arith
        | inr other ↦ before g (ground arith) b
      ])
      e
Allocates-step n p s r used (full all e) =
    full
      (λ g a b. elim (Bool-cases (p == g)) [
        | inl same ↦ ground arith
        | inr other ↦ all g (ground arith) (omega arith)
      ])
      e

allocate_loop-Allocates :
    (n p : ℕ) (s : Vm) → IsBytes s.phys_bitmap → Allocates n p s (allocate_loop n p s)
unfolding allocate_loop
allocate_loop-Allocates zero p s h = full (λ g a b. absurd (omega arith)) refl
allocate_loop-Allocates (suc n) p s h = elim (Bool-cases (get_bit s.phys_bitmap p == 0)) [
  | inl free ↦
      rw (free, allocate_loop)
        (taken p (omega arith) (omega arith) (ground arith) (λ g a b. absurd (omega arith)) refl)
  | inr used ↦
      rw (used, allocate_loop)
        (Allocates-step n p s _ (ground (arith, get_bit-lt s.phys_bitmap p h))
          (allocate_loop-Allocates n (p + 1) s h))
]

-- allocate_phys_page hands out the lowest-numbered free frame and marks exactly that frame as used;
-- when all frames are in use it returns INVALID_PA and leaves the state alone.
pub allocate_phys_page-Allocates :
    (s : Vm) → IsBytes s.phys_bitmap → Allocates s.num_phys_pages 0 s (allocate_phys_page s)
unfolding allocate_phys_page
allocate_phys_page-Allocates s h = allocate_loop-Allocates s.num_phys_pages 0 s h
