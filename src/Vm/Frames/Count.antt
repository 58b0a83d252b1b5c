-- ===== src/Vm/Frames/Count.antt =====
-- How many frames are free in the physical bitmap of my_vm.c.
use cs416_operating_systems.Base.{
  ℕ, zero, suc, ◌+◌, ◌≤◌, ◌<◌, ◌≡◌, refl, sym, ◌∙◌, inl, inr, arith, ◌==◌, ne→==, ==_self, eq_or_ne,
  Bool, true, false, if◌then◌else◌,
}
use cs416_operating_systems.Base.Memory.{Bytes, IsBytes}
use cs416_operating_systems.Vm.{Vm}
use cs416_operating_systems.Vm.Bitmap.{get_bit, set_bit, get_bit-set_bit}

-- The clear bits among the first `n`.
abbrev pub clear_bits : Bytes → ℕ → ℕ
clear_bits b zero = 0
clear_bits b (suc n) = if get_bit b n == 0 then suc (clear_bits b n) else clear_bits b n

abbrev pub free_frames : Vm → ℕ
free_frames s = clear_bits s.phys_bitmap s.num_phys_pages

clear_bits-same :
    (b b' : Bytes) (n : ℕ)
    → ((j : ℕ) → j < n → get_bit b' j ≡ get_bit b j)
    → clear_bits b' n ≡ clear_bits b n
clear_bits-same b b' zero same = refl
clear_bits-same b b' (suc n) same =
    rw (same n (omega arith), clear_bits-same b b' n (λ j h. same j (omega arith))) refl

-- With one bit more set there is at most one clear bit less.
clear_bits-set_bit :
    (b : Bytes) (i n : ℕ) → IsBytes b → clear_bits b n ≤ suc (clear_bits (set_bit b i) n)
clear_bits-set_bit b i zero h = omega arith
clear_bits-set_bit b i (suc n) h = elim (eq_or_ne i n) [
  | inl e ↦
      let here : (if i == n then 1 else get_bit b n) ≡ 1 = rw (e, ==_self n) refl in
      let below : clear_bits (set_bit b i) n ≡ clear_bits b n =
        clear_bits-same b (set_bit b i) n
          (λ j lt. get_bit-set_bit b i j h ∙ rw (ne→== i j (omega arith)) refl) in
      rw (get_bit-set_bit b i n h ∙ here, below) (one (get_bit b n == 0))
  | inr ne ↦
      rw (get_bit-set_bit b i n h, ne→== i n ne)
        (more (get_bit b n == 0) (clear_bits-set_bit b i n h))
]
  where
    one : (c : Bool) → (if c then suc (clear_bits b n) else clear_bits b n) ≤ suc (clear_bits b n)
    one true = omega arith
    one false = omega arith

    more :
        (c : Bool)
        → clear_bits b n ≤ suc (clear_bits (set_bit b i) n)
        → (if c then suc (clear_bits b n) else clear_bits b n)
          ≤ suc (if c then suc (clear_bits (set_bit b i) n) else clear_bits (set_bit b i) n)
    more true le = omega arith
    more false le = omega arith

clear_bits_none : (b : Bytes) (n : ℕ) → ((j : ℕ) → j < n → get_bit b j ≡ 1) → clear_bits b n ≡ 0
clear_bits_none b zero all = refl
clear_bits_none b (suc n) all =
    rw (all n (omega arith)) (clear_bits_none b n (λ j h. all j (omega arith)))

-- From `s` to `t` at most `k` frames were taken.
pub record Spends (s : Vm) (k : ℕ) (t : Vm) : Type 0 where
  pub same_pages : t.num_phys_pages ≡ s.num_phys_pages
  pub bound : free_frames s ≤ free_frames t + k

pub Spends-trans : (s t u : Vm) (k l : ℕ) → Spends s k t → Spends t l u → Spends s (k + l) u
Spends-trans s t u k l a b = record {
  same_pages = b.same_pages ∙ a.same_pages;
  bound = omega (arith, a.bound, b.bound);
}

pub Spends-refl : (s : Vm) → Spends s 0 s
Spends-refl s = record { same_pages = refl; bound = omega arith }

-- A frame is marked.
pub set_bit-Spends :
    (s t : Vm) (f : ℕ)
    → IsBytes s.phys_bitmap
    → t.num_phys_pages ≡ s.num_phys_pages
    → t.phys_bitmap ≡ set_bit s.phys_bitmap f
    → Spends s 1 t
set_bit-Spends s t f h pages bitmap = record {
  same_pages = pages;
  bound = rw (bitmap, pages) (omega (arith, clear_bits-set_bit s.phys_bitmap f s.num_phys_pages h));
}

-- A frame that is marked is marked again.
pub set_bit_again-Spends :
    (s t : Vm) (f : ℕ)
    → IsBytes s.phys_bitmap
    → get_bit s.phys_bitmap f ≡ 1
    → t.num_phys_pages ≡ s.num_phys_pages
    → t.phys_bitmap ≡ set_bit s.phys_bitmap f
    → Spends s 0 t
set_bit_again-Spends s t f h marked pages bitmap =
    let same =
      clear_bits-same s.phys_bitmap (set_bit s.phys_bitmap f) s.num_phys_pages
        (λ j lt. get_bit-set_bit s.phys_bitmap f j h ∙ again j) in
    record { same_pages = pages; bound = rw (bitmap, pages, same) (omega arith) }
  where
    again : (j : ℕ) → (if f == j then 1 else get_bit s.phys_bitmap j) ≡ get_bit s.phys_bitmap j
    again j = elim (eq_or_ne f j) [
      | inl e ↦ rw (e, ==_self j) (sym (rw e at marked))
      | inr ne ↦ rw (ne→== f j ne) refl
    ]

-- Where every frame is marked at the end, no more than those taken were free.
pub Spends-free_frames :
    (s t : Vm) (k : ℕ)
    → Spends s k t
    → ((g : ℕ) → g < t.num_phys_pages → get_bit t.phys_bitmap g ≡ 1)
    → free_frames s ≤ k
Spends-free_frames s t k sp all =
    omega (arith, sp.bound, clear_bits_none t.phys_bitmap t.num_phys_pages all)
