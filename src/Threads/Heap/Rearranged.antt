-- ===== src/Threads/Heap/Rearranged.antt =====
-- The loops of the heap of datastructures.c only move elements.
use cs416_operating_systems.Base.{
  ℕ, zero, suc, ◌<◌, ◌≡◌, refl, sym, ap, ◌∙◌, inl, inr, Bool, arith, ◌==◌, ==_self, ne→==, eq_or_ne,
  Bool-cases, ltb, if◌then◌else◌,
}
use cs416_operating_systems.Base.Memory.{update}
use cs416_operating_systems.Threads.Heap.{swap, sift_up, sift_down, smallest_at}
use cs416_operating_systems.Threads.Heap.Swaps.{parent_of}

-- The first `n` elements of `b` are those of `a`, each as often, in some order: `from` and `back`
-- are inverse to each other on the positions below `n`.
pub record Rearranged (n : ℕ) (a b : ℕ → ℕ) : Type 0 where
  pub from : ℕ → ℕ
  pub back : ℕ → ℕ
  pub from_lt : (k : ℕ) → k < n → from k < n
  pub back_lt : (k : ℕ) → k < n → back k < n
  pub from_back : (k : ℕ) → k < n → from (back k) ≡ k
  pub back_from : (k : ℕ) → k < n → back (from k) ≡ k
  pub same : (k : ℕ) → k < n → b k ≡ a (from k)

pub Rearranged-none : (n : ℕ) (a : ℕ → ℕ) → Rearranged n a a
Rearranged-none n a = record {
  from = λ k. k;
  back = λ k. k;
  from_lt = λ k h. h;
  back_lt = λ k h. h;
  from_back = λ k h. refl;
  back_from = λ k h. refl;
  same = λ k h. refl;
}

pub Rearranged-empty : (n : ℕ) (a b : ℕ → ℕ) → n ≡ 0 → Rearranged n a b
Rearranged-empty n a b z = record {
  from = λ k. k;
  back = λ k. k;
  from_lt = λ k h. h;
  back_lt = λ k h. h;
  from_back = λ k h. refl;
  back_from = λ k h. refl;
  same = λ k h. absurd (omega arith);
}

pub Rearranged-join :
    (n : ℕ) (a b c : ℕ → ℕ) → Rearranged n a b → Rearranged n b c → Rearranged n a c
Rearranged-join n a b c f g = record {
  from = λ k. f.from (g.from k);
  back = λ k. g.back (f.back k);
  from_lt = λ k h. f.from_lt (g.from k) (g.from_lt k h);
  back_lt = λ k h. g.back_lt (f.back k) (f.back_lt k h);
  from_back = λ k h. ap f.from (g.from_back (f.back k) (f.back_lt k h)) ∙ f.from_back k h;
  back_from = λ k h. ap g.back (f.back_from (g.from k) (g.from_lt k h)) ∙ g.back_from k h;
  same = λ k h. g.same k h ∙ f.same (g.from k) (g.from_lt k h);
}

abbrev flip : ℕ → ℕ → ℕ → ℕ
flip i j k = if k == i then j else if k == j then i else k

flip_twice : (i j k : ℕ) → flip i j (flip i j k) ≡ k
flip_twice i j k = ground arith

flip_lt : (n i j k : ℕ) → i < n → j < n → k < n → flip i j k < n
flip_lt n i j k hi hj hk = ground arith

swap-flip : (a : ℕ → ℕ) (i j k : ℕ) → swap a i j k ≡ a (flip i j k)
swap-flip a i j k = elim (eq_or_ne k i) [
  | inl e ↦ elim (eq_or_ne k j) [
    | inl f ↦ (let g : j ≡ i = sym f ∙ e in rw (f, g, ==_self i) refl)
    | inr nf ↦ rw (ne→== k j nf, e, ==_self i) refl
  ]
  | inr ne ↦ elim (eq_or_ne k j) [
    | inl f ↦ rw (ne→== k i ne, f, ==_self j) refl
    | inr nf ↦ rw (ne→== k j nf, ne→== k i ne) refl
  ]
]

pub Rearranged-swap : (n : ℕ) (a : ℕ → ℕ) (i j : ℕ) → i < n → j < n → Rearranged n a (swap a i j)
Rearranged-swap n a i j hi hj = record {
  from = flip i j;
  back = flip i j;
  from_lt = λ k h. flip_lt n i j k hi hj h;
  back_lt = λ k h. flip_lt n i j k hi hj h;
  from_back = λ k h. flip_twice i j k;
  back_from = λ k h. flip_twice i j k;
  same = λ k h. swap-flip a i j k;
}

-- A rearrangement with one more element at the end.
pub Rearranged-extend :
    (n x : ℕ) (a b : ℕ → ℕ) → Rearranged n a b → Rearranged (suc n) (update a n x) (update b n x)
Rearranged-extend n x a b f = record {
  from = λ k. if ltb k n then f.from k else k;
  back = λ k. if ltb k n then f.back k else k;
  from_lt = λ k h. ground (arith, f.from_lt k);
  back_lt = λ k h. ground (arith, f.back_lt k);
  from_back = λ k h. ground (arith, f.back_lt k, f.from_back k);
  back_from = λ k h. ground (arith, f.from_lt k, f.back_from k);
  same = λ k h. ground (arith, f.from_lt k, f.same k);
}

pub sift_up-Rearranged :
    (fuel : ℕ) (cmp : ℕ → ℕ → Bool) (n i : ℕ) (a : ℕ → ℕ)
    → i < n
    → Rearranged n a (sift_up fuel cmp i a)
unfolding sift_up
sift_up-Rearranged zero cmp n i a h = Rearranged-none n a
sift_up-Rearranged (suc fuel) cmp n i a h = elim (Bool-cases (i == 0)) [
  | inl z ↦ rw (sift_up, z) (Rearranged-none n a)
  | inr nz ↦ elim (Bool-cases (cmp (a i) (a (parent_of i)))) [
    | inl less ↦
        let small : parent_of i < n = omega arith in
        rw (sift_up, nz, less)
          (Rearranged-join n a _ _ (Rearranged-swap n a i (parent_of i) h small)
            (sift_up-Rearranged fuel cmp n (parent_of i) (swap a i (parent_of i)) small))
    | inr more ↦ rw (sift_up, nz, more) (Rearranged-none n a)
  ]
]

smallest_at-lt : (cmp : ℕ → ℕ → Bool) (n i : ℕ) (a : ℕ → ℕ) → i < n → smallest_at cmp n i a < n
unfolding smallest_at
smallest_at-lt cmp n i a h = ground arith

smallest_at-none : (cmp : ℕ → ℕ → Bool) (i : ℕ) (a : ℕ → ℕ) → smallest_at cmp 0 i a ≡ i
unfolding smallest_at
smallest_at-none cmp i a = ground arith

pub sift_down-Rearranged :
    (fuel : ℕ) (cmp : ℕ → ℕ → Bool) (n i : ℕ) (a : ℕ → ℕ)
    → i < n
    → Rearranged n a (sift_down fuel cmp n i a)
unfolding sift_down
sift_down-Rearranged zero cmp n i a h = Rearranged-none n a
sift_down-Rearranged (suc fuel) cmp n i a h =
    let c = smallest_at cmp n i a in
    elim (Bool-cases (c == i)) [
      | inl e ↦ rw (sift_down, e) (Rearranged-none n a)
      | inr ne ↦
          let small = smallest_at-lt cmp n i a h in
          rw (sift_down, ne)
            (Rearranged-join n a _ _ (Rearranged-swap n a i c h small)
              (sift_down-Rearranged fuel cmp n c (swap a i c) small))
    ]
