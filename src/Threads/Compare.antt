-- ===== src/Threads/Compare.antt =====
-- The comparators of thread-worker.c for the heaps, psjf_cmp and cfs_cmp.
use cs416_operating_systems.Base.{
  ℕ, ◌+◌, ◌-◌, ◌%◌, ◌^◌, ◌<◌, ◌≡◌, refl, sym, ◌∙◌, ne→==, Bool, true, false, arith, ◌==◌, leb, ltb,
  if◌then◌else◌,
}
use cs416_operating_systems.Threads.Heap.Swaps.{IsOrder}

-- The fields of TCB that the comparators read: the `long`s `elapsed_quanta` and `vruntime` by their
-- bit patterns.
pub record Tcb : Type 0 where
  pub id : ℕ
  pub elapsed_quanta : ℕ
  pub vruntime : ℕ

-- Whether `x - y`, converted to `int`, is negative.
pub negative_int : ℕ → ℕ → Bool
negative_int x y = leb (2 ^ 31) ((x + (2 ^ 32 - y % 2 ^ 32)) % 2 ^ 32)

pub psjf_cmp : (ℕ → Tcb) → ℕ → ℕ → Bool
psjf_cmp tcbs a b =
    if (tcbs a).elapsed_quanta == (tcbs b).elapsed_quanta
    then negative_int (tcbs a).id (tcbs b).id
    else negative_int (tcbs a).elapsed_quanta (tcbs b).elapsed_quanta

pub cfs_cmp : (ℕ → Tcb) → ℕ → ℕ → Bool
cfs_cmp tcbs a b =
    if (tcbs a).vruntime == (tcbs b).vruntime
    then negative_int (tcbs a).id (tcbs b).id
    else negative_int (tcbs a).vruntime (tcbs b).vruntime

negative_int-eq-ltb : (x y : ℕ) → x < 2 ^ 31 → y < 2 ^ 31 → negative_int x y ≡ ltb x y
unfolding negative_int
negative_int-eq-ltb x y hx hy = ground arith

-- Order by a key, and by a second one where the first is the same.
abbrev pub lex : (ℕ → ℕ) → (ℕ → ℕ) → ℕ → ℕ → Bool
lex key tie a b = if key a == key b then ltb (tie a) (tie b) else ltb (key a) (key b)

lex-IsOrder : (key tie : ℕ → ℕ) → IsOrder (lex key tie)
lex-IsOrder key tie = record { asym = λ x y h. ground arith; trans = λ x y z h k. ground arith }

IsOrder-same : (f g : ℕ → ℕ → Bool) → ((x y : ℕ) → f x y ≡ g x y) → IsOrder g → IsOrder f
IsOrder-same f g e ord = record {
  asym = λ x y h. e y x ∙ ord.asym x y (sym (e x y) ∙ h);
  trans = λ x y z h k. e x z ∙ ord.trans x y z (sym (e x y) ∙ h) (sym (e y z) ∙ k);
}

module _ (tcbs : ℕ → Tcb) (ids : (a : ℕ) → (tcbs a).id < 2 ^ 31) where
  -- While every thread identity is below 2^31 and no thread has used 2^31 quanta, psjf_cmp puts the thread with fewer quanta first, and of
  -- two with as many the one with the lower id; this is an order as the heap needs it.
  pub psjf_cmp-IsOrder :
      ((a : ℕ) → (tcbs a).elapsed_quanta < 2 ^ 31)
      → ((a b : ℕ) → psjf_cmp tcbs a b ≡ lex (λ c. (tcbs c).elapsed_quanta) (λ c. (tcbs c).id) a b)
        × IsOrder (psjf_cmp tcbs)
  unfolding psjf_cmp
  psjf_cmp-IsOrder small = (
    by_fields,
    IsOrder-same _ _ by_fields (lex-IsOrder (λ c. (tcbs c).elapsed_quanta) (λ c. (tcbs c).id)),
  )
    where
      by_fields :
          (a b : ℕ) → psjf_cmp tcbs a b ≡ lex (λ c. (tcbs c).elapsed_quanta) (λ c. (tcbs c).id) a b
      by_fields a b =
          rw (negative_int-eq-ltb _ _ (ids a) (ids b), negative_int-eq-ltb _ _ (small a) (small b))
            refl

  -- While every thread identity is below 2^31 and no virtual runtime reaches 2^31 microseconds, cfs_cmp puts the thread with the smaller one
  -- first, and of two with the same the one with the lower id; this is an order as the heap needs
  -- it.
  pub cfs_cmp-IsOrder :
      ((a : ℕ) → (tcbs a).vruntime < 2 ^ 31)
      → ((a b : ℕ) → cfs_cmp tcbs a b ≡ lex (λ c. (tcbs c).vruntime) (λ c. (tcbs c).id) a b)
        × IsOrder (cfs_cmp tcbs)
  unfolding cfs_cmp
  cfs_cmp-IsOrder small = (
    by_fields,
    IsOrder-same _ _ by_fields (lex-IsOrder (λ c. (tcbs c).vruntime) (λ c. (tcbs c).id)),
  )
    where
      by_fields : (a b : ℕ) → cfs_cmp tcbs a b ≡ lex (λ c. (tcbs c).vruntime) (λ c. (tcbs c).id) a b
      by_fields a b =
          rw (negative_int-eq-ltb _ _ (ids a) (ids b), negative_int-eq-ltb _ _ (small a) (small b))
            refl

-- Where one virtual runtime is ahead of another by more than 2^31 and less than 2^32 microseconds,
-- cfs_cmp puts the thread that has run longer first.
pub cfs_cmp_reversed :
    (tcbs : ℕ → Tcb) (a b d : ℕ)
    → (tcbs b).vruntime ≡ (tcbs a).vruntime + d
    → 2 ^ 31 < d
    → d < 2 ^ 32
    → (cfs_cmp tcbs a b ≡ false) × (cfs_cmp tcbs b a ≡ true)
unfolding cfs_cmp negative_int
cfs_cmp_reversed tcbs a b d e far near =
    let ab : ((tcbs a).vruntime == (tcbs b).vruntime) ≡ false = ne→== _ _ (λ q. omega arith) in
    let ba : ((tcbs b).vruntime == (tcbs a).vruntime) ≡ false = ne→== _ _ (λ q. omega arith) in
    (rw ab (ground arith), rw ba (ground arith))
