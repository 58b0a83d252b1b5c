-- ===== src/Vm/Data/Writing.antt =====
-- The bytes of the virtual address space of my_vm.c, and a copy into one page of it.
use cs416_operating_systems.Base.{
  ℕ, ◌+◌, ◌-◌, ◌/◌, ◌%◌, ◌^◌, ◌≤◌, ◌<◌, ◌≡◌, ◌≢◌, ◌⊎◌, refl, ◌∙◌, inl, inr, true, arith, Bool-cases,
  if◌then◌else◌,
}
use cs416_operating_systems.Base.Memory.{Bytes, IsBytes}
use cs416_operating_systems.Vm.{Vm, pgsize}
use cs416_operating_systems.Vm.Paging.Translation.{translation, IsValid}
use cs416_operating_systems.Base.Copy.{
  inside, inside-true, inside-false, memcpy-inside, memcpy_outside,
}
use cs416_operating_systems.Vm.Data.Pages.{copied, copied-IsValid, same_translation, pages_meet}

-- The byte at virtual address `x`, where its page is mapped.
abbrev pub byte_at : Vm → ℕ → ℕ
byte_at s x = s.phys_mem (translation s.phys_mem (x / pgsize) + x % pgsize)

abbrev pub IsMapped : Vm → ℕ → Type 0
IsMapped s x = translation s.phys_mem (x / pgsize) ≢ 0

-- In `t` the addresses from `lo` on hold `m` bytes of `src` from position `k` on, and otherwise
-- the address space is as in `s`.
pub record Wrote (s : Vm) (lo m : ℕ) (src : Bytes) (k : ℕ) (t : Vm) : Type 0 where
  pub valid : IsValid t
  pub present : (x : ℕ) → inside lo m x ≡ true → IsMapped s x
  pub translations : (u : ℕ) → u < 2 ^ 20 → translation t.phys_mem u ≡ translation s.phys_mem u
  pub bytes :
      (x : ℕ)
      → x < 2 ^ 32
      → IsMapped s x
      → byte_at t x ≡ (if inside lo m x then src (k + (x - lo)) else byte_at s x)

pub Wrote-none : (s : Vm) (lo : ℕ) (src : Bytes) (k : ℕ) → IsValid s → Wrote s lo 0 src k s
Wrote-none s lo src k w = record {
  valid = w;
  present = λ x e. absurd (ground arith);
  translations = λ u h. refl;
  bytes = λ x h m. ground arith;
}

-- One round: a copy within the page of `lo`.
module _ (s : Vm) (w : IsValid s) (lo n : ℕ) (hlo : lo < 2 ^ 32) (here : IsMapped s lo)
    (src : Bytes) (bytes : IsBytes src) (k : ℕ) (room : lo % pgsize + n ≤ pgsize) where
  abbrev pub after : Vm
  after = copied s w (lo / pgsize) (omega arith) here src bytes (lo % pgsize) k n room

  round_byte :
      (x : ℕ)
      → x < 2 ^ 32
      → IsMapped s x
      → after.phys_mem (translation s.phys_mem (x / pgsize) + x % pgsize)
        ≡ (if inside lo n x then src (k + (x - lo)) else byte_at s x)
  round_byte x h m =
      let base = translation s.phys_mem (lo / pgsize) in
      let d = base + lo % pgsize in
      let q = translation s.phys_mem (x / pgsize) + x % pgsize in
      elim (Bool-cases (inside lo n x)) [
        | inl e ↦
            let (lower, upper) = inside-true lo n x e in
            let same : x / pgsize ≡ lo / pgsize = omega arith in
            let shift : q ≡ d + (x - lo) = rw same (omega arith) in
            let within : inside d n q ≡ true = ground arith in
            let place : q - d ≡ x - lo = omega arith in
            memcpy-inside s.phys_mem d src k n q within ∙ rw (e, place) refl
        | inr e ↦ rw e (elim (Bool-cases (inside d n q)) [
          | inl f ↦
              let (lower, upper) = inside-true d n q f in
              let (page, place) =
                pages_meet s w (lo / pgsize) (x / pgsize) (lo % pgsize + (q - d)) (x % pgsize)
                  (omega arith) (omega arith) here m (omega arith) (omega arith) (omega arith) in
              elim (inside-false lo n x e) [
                | inl low ↦ absurd (omega (arith, page, place))
                | inr high ↦ absurd (omega (arith, page, place))
              ]
          | inr f ↦ memcpy_outside s.phys_mem d src k n q f
        ])
      ]

  pub round-Wrote : Wrote s lo n src k after
  round-Wrote = record {
    valid = copied-IsValid s w (lo / pgsize) (omega arith) here src bytes (lo % pgsize) k n room;
    present = λ x e.
        let (lower, upper) = inside-true lo n x e in
        let same : x / pgsize ≡ lo / pgsize = omega arith in rw same here;
    translations =
        same_translation s w (lo / pgsize) (omega arith) here src bytes (lo % pgsize) k n room;
    bytes = λ x h m.
        rw
          (same_translation s w (lo / pgsize) (omega arith) here src bytes (lo % pgsize) k n room
            (x / pgsize) (omega arith))
          (round_byte x h m);
  }

-- A round, and then the rest.
pub Wrote-join :
    (s t u : Vm) (lo c next m : ℕ) (src : Bytes) (k : ℕ)
    → (next ≡ lo + c) ⊎ (m ≡ 0)
    → lo + c + m ≤ 2 ^ 32
    → Wrote s lo c src k t
    → Wrote t next m src (k + c) u
    → Wrote s lo (c + m) src k u
Wrote-join s t u lo c next m src k at fits f g = record {
  valid = g.valid;
  present = λ x e. elim (Bool-cases (inside lo c x)) [
    | inl here ↦ f.present x here
    | inr later ↦
        let there : inside next m x ≡ true = ground arith in
        let (lower, upper) = inside-true lo (c + m) x e in
        rw (f.translations (x / pgsize) (omega arith)) at (g.present x there)
  ];
  translations = λ v h. g.translations v h ∙ f.translations v h;
  bytes = λ x h mapped.
      let still : IsMapped t x = rw (f.translations (x / pgsize) (omega arith)) mapped in
      let place : inside next m x ≡ true → k + c + (x - next) ≡ k + (x - lo) = λ e. ground arith in
      ground (arith, place, f.bytes x h mapped, g.bytes x h still);
}

-- What was written does not depend on the TLB.
pub Wrote-cache :
    (s t u : Vm) (lo m : ℕ) (src : Bytes) (k : ℕ)
    → t.phys_mem ≡ s.phys_mem
    → Wrote t lo m src k u
    → Wrote s lo m src k u
Wrote-cache s t u lo m src k e f = record {
  valid = f.valid;
  present = λ x e'. rw e at (f.present x e');
  translations = λ v h. rw e at (f.translations v h);
  bytes = λ x h mapped. let still : IsMapped t x = rw e mapped in rw e at (f.bytes x h still);
}
