-- ===== src/Vm/Data/Roundtrip.antt =====
-- put_data and get_data of my_vm.c together.
use cs416_operating_systems.Base.{
  ℕ, ◌+◌, ◌-◌, ◌/◌, ◌^◌, ◌≤◌, ◌<◌, ◌≡◌, refl, ap, ◌∙◌, inl, inr, arith, if◌then◌else◌, some, true,
  ltb, ltb→lt, Bool-cases, eq_or_ne,
}
use cs416_operating_systems.Base.Memory.{Bytes, IsBytes}
use cs416_operating_systems.Vm.{Vm, Status, success, pgsize, va2u}
use cs416_operating_systems.Vm.Paging.Translation.{IsValid}
use cs416_operating_systems.Vm.Data.{get_data, put_data}
use cs416_operating_systems.Base.Copy.{inside}
use cs416_operating_systems.Vm.Data.Writing.{byte_at, IsMapped}
use cs416_operating_systems.Vm.Data.Put.{Puts, written, stopped, put_data-Puts}
use cs416_operating_systems.Vm.Data.Get.{Gets, got, get_data-Gets}

-- What a read finds where all is mapped.
Gets-mapped :
    (s : Vm) (lo n : ℕ) (dst : Bytes) (r : Bytes × Vm)
    → ((j : ℕ) → j < n → IsMapped s (lo + j))
    → Gets s lo n dst 0 r
    → (q : ℕ) → r.0 q ≡ (if ltb q n then byte_at s (lo + q) else dst q)
Gets-mapped s lo n dst r all (got m b t e small end f same v) q =
    let whole : m ≡ n = elim (eq_or_ne m n) [
      | inl full ↦ full
      | inr ne ↦ elim end [
        | inl full ↦ full
        | inr gap ↦ absurd (all m (omega (arith, small, ne)) gap)
      ]
    ] in
    let byte = f.bytes q in
    let first : inside 0 m q ≡ ltb q n = rw whole (ground arith) in
    let from : q - 0 ≡ q = omega arith in
    ap (λ (x : Bytes × Vm). x.0 q) e ∙ byte ∙ rw (first, from) refl

-- Where the pages of `n` bytes, at least one and less than 2^31 and within the address space, are
-- mapped, put_data of a buffer succeeds, and get_data from the
-- same address then returns the same bytes, whatever pages they lie in; it leaves the rest of the
-- buffer it fills alone.
pub get_data-put_data :
    (s : Vm) (va size : ℕ) (val buf : Bytes)
    → IsValid s
    → IsBytes val
    → 0 < size
    → size < 2 ^ 31
    → va2u va + size ≤ 2 ^ 32
    → ((j : ℕ) → j < size → IsMapped s (va2u va + j))
    → let (status, t) = put_data va (some val) size s in
      (status ≡ success)
      × ((b : Bytes) × (u : Vm) × (get_data va (some buf) size t ≡ (some b, u))
          × ((q : ℕ) → b q ≡ (if ltb q size then val q else buf q)))
get_data-put_data s va size val buf w bytes pos small fits all =
    go _ (put_data-Puts s va size val w bytes pos small fits)
  where
    go :
        (r : Status × Vm)
        → Puts s (va2u va) size val 0 r
        → (r.0 ≡ success)
          × ((b : Bytes) × (u : Vm) × (get_data va (some buf) size r.1 ≡ (some b, u))
              × ((q : ℕ) → b q ≡ (if ltb q size then val q else buf q)))
    go r (stopped m t e early gap f) = absurd (all m early gap)
    go r (written t e f) =
        let there : (j : ℕ) → j < size → IsMapped t (va2u va + j) =
          λ j h. rw (f.translations ((va2u va + j) / pgsize) (omega arith)) (all j h) in
        let (p, eq, gets) = get_data-Gets t va size buf f.valid pos small fits in
        let kept : (q : ℕ) → q < size → byte_at t (va2u va + q) ≡ val q = λ q h.
          let in_range : inside (va2u va) size (va2u va + q) ≡ true = ground arith in
          let place : 0 + (va2u va + q - va2u va) ≡ q = omega arith in
          f.bytes (va2u va + q) (omega arith) (all q h) ∙ rw (in_range, place) refl in
        rw e (
          refl,
          (
            p.0,
            p.1,
            eq,
            λ q. Gets-mapped t (va2u va) size buf p there gets q ∙ elim (Bool-cases (ltb q size)) [
              | inl h ↦ rw h (kept q (ltb→lt q size h))
              | inr h ↦ rw h refl
            ],
          ),
        )
