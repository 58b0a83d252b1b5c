-- ===== src/Vm/Data/Put.antt =====
-- put_data of my_vm.c: which bytes of the virtual address space it changes.
use mathlib.Core.Path.{subst}
use cs416_operating_systems.Base.{
  ℕ, zero, suc, ◌+◌, ◌-◌, ◌/◌, ◌%◌, ◌^◌, ◌≤◌, ◌<◌, ◌≡◌, ◌⊎◌, refl, sym, ap, ◌∙◌, inl, inr, false,
  arith, Bool-cases, ◌==◌, ==_iff, ==→ne, none, some,
}
use cs416_operating_systems.Base.Memory.{Bytes, IsBytes}
use cs416_operating_systems.Vm.{Vm, Status, success, failure, pgsize, va2u, u32, off}
use cs416_operating_systems.Vm.Lookaside.Lookup.{vpn_of}
use cs416_operating_systems.Vm.Paging.{translate, deref, PtePtr}
use cs416_operating_systems.Vm.Paging.Lookup.{located, unmapped, translate-Translates}
use cs416_operating_systems.Vm.Paging.Translation.{translation, IsValid}
use cs416_operating_systems.Base.Copy.{memcpy}
use cs416_operating_systems.Vm.Data.{chunk, put_loop, put_data, not_positive}
use cs416_operating_systems.Vm.Data.Writing.{
  IsMapped, Wrote, Wrote-none, Wrote-join, Wrote-cache, round-Wrote,
}

-- What put_data makes of `n` bytes from position `k` of `src`: all are written; or the page of
-- one of them, which the result names, is not mapped, and only those before it are written.
pub data Puts (s : Vm) (lo n : ℕ) (src : Bytes) (k : ℕ) (r : Status × Vm) : Type 0 where
  written : (t : Vm) → r ≡ (success, t) → Wrote s lo n src k t → Puts s lo n src k r
  stopped :
      (m : ℕ) (t : Vm)
      → r ≡ (failure, t)
      → m < n
      → translation s.phys_mem ((lo + m) / pgsize) ≡ 0
      → Wrote s lo m src k t
      → Puts s lo n src k r

Puts-join :
    (s t : Vm) (lo c next m : ℕ) (src : Bytes) (k : ℕ) (r : Status × Vm)
    → (next ≡ lo + c) ⊎ (m ≡ 0)
    → lo + c + m ≤ 2 ^ 32
    → Wrote s lo c src k t
    → Puts t next m src (k + c) r
    → Puts s lo (c + m) src k r
Puts-join s t lo c next m src k r at fits f (written u e g) =
    written u e (Wrote-join s t u lo c next m src k at (omega arith) f g)
Puts-join s t lo c next m src k r at fits f (stopped i u e small gap g) =
    let start : next ≡ lo + c = omega (arith, at) in
    let page : (next + i) / pgsize ≡ (lo + (c + i)) / pgsize = omega (arith, start) in
    stopped (c + i) u e (omega arith) (rw page at (sym (f.translations _ (omega arith)) ∙ gap))
      (Wrote-join s t u lo c next i src k (inl start) (omega arith) f g)

Puts-sized :
    {s : Vm} {lo m n : ℕ} {src : Bytes} {k : ℕ} {r : Status × Vm}
    → m ≡ n
    → Puts s lo m src k r
    → Puts s lo n src k r
Puts-sized {s} {lo} {m} {n} {src} {k} {r} e p = subst (λ x. Puts s lo x src k r) e p

put_loop_done :
    (fuel n lo : ℕ) (src : Bytes) (k : ℕ) (s : Vm)
    → n ≡ 0
    → put_loop fuel n lo src k s ≡ (success, s)
unfolding put_loop
put_loop_done zero n lo src k s z = rw z refl
put_loop_done (suc fuel) n lo src k s z = rw (put_loop, z) refl

module _ (fuel n lo : ℕ) (src : Bytes) (k : ℕ) (s t : Vm) where
  put_loop_stop :
      (n == 0) ≡ false
      → translate s.page_dir lo s ≡ (none, t)
      → put_loop (suc fuel) n lo src k s ≡ (failure, t)
  unfolding put_loop
  put_loop_stop nz e = rw (put_loop, nz, e, e) refl

  put_loop_round :
      (p : PtePtr) (d : ℕ)
      → (n == 0) ≡ false
      → translate s.page_dir lo s ≡ (some p, t)
      → deref t p + off lo ≡ d
      → put_loop (suc fuel) n lo src k s
        ≡ put_loop fuel
            (n - chunk lo n)
            ((lo + chunk lo n) % u32)
            src
            (k + chunk lo n)
            (record t { phys_mem = memcpy t.phys_mem d src k (chunk lo n) })
  unfolding put_loop
  put_loop_round p d nz e place = rw (put_loop, nz, e, e, ← place) refl

put_loop-Puts :
    (fuel n lo : ℕ) (src : Bytes) (k : ℕ) (s : Vm)
    → IsValid s
    → IsBytes src
    → n ≤ fuel
    → lo < 2 ^ 32
    → lo + n ≤ 2 ^ 32
    → Puts s lo n src k (put_loop fuel n lo src k s)
put_loop-Puts zero n lo src k s w bytes enough low fits =
    let z : n ≡ 0 = omega arith in
    rw (put_loop_done zero n lo src k s z, z) (written s refl (Wrote-none s lo src k w))
put_loop-Puts (suc fuel) n lo src k s w bytes enough low fits = elim (Bool-cases (n == 0)) [
  | inl z ↦
      let e = (==_iff n 0).0 z in
      rw (put_loop_done (suc fuel) n lo src k s e, e) (written s refl (Wrote-none s lo src k w))
  | inr nz ↦ elim (translate-Translates s lo w) [
    | located p t e same here mapped v ↦
        let c = chunk lo n in
        let vpn : vpn_of lo ≡ lo / pgsize = omega arith in
        let mem : t.phys_mem ≡ s.phys_mem = ap (λ (x : Vm). x.phys_mem) same in
        let on_page : IsMapped t lo = rw (mem, ← vpn) mapped in
        let place : deref t p + off lo ≡ translation t.phys_mem (lo / pgsize) + lo % pgsize =
          rw (here, vpn, mem) refl in
        let room : lo % pgsize + c ≤ pgsize = ground arith in
        let short : (c ≤ n) × (0 < c) = (ground arith, ground (arith, ==→ne n 0 nz)) in
        let round = round-Wrote t v lo c low on_page src bytes k room in
        let rest =
          put_loop-Puts fuel (n - c) ((lo + c) % u32) src (k + c) _ round.valid bytes (omega arith)
            (omega arith) (omega arith) in
        let joined =
          Puts-join s _ lo c _ (n - c) src k _ (ground arith) (omega arith)
            (Wrote-cache s t _ lo c src k mem round) rest in
        rw (put_loop_round fuel n lo src k s t p _ nz e place) (Puts-sized (omega arith) joined)
    | unmapped t e same gap v ↦
        let vpn : vpn_of lo ≡ (lo + 0) / pgsize = omega arith in
        let mem : t.phys_mem ≡ s.phys_mem = ap (λ (x : Vm). x.phys_mem) same in
        rw (put_loop_stop fuel n lo src k s t nz e) (
          stopped 0 t refl (omega (arith, ==→ne n 0 nz)) (rw vpn at gap)
            (Wrote-cache s t t lo 0 src k mem (Wrote-none t lo src k v)))
  ]
]

-- put_data of at least one byte, within the address space: all the bytes of the buffer are stored
-- at their virtual addresses and it succeeds; or the page of one of them is not mapped, only the
-- bytes before that one are stored, and it fails. All other mapped bytes and all translations are
-- as before, and the invariant is kept.
pub put_data-Puts :
    (s : Vm) (va size : ℕ) (val : Bytes)
    → IsValid s
    → IsBytes val
    → 0 < size
    → size < 2 ^ 31
    → va2u va + size ≤ 2 ^ 32
    → Puts s (va2u va) size val 0 (put_data va (some val) size s)
unfolding put_data
put_data-Puts s va size val w bytes pos small fits =
    let sign : not_positive size ≡ false = ground arith in
    rw sign (put_loop-Puts size size (va2u va) val 0 s w bytes (omega arith) (omega arith) fits)
