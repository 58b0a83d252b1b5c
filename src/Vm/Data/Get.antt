-- ===== src/Vm/Data/Get.antt =====
-- get_data of my_vm.c: which bytes it puts in the buffer.
use cs416_operating_systems.Base.{
  ℕ, zero, suc, ◌+◌, ◌-◌, ◌/◌, ◌%◌, ◌^◌, ◌≤◌, ◌<◌, ◌≡◌, ◌⊎◌, refl, ap, ◌∙◌, inl, inr, true, false,
  arith, Bool-cases, ◌==◌, ==_iff, ==→ne, ltb, ltb→lt, if◌then◌else◌, none, some,
}
use cs416_operating_systems.Base.Memory.{Bytes}
use cs416_operating_systems.Vm.{Vm, pgsize, va2u, u32, off}
use cs416_operating_systems.Vm.Lookaside.Lookup.{vpn_of}
use cs416_operating_systems.Vm.Paging.{translate, deref, PtePtr}
use cs416_operating_systems.Vm.Paging.Lookup.{
  SameButCache, with_cache, located, unmapped, translate-Translates,
}
use cs416_operating_systems.Vm.Paging.Translation.{translation, IsValid}
use cs416_operating_systems.Base.Copy.{memcpy}
use cs416_operating_systems.Vm.Data.{chunk, get_loop, get_data, read_into, not_positive}
use cs416_operating_systems.Base.Copy.{inside, inside-true, memcpy-inside, memcpy_outside}
use cs416_operating_systems.Vm.Data.Writing.{byte_at, IsMapped}

-- The buffer `b` is `dst` with the `m` bytes from address `lo` on at position `k`.
pub record Read (s : Vm) (lo m : ℕ) (dst : Bytes) (k : ℕ) (b : Bytes) : Type 0 where
  pub present : (j : ℕ) → j < m → IsMapped s (lo + j)
  pub bytes : (q : ℕ) → b q ≡ (if inside k m q then byte_at s (lo + (q - k)) else dst q)

-- What get_data makes of `n` bytes: it reads all of them, or those before the first one whose
-- page is not mapped; only the TLB and the counters change.
pub data Gets (s : Vm) (lo n : ℕ) (dst : Bytes) (k : ℕ) (r : Bytes × Vm) : Type 0 where
  got :
      (m : ℕ) (b : Bytes) (t : Vm)
      → r ≡ (b, t)
      → m ≤ n
      → (m ≡ n) ⊎ (translation s.phys_mem ((lo + m) / pgsize) ≡ 0)
      → Read s lo m dst k b
      → SameButCache s t
      → IsValid t
      → Gets s lo n dst k r

Read-none : (s : Vm) (lo : ℕ) (dst : Bytes) (k : ℕ) → Read s lo 0 dst k dst
Read-none s lo dst k = record { present = λ j h. absurd (omega arith); bytes = λ q. ground arith }

-- One round: a copy from within the page of `lo`.
Read-round :
    (s : Vm) (lo n : ℕ) (dst : Bytes) (k : ℕ)
    → IsMapped s lo
    → lo % pgsize + n ≤ pgsize
    → Read s lo n dst k
        (memcpy dst k s.phys_mem (translation s.phys_mem (lo / pgsize) + lo % pgsize) n)
Read-round s lo n dst k here room = record {
  present = λ j h. let same : (lo + j) / pgsize ≡ lo / pgsize = omega arith in rw same here;
  bytes = λ q.
      let base = translation s.phys_mem (lo / pgsize) in
      elim (Bool-cases (inside k n q)) [
        | inl e ↦
            let (lower, upper) = inside-true k n q e in
            let same : (lo + (q - k)) / pgsize ≡ lo / pgsize = omega arith in
            let place : base + lo % pgsize + (q - k)
                ≡ translation s.phys_mem ((lo + (q - k)) / pgsize) + (lo + (q - k)) % pgsize =
              rw same (omega arith) in
            memcpy-inside dst k s.phys_mem (base + lo % pgsize) n q e ∙ rw e (ap s.phys_mem place)
        | inr e ↦ memcpy_outside dst k s.phys_mem (base + lo % pgsize) n q e ∙ rw e refl
      ];
}

Read-join :
    (s : Vm) (lo c next m : ℕ) (dst mid b : Bytes) (k : ℕ)
    → (next ≡ lo + c) ⊎ (m ≡ 0)
    → Read s lo c dst k mid
    → Read s next m mid (k + c) b
    → Read s lo (c + m) dst k b
Read-join s lo c next m dst mid b k at f g = record {
  present = λ j h. elim (Bool-cases (ltb j c)) [
    | inl e ↦ f.present j (ltb→lt j c e)
    | inr e ↦
        let there : next + (j - c) ≡ lo + j = ground arith in
        rw there at (g.present (j - c) (ground arith))
  ];
  bytes = λ q.
      let place : inside (k + c) m q ≡ true → next + (q - (k + c)) ≡ lo + (q - k) =
        λ e. ground arith in
      ground (arith, place, f.bytes q, g.bytes q);
}

same_join : (s t u : Vm) → SameButCache s t → SameButCache t u → SameButCache s u
same_join s t u f g = g ∙ ap (λ (x : Vm). with_cache x u.tlb u.tlb_lookups u.tlb_misses) f

Read-cache :
    (s t : Vm) (lo m : ℕ) (dst : Bytes) (k : ℕ) (b : Bytes)
    → t.phys_mem ≡ s.phys_mem
    → Read t lo m dst k b
    → Read s lo m dst k b
Read-cache s t lo m dst k b e f = record {
  present = λ j h. rw e at (f.present j h);
  bytes = λ q. rw e at (f.bytes q);
}

Gets-join :
    (s t : Vm) (lo c next m n : ℕ) (dst mid : Bytes) (k : ℕ) (r : Bytes × Vm)
    → (next ≡ lo + c) ⊎ (m ≡ 0)
    → c + m ≡ n
    → t.phys_mem ≡ s.phys_mem
    → SameButCache s t
    → Read s lo c dst k mid
    → Gets t next m mid (k + c) r
    → Gets s lo n dst k r
Gets-join s t lo c next m n dst mid k r at total mem same f (got i b u e small end g su valid) =
    got (c + i) b u e (omega arith)
      (elim end [
        | inl all ↦ inl (omega arith)
        | inr gap ↦ elim at [
          | inl start ↦
              let page : (next + i) / pgsize ≡ (lo + (c + i)) / pgsize = omega arith in
              inr (rw (mem, page) at gap)
          | inr none_left ↦ inl (omega arith)
        ]
      ])
      (Read-join s lo c next i dst mid b k
        (elim at [ inl start ↦ inl start | inr z ↦ inr (omega arith) ]) f
        (Read-cache s t next i mid (k + c) b mem g))
      (same_join s t u same su) valid

get_loop_done :
    (fuel n lo : ℕ) (dst : Bytes) (k : ℕ) (s : Vm) → n ≡ 0 → get_loop fuel n lo dst k s ≡ (dst, s)
unfolding get_loop
get_loop_done zero n lo dst k s z = refl
get_loop_done (suc fuel) n lo dst k s z = rw (get_loop, z) refl

module _ (fuel n lo : ℕ) (dst : Bytes) (k : ℕ) (s t : Vm) where
  get_loop_stop :
      (n == 0) ≡ false
      → translate s.page_dir lo s ≡ (none, t)
      → get_loop (suc fuel) n lo dst k s ≡ (dst, t)
  unfolding get_loop
  get_loop_stop nz e = rw (get_loop, nz, e, e) refl

  get_loop_round :
      (p : PtePtr) (d : ℕ)
      → (n == 0) ≡ false
      → translate s.page_dir lo s ≡ (some p, t)
      → deref t p + off lo ≡ d
      → get_loop (suc fuel) n lo dst k s
        ≡ get_loop fuel
            (n - chunk lo n)
            ((lo + chunk lo n) % u32)
            (memcpy dst k t.phys_mem d (chunk lo n))
            (k + chunk lo n)
            t
  unfolding get_loop
  get_loop_round p d nz e place = rw (get_loop, nz, e, e, ← place) refl

get_loop-Gets :
    (fuel n lo : ℕ) (dst : Bytes) (k : ℕ) (s : Vm)
    → IsValid s
    → n ≤ fuel
    → lo < 2 ^ 32
    → lo + n ≤ 2 ^ 32
    → Gets s lo n dst k (get_loop fuel n lo dst k s)
get_loop-Gets zero n lo dst k s w enough low fits =
    let z : n ≡ 0 = omega arith in
    rw (get_loop_done zero n lo dst k s z, z)
      (got 0 dst s refl (omega arith) (inl refl) (Read-none s lo dst k) refl w)
get_loop-Gets (suc fuel) n lo dst k s w enough low fits = elim (Bool-cases (n == 0)) [
  | inl zero_left ↦
      let z = (==_iff n 0).0 zero_left in
      rw (get_loop_done (suc fuel) n lo dst k s z, z)
        (got 0 dst s refl (omega arith) (inl refl) (Read-none s lo dst k) refl w)
  | inr nz ↦ elim (translate-Translates s lo w) [
    | located p t e same here mapped v ↦
        let c = chunk lo n in
        let vpn : vpn_of lo ≡ lo / pgsize = omega arith in
        let mem : t.phys_mem ≡ s.phys_mem = ap (λ (x : Vm). x.phys_mem) same in
        let on_page : IsMapped t lo = rw (mem, ← vpn) mapped in
        let place : deref t p + off lo ≡ translation t.phys_mem (lo / pgsize) + lo % pgsize =
          rw (here, vpn, mem) refl in
        let room : lo % pgsize + c ≤ pgsize = ground arith in
        let short : (c ≤ n) × (0 < c) = (ground arith, ground (arith, ==→ne n 0 nz)) in
        let rest =
          get_loop-Gets fuel (n - c) ((lo + c) % u32) _ (k + c) t v (omega arith) (omega arith)
            (omega arith) in
        rw (get_loop_round fuel n lo dst k s t p _ nz e place) (
          Gets-join s t lo c _ (n - c) n dst _ k _ (ground arith) (omega arith) mem same
            (Read-cache s t lo c dst k _ mem (Read-round t lo c dst k on_page room)) rest)
    | unmapped t e same gap v ↦
        let vpn : vpn_of lo ≡ (lo + 0) / pgsize = omega arith in
        rw (get_loop_stop fuel n lo dst k s t nz e)
          (got 0 dst t refl (omega arith) (inr (rw vpn at gap)) (Read-none s lo dst k) same v)
  ]
]

-- get_data of at least one byte, within the address space: it fills the buffer with the bytes at
-- the virtual addresses, as far as their pages are mapped, and leaves the rest of the buffer as it
-- was; it stops early only at a page that is not mapped. Only the TLB and the counters change, and
-- the invariant is kept.
pub get_data-Gets :
    (s : Vm) (va size : ℕ) (val : Bytes)
    → IsValid s
    → 0 < size
    → size < 2 ^ 31
    → va2u va + size ≤ 2 ^ 32
    → (r : Bytes × Vm) × (get_data va (some val) size s ≡ (some r.0, r.1))
      × Gets s (va2u va) size val 0 r
unfolding get_data read_into
get_data-Gets s va size val w pos small fits =
    let sign : not_positive size ≡ false = ground arith in
    (
      get_loop size size (va2u va) val 0 s,
      rw sign refl,
      get_loop-Gets size size (va2u va) val 0 s w (omega arith) (omega arith) fits,
    )
