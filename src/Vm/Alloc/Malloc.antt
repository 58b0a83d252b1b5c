-- ===== src/Vm/Alloc/Malloc.antt =====
-- n_malloc of my_vm.c: the pages of a block, or what is left behind when frames run out.
use mathlib.Core.Path.{subst}
use cs416_operating_systems.Base.{
  ℕ, ◌+◌, ◌-◌, ◌*◌, ◌/◌, ◌^◌, ◌≤◌, ◌<◌, ◌≡◌, ◌≢◌, refl, sym, ◌∙◌, inl, inr, true, false, Option,
  some, arith, Bool-cases, ◌==◌, ==_iff, ==→ne, ne→==, if◌then◌else◌,
}
use cs416_operating_systems.Base.Memory.{Bytes}
use cs416_operating_systems.Vm.{Vm, pgsize}
use cs416_operating_systems.Vm.Frames.Count.{free_frames}
use cs416_operating_systems.Vm.Bitmap.{get_bit}
use cs416_operating_systems.Vm.Paging.Translation.{translation, IsValid}
use cs416_operating_systems.Vm.Alloc.{get_next_avail, map_loop, malloc_pages, n_malloc, pages_for}
use cs416_operating_systems.Vm.Alloc.Free.{within}
use cs416_operating_systems.Vm.Alloc.Runs.{
  IsFree, IsBlocked, reserving, Reserves, reserved, no_space, get_next_avail-Reserves,
  set_run-IsBytes,
}
use cs416_operating_systems.Vm.Alloc.Progress.{
  IsReserved, Progress, MapsAll, all_mapped, out_of_frames, map_loop-MapsAll,
}

-- What n_malloc makes of a request for `n` pages.
pub data Mallocs (s : Vm) (n : ℕ) (r : ℕ × Vm) : Type 0 where
  allocated :
      (v : ℕ) (t : Vm)
      → r ≡ (v * pgsize, t)
      → 0 < v
      → v + n ≤ s.num_virt_pages
      → IsFree s.virt_bitmap v n
      → IsValid t
      → ((u : ℕ) → v ≤ u → u < v + n → translation t.phys_mem u ≢ 0)
      → ((u : ℕ)
          → u < 2 ^ 20
          → within v n u ≡ false
          → translation t.phys_mem u ≡ translation s.phys_mem u)
      → ((u : ℕ)
          → u < 2 ^ 20
          → get_bit t.virt_bitmap u ≡ (if within v n u then 1 else get_bit s.virt_bitmap u))
      → Mallocs s n r
  out_of_memory :
      (v j : ℕ) (t : Vm)
      → r ≡ (0, t)
      → j < n
      → free_frames s ≤ 2 * j + 1
      → v + n ≤ s.num_virt_pages
      → IsFree s.virt_bitmap v n
      → IsValid t
      → ((u : ℕ) → u < 2 ^ 20 → translation t.phys_mem u ≡ translation s.phys_mem u)
      → ((u : ℕ)
          → u < 2 ^ 20
          → get_bit t.virt_bitmap u
            ≡ (if within (v + j) (n - j) u then 1 else get_bit s.virt_bitmap u))
      → Mallocs s n r
  no_pages :
      r ≡ (0, s)
      → ((u : ℕ) → 0 < u → u + n ≤ s.num_virt_pages → IsBlocked s.virt_bitmap u n)
      → Mallocs s n r

module _ (s : Vm) (w : IsValid s) (v n : ℕ) (room : v + n ≤ s.num_virt_pages)
    (free : IsFree s.virt_bitmap v n)
    (bits : (u : ℕ)
      → get_bit (reserving s v n).virt_bitmap u
        ≡ (if within v n u then 1 else get_bit s.virt_bitmap u)) where
  -- A free page is not mapped.
  free_unmapped : (u : ℕ) → v ≤ u → u < v + n → translation s.phys_mem u ≡ 0
  free_unmapped u a b = elim (Bool-cases (translation s.phys_mem u == 0)) [
    | inl z ↦ (==_iff _ 0).0 z
    | inr nz ↦
        absurd (omega (arith, free u a b, w.marked u (omega (arith, w.virt_pages)) (==→ne _ 0 nz)))
  ]

  reserving-IsValid : IsValid (reserving s v n)
  reserving-IsValid = record {
    layout = record {
      phys_bytes = w.layout.phys_bytes;
      frames = w.layout.frames;
      root = w.layout.root;
      used = w.layout.used;
      apart = w.layout.apart;
    };
    mem_bytes = w.mem_bytes;
    cache = w.cache;
    coherent = w.coherent;
    virt_bytes = set_run-IsBytes n v s.virt_bitmap w.virt_bytes;
    virt_pages = w.virt_pages;
    marked = λ u h nz. ground (arith, bits u, w.marked u h nz);
  }

  reserving-IsReserved : IsReserved (reserving s v n) v n
  reserving-IsReserved = record {
    valid = reserving-IsValid;
    fits = omega (arith, w.virt_pages);
    clear = free_unmapped;
    set = λ u a b. ground (arith, bits u);
  }

  start : Progress (reserving s v n) v 0 (reserving s v n)
  start = record {
    valid = reserving-IsValid;
    done = λ u a b. absurd (omega arith);
    rest = λ u h out. refl;
    bits = λ u h. refl;
  }

  outcome : 0 < v → (r : ℕ × Vm) → MapsAll (reserving s v n) v n r → Mallocs s n r
  outcome pos r (all_mapped t e p) =
      allocated v t e pos room free p.valid p.done p.rest (λ u h. p.bits u h ∙ bits u)
  outcome pos r (out_of_frames j t lt e few un) =
      out_of_memory v j t e lt few room free un.valid un.same
        (λ u h. ground (arith, un.bits u h, bits u, free u))

-- What malloc_pages makes of the result of get_next_avail.
abbrev after_reservation : ℕ → Vm → ℕ × Vm → ℕ × Vm
after_reservation n s r =
    if n == 0 then (0, s) else if r.0 == 0 then (0, r.1) else map_loop n 0 r.0 r.1

malloc_pages-Mallocs :
    (s : Vm) (n : ℕ) → IsValid s → 0 < n → 0 < s.num_virt_pages → Mallocs s n (malloc_pages n s)
unfolding malloc_pages
malloc_pages-Mallocs s n w pos some_pages =
    go (get_next_avail n s) (get_next_avail-Reserves s n pos some_pages w.virt_pages w.virt_bytes)
  where
    nz : (n == 0) ≡ false
    nz = ne→== n 0 (omega arith)

    go : (r : ℕ × Vm) → Reserves s n r → Mallocs s n (after_reservation n s r)
    go r (no_space e blocked) =
        subst (λ x. Mallocs s n (after_reservation n s x)) (sym e)
          (rw (nz, after_reservation) (no_pages refl blocked))
    go r (reserved v e first room free lowest bits) =
        let based : (v * 2 ^ 12 == 0) ≡ false = ne→== _ 0 (omega arith) in
        let res = reserving-IsReserved s w v n room free bits in
        let run =
          map_loop-MapsAll (reserving s v n) v n res n 0 (reserving s v n) (omega arith)
            (start s w v n room free bits) (record { same_pages = refl; bound = omega arith }) in
        subst (λ x. Mallocs s n (after_reservation n s x)) (sym e)
          (rw (nz, based, after_reservation) (outcome s w v n room free bits first _ run))

-- n_malloc of at least one byte, and so few that the rounding up does not overflow, in a system
-- that is set up. It ends with one of three results. A run of free pages that holds the bytes is
-- mapped and marked, all other pages are as before, and the address of the run is returned. Or
-- NULL is returned and nothing has changed, as each run of so many pages has a page in use. Or NULL
-- is returned as frames ran out after `j` pages of a run, so that at most `2 j + 1` frames, one for
-- each of these pages and its table and one more, were free: every translation is as before, but the
-- bits of the `n - j` other pages of the run stay set in the virtual bitmap, although they are
-- not mapped. The invariant is kept in all cases.
pub n_malloc-Mallocs :
    (fresh : Option Bytes) (num_bytes : ℕ) (s : Vm)
    → IsValid s
    → s.has_mem ≡ true
    → 0 < s.num_virt_pages
    → 0 < num_bytes
    → num_bytes ≤ 2 ^ 32 - pgsize
    → (r : ℕ × Vm) × (n_malloc fresh num_bytes s ≡ some r)
      × Mallocs s ((num_bytes + (pgsize - 1)) / pgsize) r
unfolding n_malloc
n_malloc-Mallocs fresh num_bytes s w ready pages pos fits =
    let n : pages_for num_bytes ≡ (num_bytes + (pgsize - 1)) / pgsize = omega arith in
    let nz : (num_bytes == 0) ≡ false = ne→== _ 0 (omega arith) in
    (
      malloc_pages (pages_for num_bytes) s,
      rw (nz, ready),
      subst (λ k. Mallocs s k (malloc_pages (pages_for num_bytes) s)) n
          (malloc_pages-Mallocs s (pages_for num_bytes) w (omega arith) pages),
    )
