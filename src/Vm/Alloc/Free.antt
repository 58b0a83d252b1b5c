-- ===== src/Vm/Alloc/Free.antt =====
-- n_free of my_vm.c: it unmaps the pages of the range and nothing else, and keeps the invariant.
use mathlib.Core.Path.{subst}
use cs416_operating_systems.Base.{
  ℕ, zero, suc, ◌+◌, ◌*◌, ◌/◌, ◌%◌, ◌^◌, ◌≤◌, ◌<◌, ◌≡◌, ◌≢◌, sym, ◌∙◌, inl, inr, Bool, false, not,
  ◌&&◌, arith, eq_or_ne, Bool-cases, ◌==◌, ==_iff, ==→ne, ==_self, ne→==, ltb, leb, if◌then◌else◌,
}
use cs416_operating_systems.Base.Memory.{Bytes}
use cs416_operating_systems.Vm.{Vm, pgsize, u32, pdx, ptx, va2u}
use cs416_operating_systems.Vm.Bitmap.{get_bit}
use cs416_operating_systems.Vm.Alloc.{
  release_table, free_at, free_page, free_loop, n_free, pages_for,
}
use cs416_operating_systems.Vm.Alloc.Release.{
  Freed, Tidied, cleared, cleared-IsValid, cleared-translation, cleared-virt, directory_kept,
  release_table-Tidied,
}
use cs416_operating_systems.Vm.Paging.Layout.{entry, table, IsLive}
use cs416_operating_systems.Vm.Paging.Tables.{mapped}
use cs416_operating_systems.Vm.Paging.Translation.{translation, IsValid}

-- A page that is not mapped stays so, and nothing changes.
Freed-unmapped : (s : Vm) (v : ℕ) → IsValid s → translation s.phys_mem v ≡ 0 → Freed s v s
Freed-unmapped s v w z = record {
  valid = w;
  translations =
      λ u h. elim (eq_or_ne u v) [ inl e ↦ rw (e, ==_self v) z | inr ne ↦ rw (ne→== u v ne) ];
  virt_bits = λ u. rw z (ground arith);
}

translation_indices :
    (mem : Bytes) (va_u : ℕ)
    → va_u < 2 ^ 32
    → translation mem (va_u / 2 ^ 12) ≡ mapped mem (pdx va_u) (ptx va_u)
translation_indices mem va_u h =
    let d : va_u / 2 ^ 12 / 1024 ≡ pdx va_u = omega arith in
    let t : va_u / 2 ^ 12 % 1024 ≡ ptx va_u = omega arith in rw (d, t)

-- A page that is mapped is unmapped, and its table given back if it is empty then.
module _ (s : Vm) (w : IsValid s) (va_u : ℕ) (hv : va_u < 2 ^ 32) (al : va_u % pgsize ≡ 0)
    (live0 : IsLive s.phys_mem 0 (table (pdx va_u)))
    (nz : entry s.phys_mem (entry s.phys_mem 0 (pdx va_u)) (ptx va_u) ≢ 0) where
  abbrev c : Vm
  c = cleared s w va_u hv al live0 nz

  abbrev freed_state : Vm
  freed_state = release_table 0 va_u (entry s.phys_mem 0 (pdx va_u)) c

  freed-Tidied : Tidied c freed_state
  freed-Tidied =
      let kept = directory_kept s w va_u hv al live0 nz in
      rw kept at (
        release_table-Tidied c va_u (cleared-IsValid s w va_u hv al live0 nz)
          (live0.0, λ z. live0.1 (sym kept ∙ z)))

  was_mapped : (translation s.phys_mem (va_u / 2 ^ 12) == 0) ≡ false
  was_mapped = rw (translation_indices s.phys_mem va_u hv, ne→== _ 0 live0.1) (ne→== _ 0 nz)

  Freed-after : Freed s (va_u / 2 ^ 12) freed_state
  Freed-after = record {
    valid = freed-Tidied.valid;
    translations =
        λ u h. freed-Tidied.translations u h ∙ cleared-translation s w va_u hv al live0 nz u h;
    virt_bits = λ u.
        rw (freed-Tidied.virt_same, was_mapped)
          (ground (arith, cleared-virt s w va_u hv al live0 nz u));
  }

module _ (s : Vm) (va_u : ℕ) (w : IsValid s) (hv : va_u < 2 ^ 32) (al : va_u % pgsize ≡ 0) where
  free_at_root : Freed s (va_u / 2 ^ 12) (free_at 0 va_u s)
  unfolding free_at
  free_at_root = elim (Bool-cases (entry s.phys_mem 0 (pdx va_u) == 0)) [
    | inl z ↦ rw z (Freed-unmapped s _ w (translation_indices s.phys_mem va_u hv ∙ rw z))
    | inr nz ↦
        elim (Bool-cases (entry s.phys_mem (entry s.phys_mem 0 (pdx va_u)) (ptx va_u) == 0)) [
          | inl z ↦
              rw (nz, z)
                (Freed-unmapped s _ w
                  (translation_indices s.phys_mem va_u hv ∙ rw nz ((==_iff _ 0).0 z)))
          | inr np ↦
              rw (nz, np) (Freed-after s w va_u hv al (omega arith, ==→ne _ 0 nz) (==→ne _ 0 np))
        ]
  ]

  -- A round of n_free at an aligned address: afterwards the page is not mapped, its bit in the
  -- virtual bitmap is cleared if it was mapped, and every other page has the translation and the
  -- bit that it had; the invariant is kept.
  pub free_page-Freed : Freed s (va_u / 2 ^ 12) (free_page va_u s)
  unfolding free_page
  free_page-Freed =
      subst (λ d. Freed s (va_u / 2 ^ 12) (free_at d va_u s)) (sym w.layout.root) free_at_root

abbrev pub within : ℕ → ℕ → ℕ → Bool
within lo n u = leb lo u && ltb u (lo + n)

-- The state `t` after n_free of the `n` pages from `lo` on.
pub record FreedRange (s : Vm) (lo n : ℕ) (t : Vm) : Type 0 where
  pub valid : IsValid t
  pub translations :
      (u : ℕ)
      → u < 2 ^ 20
      → translation t.phys_mem u ≡ (if within lo n u then 0 else translation s.phys_mem u)
  pub virt_bits :
      (u : ℕ)
      → u < 2 ^ 20
      → get_bit t.virt_bitmap u ≡ (
          if within lo n u && not (translation s.phys_mem u == 0)
          then 0
          else get_bit s.virt_bitmap u)

FreedRange-none : (s : Vm) (lo : ℕ) → IsValid s → FreedRange s lo 0 s
FreedRange-none s lo w = record {
  valid = w;
  translations = λ u h. ground arith;
  virt_bits = λ u h. ground arith;
}

-- A round, and then the rest of the range.
FreedRange-step :
    (s t r : Vm) (lo n : ℕ) → Freed s lo t → FreedRange t (lo + 1) n r → FreedRange s lo (suc n) r
FreedRange-step s t r lo n f g = record {
  valid = g.valid;
  translations = λ u h. ground (arith, f.translations u h, g.translations u h);
  virt_bits = λ u h. ground (arith, f.translations u h, f.virt_bits u, g.virt_bits u h);
}

free_loop-FreedRange :
    (n i start : ℕ) (s : Vm)
    → IsValid s
    → start % pgsize ≡ 0
    → start + (i + n) * pgsize ≤ 2 ^ 32
    → FreedRange s (start / pgsize + i) n (free_loop n i start s)
unfolding free_loop
free_loop-FreedRange zero i start s w al room = FreedRange-none s _ w
free_loop-FreedRange (suc n) i start s w al room =
    let va_u = (start + i * pgsize) % u32 in
    let at : va_u / pgsize ≡ start / pgsize + i = omega arith in
    let next : start / pgsize + (i + 1) ≡ start / pgsize + i + 1 = omega arith in
    let f : Freed s (start / pgsize + i) (free_page va_u s) =
      rw at at (free_page-Freed s va_u w (omega arith) (omega arith)) in
    let g = free_loop-FreedRange n (i + 1) start (free_page va_u s) f.valid al (omega arith) in
    FreedRange-step s _ _ _ n f (rw next at g)

-- n_free of a range that starts at a page and does not pass the end of the address space: its
-- pages are not mapped afterwards, and the bits in the virtual bitmap of those that were mapped
-- are cleared; all other pages keep their translations and bits, and the invariant is kept.
pub n_free-FreedRange :
    (s : Vm) (va size : ℕ)
    → IsValid s
    → va2u va % pgsize ≡ 0
    → va2u va + pages_for size * pgsize ≤ 2 ^ 32
    → FreedRange s (va2u va / pgsize) (pages_for size) (n_free va size s)
unfolding n_free
n_free-FreedRange s va size w al room =
    let start : va2u va / pgsize + 0 ≡ va2u va / pgsize = omega arith in
    rw start at (free_loop-FreedRange (pages_for size) 0 (va2u va) s w al (omega arith))
