-- ===== src/Vm/Paging/Setup.antt =====
-- set_physical_mem of my_vm.c establishes the invariant of the virtual memory system.
use cs416_operating_systems.Base.{
  ℕ, ◌/◌, ◌^◌, ◌<◌, ◌≡◌, ◌≢◌, refl, sym, ◌∙◌, inl, inr, true, false, some, arith, Bool-cases, ◌==◌,
  lt→ltb,
}
use cs416_operating_systems.Base.Memory.{Bytes, IsBytes, clear_range, clear_range-IsBytes}
use cs416_operating_systems.Vm.{Vm, max_memsize, memsize, pgsize, px_entries, tlb_entries}
use cs416_operating_systems.Vm.Bitmap.{
  get_bit, set_bit, get_bit_zero, get_bit-set_bit, set_bit-IsBytes,
}
use cs416_operating_systems.Vm.Frames.{invalidated, blank, allocate_phys_page, set_physical_mem}
use cs416_operating_systems.Vm.Frames.Fresh.{Allocates, taken, full, allocate_phys_page-Allocates}
use cs416_operating_systems.Vm.Lookaside.Lookup.{IsTlb}
use cs416_operating_systems.Vm.Paging.Layout.{
  entry, Use, directory, table, page, IsLive, Layout, entry-clear_inside,
}
use cs416_operating_systems.Vm.Paging.Translation.{translation, IsValid}

-- With no frame in use the first frame is taken.
allocate_first :
    (s : Vm)
    → 0 < s.num_phys_pages
    → s.phys_bitmap ≡ (λ _. 0)
    → allocate_phys_page s ≡ (0, record s { phys_bitmap = set_bit s.phys_bitmap 0 })
allocate_first s pos e =
    go (allocate_phys_page s) (allocate_phys_page-Allocates s (rw e λ a. omega arith))
  where
    free : get_bit s.phys_bitmap 0 ≡ 0
    free = rw e (get_bit_zero 0)

    go :
        (r : ℕ × Vm)
        → Allocates s.num_phys_pages 0 s r
        → r ≡ (0, record s { phys_bitmap = set_bit s.phys_bitmap 0 })
    go r (taken f lo hi unused before q) = elim (Bool-cases (f == 0)) [
      | inl z ↦ let fz : f ≡ 0 = ground arith in q ∙ rw fz
      | inr nz ↦ absurd (omega (arith, free, before 0 (omega arith) (ground arith)))
    ]
    go r (full all q) = absurd (omega (arith, free, all 0 (omega arith) (omega arith)))

-- The state after set_physical_mem, when malloc returned the block `fresh`.
abbrev pub initial : Bytes → Vm → Vm
initial fresh s = record s {
  has_mem = true;
  phys_mem = clear_range fresh 0 pgsize;
  page_dir = 0;
  num_phys_pages = memsize / pgsize;
  num_virt_pages = max_memsize / pgsize;
  phys_bitmap = set_bit (λ _. 0) 0;
  virt_bitmap = λ _. 0;
  tlb = record { count = 0; next_evict = 0; entries = invalidated s.tlb.entries };
}

set_physical_mem-initial :
    (fresh : Bytes) (s : Vm)
    → s.has_mem ≡ false
    → set_physical_mem (some fresh) s ≡ some (initial fresh s)
unfolding set_physical_mem
set_physical_mem-initial fresh s e = rw (e, allocate_first (blank fresh s) (omega arith) refl)

module _ (fresh : Bytes) (s : Vm) (bytes : IsBytes fresh) where
  empty_directory : (d : ℕ) → d < px_entries → entry (clear_range fresh 0 pgsize) 0 d ≡ 0
  empty_directory d h = entry-clear_inside fresh 0 d h

  only_directory : (u : Use) → IsLive (clear_range fresh 0 pgsize) 0 u → u ≡ directory
  only_directory directory live = refl
  only_directory (table d) live = absurd (live.1 (empty_directory d live.0))
  only_directory (page d t) live = absurd (live.2 (empty_directory d live.0))

  initial-Layout : Layout (initial fresh s)
  initial-Layout = record {
    phys_bytes = set_bit-IsBytes (λ _. 0) 0 (λ a. omega arith);
    frames = omega arith;
    root = refl;
    used = λ u live.
        rw (only_directory u live) (refl, get_bit-set_bit (λ _. 0) 0 0 (λ a. omega arith));
    apart = λ u v lu lv e. only_directory u lu ∙ sym (only_directory v lv);
  }

  starts_invalid : (i : ℕ) → i < tlb_entries → ((initial fresh s).tlb.entries i).valid ≢ true
  starts_invalid i h v = cc (rw (lt→ltb i tlb_entries h) at v)

  initial-IsTlb : IsTlb (initial fresh s).tlb
  initial-IsTlb = record {
    count_le = omega arith;
    evict_lt = omega arith;
    filled = λ i h v. absurd (starts_invalid i h v);
    distinct = λ i j h k v w e. absurd (starts_invalid i h v);
  }

  pub no_translation : (v : ℕ) → v < 2 ^ 20 → translation (initial fresh s).phys_mem v ≡ 0
  no_translation v h = rw (empty_directory (v / 1024) (omega arith))

  pub initial-IsValid : IsValid (initial fresh s)
  initial-IsValid = record {
    layout = initial-Layout;
    mem_bytes = clear_range-IsBytes fresh 0 pgsize bytes;
    cache = initial-IsTlb;
    coherent = λ i h v. absurd (starts_invalid i h v);
    virt_bytes = λ a. omega arith;
    virt_pages = omega arith;
    marked = λ v h nz. absurd (nz (no_translation v h));
  }

-- Set up from nothing, with a block that malloc returned: set_physical_mem succeeds, the invariant
-- holds, no page is mapped, and every page is free in the virtual bitmap.
pub set_physical_mem-IsValid :
    (fresh : Bytes) (s : Vm)
    → IsBytes fresh
    → s.has_mem ≡ false
    → (t : Vm) × (set_physical_mem (some fresh) s ≡ some t)
      × IsValid t
      × ((v : ℕ) → v < 2 ^ 20 → translation t.phys_mem v ≡ 0)
      × ((v : ℕ) → get_bit t.virt_bitmap v ≡ 0)
set_physical_mem-IsValid fresh s bytes e = (
  initial fresh s,
  set_physical_mem-initial fresh s e,
  initial-IsValid fresh s bytes,
  no_translation fresh s bytes,
  get_bit_zero,
)
