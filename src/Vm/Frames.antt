-- ===== src/Vm/Frames.antt =====
-- allocate_phys_page and set_physical_mem of my_vm.c.
pub mod Fresh
pub mod Count
use cs416_operating_systems.Base.{
  ℕ, zero, suc, ◌+◌, ◌*◌, ◌/◌, ◌%◌, true, false, Option, none, some, ltb, ◌==◌, if◌then◌else◌,
}
use cs416_operating_systems.Base.Memory.{Bytes, clear_range}
use cs416_operating_systems.Vm.{
  Vm, TlbEntry, max_memsize, memsize, pgsize, u32, invalid_pa, tlb_entries,
}
use cs416_operating_systems.Vm.Bitmap.{get_bit, set_bit}

-- The loop of allocate_phys_page from `pfn` on, with `rounds` frames left.
pub allocate_loop : ℕ → ℕ → Vm → ℕ × Vm
allocate_loop zero pfn s = (invalid_pa, s)
allocate_loop (suc rounds) pfn s = elim (get_bit s.phys_bitmap pfn == 0) [
  | true ↦ (pfn * pgsize % u32, record s { phys_bitmap = set_bit s.phys_bitmap pfn })
  | false ↦ allocate_loop rounds (pfn + 1) s
]

pub allocate_phys_page : Vm → ℕ × Vm
allocate_phys_page s = allocate_loop s.num_phys_pages 0 s

-- `for (i...) tlb_store.entries[i].valid = false`
abbrev pub invalidated : (ℕ → TlbEntry) → ℕ → TlbEntry
invalidated entries i =
    if ltb i tlb_entries then record (entries i) { valid = false } else entries i

-- The globals once the block `fresh` and the bitmaps are allocated.
abbrev pub blank : Bytes → Vm → Vm
blank fresh s = record s {
  has_mem = true;
  phys_mem = fresh;
  num_phys_pages = memsize / pgsize;
  num_virt_pages = max_memsize / pgsize;
  phys_bitmap = λ _. 0;
  virt_bitmap = λ _. 0;
}

-- `fresh` is what malloc(MEMSIZE) returns, NULL or a block of unspecified contents; the callocs
-- of the bitmaps are taken to succeed. The result `none` is exit(1).
unfoldable pub set_physical_mem : Option Bytes → Vm → Option Vm
set_physical_mem none s = if s.has_mem then some s else none
set_physical_mem (some fresh) s =
    if s.has_mem
    then some s
    else (let (page_dir_pa, u) = allocate_phys_page (blank fresh s) in
        if page_dir_pa == invalid_pa
        then none
        else some (record u {
          page_dir = page_dir_pa;
          phys_mem = clear_range u.phys_mem page_dir_pa pgsize;
          tlb = record { count = 0; next_evict = 0; entries = invalidated u.tlb.entries };
        }))
