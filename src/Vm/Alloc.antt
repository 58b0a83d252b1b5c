-- ===== src/Vm/Alloc.antt =====
-- get_next_avail, n_free and n_malloc of my_vm.c.
pub mod Release
pub mod Free
pub mod Runs
pub mod Progress
pub mod Malloc
use cs416_operating_systems.Base.{
  ℕ, zero, suc, ◌+◌, ◌-◌, ◌*◌, ◌/◌, ◌%◌, ◌^◌, Bool, true, false, Option, none, some, leb, ◌==◌,
  if◌then◌else◌,
}
use cs416_operating_systems.Base.Memory.{Bytes, load32, store32, clear_range}
use cs416_operating_systems.Vm.{Vm, success, failure, pgsize, px_entries, u32, va2u, invalid_pa}
use cs416_operating_systems.Vm.Bitmap.{get_bit, set_bit, clear_bit}
use cs416_operating_systems.Vm.Frames.{allocate_phys_page, set_physical_mem}
use cs416_operating_systems.Vm.Lookaside.{tlb_invalidate}
use cs416_operating_systems.Vm.Paging.{pde_addr, pte_addr, map_page}

-- The inner loop: set the bits of `rounds` pages from `vpn` on.
pub set_run : ℕ → ℕ → Bytes → Bytes
set_run zero vpn bitmap = bitmap
set_run (suc rounds) vpn bitmap = set_run rounds (vpn + 1) (set_bit bitmap vpn)

-- The search: `rounds` pages are left from `vpn` on, and the last `free_pages` before it are free.
-- The result is the first page of the run, with `none` for NULL.
pub find_run : ℕ → ℕ → ℕ → ℕ → Bytes → Option ℕ
find_run zero vpn free_pages num_pages bitmap = none
find_run (suc rounds) vpn free_pages num_pages bitmap =
    let free = if get_bit bitmap vpn == 1 then 0 else free_pages + 1 in
    elim (leb num_pages free) [
      | true ↦ some (vpn + 1 - num_pages)
      | false ↦ find_run rounds (vpn + 1) free num_pages bitmap
    ]

-- Page 0 is never handed out, so no base address is NULL.
pub get_next_avail : ℕ → Vm → ℕ × Vm
get_next_avail num_pages s = elim (find_run (s.num_virt_pages - 1) 1 0 num_pages s.virt_bitmap) [
  | none ↦ (0, s)
  | some start_vpn ↦ (
    start_vpn * 2 ^ 12 % u32,
    record s { virt_bitmap = set_run num_pages start_vpn s.virt_bitmap },
  )
]

pub empty_from : ℕ → ℕ → Bytes → Bool
empty_from zero a mem = true
empty_from (suc rounds) a mem = elim (load32 mem a == 0) [
  | true ↦ empty_from rounds (a + 4) mem
  | false ↦ false
]

pub page_table_empty : ℕ → Bytes → Bool
page_table_empty page_table mem = empty_from px_entries page_table mem

-- The end of a round of n_free: a page table with no entry left is given back.
pub release_table : ℕ → ℕ → ℕ → Vm → Vm
release_table pgdir va_u pde s =
    if page_table_empty pde s.phys_mem
    then record s {
      phys_mem = clear_range (store32 s.phys_mem (pde_addr pgdir va_u) 0) pde pgsize;
      phys_bitmap = clear_bit s.phys_bitmap (pde / 2 ^ 12);
    }
    else s

-- One round of the loop of n_free, for the page at `va_u`, with the directory at `pgdir`.
pub free_at : ℕ → ℕ → Vm → Vm
free_at pgdir va_u s =
    let pde = load32 s.phys_mem (pde_addr pgdir va_u) in
    let pte = load32 s.phys_mem (pte_addr pde va_u) in
    let t = record s {
      phys_mem = store32 s.phys_mem (pte_addr pde va_u) 0;
      phys_bitmap = clear_bit s.phys_bitmap (pte / 2 ^ 12);
      virt_bitmap = clear_bit s.virt_bitmap (va_u / 2 ^ 12);
      tlb = tlb_invalidate va_u s.tlb;
    } in
    if pde == 0 then s else if pte == 0 then s else release_table pgdir va_u pde t

pub free_page : ℕ → Vm → Vm
free_page va_u s = free_at s.page_dir va_u s

pub free_loop : ℕ → ℕ → ℕ → Vm → Vm
free_loop zero i start_va s = s
free_loop (suc rounds) i start_va s =
    free_loop rounds (i + 1) start_va (free_page ((start_va + i * pgsize) % u32) s)

-- `(n + PGSIZE - 1) / PGSIZE` in `uint32_t`
abbrev pub pages_for : ℕ → ℕ
pages_for n = (n + pgsize - 1) % u32 / pgsize

-- `size` is the bit pattern of the C `int`.
pub n_free : ℕ → ℕ → Vm → Vm
n_free va size s = free_loop (pages_for size) 0 (va2u va) s

-- The mapping loop of n_malloc, from page `i` on. The result is `base_va`, or 0 for NULL.
pub map_loop : ℕ → ℕ → ℕ → Vm → ℕ × Vm
map_loop zero i base_va s = (base_va, s)
map_loop (suc rounds) i base_va s =
    let curr_va = (va2u base_va + i * pgsize) % u32 in
    let (curr_pa, s') = allocate_phys_page s in
    let (mapped, s'') = map_page s'.page_dir curr_va curr_pa s' in
    elim (curr_pa == invalid_pa) [
      | true ↦ (0, n_free base_va (i * pgsize % u32) s')
      | false ↦ elim mapped [
        | success ↦ map_loop rounds (i + 1) base_va s''
        | failure ↦ (0, n_free base_va (i * pgsize % u32) s'')
      ]
    ]

-- n_malloc once physical memory is set up.
pub malloc_pages : ℕ → Vm → ℕ × Vm
malloc_pages num_pages s =
    let (base_va, s') = get_next_avail num_pages s in
    if num_pages == 0
    then (0, s)
    else if base_va == 0
    then (0, s')
    else map_loop num_pages 0 base_va s'

-- `none` is exit(1) in set_physical_mem; `fresh` is what its malloc returns.
unfoldable pub n_malloc : Option Bytes → ℕ → Vm → Option (ℕ × Vm)
n_malloc fresh num_bytes s =
    let ready = if s.has_mem then some s else set_physical_mem fresh s in
    if num_bytes == 0
    then some (0, s)
    else elim ready [ none ↦ none | some t ↦ some (malloc_pages (pages_for num_bytes) t) ]
