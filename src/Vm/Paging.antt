-- ===== src/Vm/Paging.antt =====
-- translate and map_page of my_vm.c.
pub mod Layout
pub mod Growth
pub mod Tables
pub mod Translation
pub mod Mapping
pub mod Lookup
pub mod Setup
pub mod Claim
pub mod Removal
use cs416_operating_systems.Base.{
  ℕ, ◌+◌, ◌*◌, ◌/◌, ◌%◌, ◌^◌, Option, none, some, ◌==◌, if◌then◌else◌,
}
use cs416_operating_systems.Base.Memory.{load32, store32, clear_range}
use cs416_operating_systems.Vm.{
  Vm, Status, success, failure, pgsize, u64, va2u, pdx, ptx, invalid_pa,
}
use cs416_operating_systems.Vm.Bitmap.{set_bit}
use cs416_operating_systems.Vm.Frames.{allocate_phys_page}
use cs416_operating_systems.Vm.Lookaside.{tlb_add, tlb_check}

-- The `pte_t *` that translate returns: into the TLB, or into a page table in `phys_mem`.
pub data PtePtr : Type 0 where
  slot : ℕ → PtePtr
  word : ℕ → PtePtr

-- `*pte`
abbrev pub deref : Vm → PtePtr → ℕ
deref s (slot i) = (s.tlb.entries i).pte
deref s (word a) = load32 s.phys_mem a

-- `pgdir[PDX(va)]` and `page_table[PTX(va)]`
abbrev pub pde_addr : ℕ → ℕ → ℕ
pde_addr pgdir va_u = pgdir + 4 * pdx va_u

abbrev pub pte_addr : ℕ → ℕ → ℕ
pte_addr pde va_u = pde + 4 * ptx va_u

-- translate after a TLB miss: the two-level walk, and the new TLB entry.
pub walk_tables : ℕ → ℕ → Vm → Option PtePtr × Vm
walk_tables pgdir va s =
    let va_u = va2u va in
    let pde = load32 s.phys_mem (pde_addr pgdir va_u) in
    let pte = load32 s.phys_mem (pte_addr pde va_u) in
    if pde == 0
    then (none, s)
    else if pte == 0
    then (none, s)
    else (some (word (pte_addr pde va_u)), record s { tlb = (tlb_add va pte s.tlb).1 })

abbrev pub counted : Vm → ℕ → Vm
counted s missed = record s {
  tlb_lookups = (s.tlb_lookups + 1) % u64;
  tlb_misses = (s.tlb_misses + missed) % u64;
}

pub translate : ℕ → ℕ → Vm → Option PtePtr × Vm
translate pgdir va s = elim (tlb_check va s.tlb) [
  | some i ↦ (some (slot i), counted s 0)
  | none ↦ walk_tables pgdir va (counted s 1)
]

-- The page table for `va`, which is created if the directory has none; `none` if no frame is left.
pub ensure_table : ℕ → ℕ → Vm → Option ℕ × Vm
ensure_table pgdir va_u s =
    let pde = load32 s.phys_mem (pde_addr pgdir va_u) in
    let (new_table_pa, s') = allocate_phys_page s in
    let cleared = clear_range s'.phys_mem new_table_pa pgsize in
    let linked = store32 cleared (pde_addr pgdir va_u) new_table_pa in
    if pde == 0
    then (if new_table_pa == invalid_pa
        then (none, s')
        else (some new_table_pa, record s' { phys_mem = linked }))
    else (some pde, s)

-- The rest of map_page, with the page table at `pde`.
pub enter_page : ℕ → ℕ → ℕ → Vm → Vm
enter_page pde va pa s =
    let va_u = va2u va in
    let pa_u = va2u pa in
    let t = record s {
      phys_mem = store32 s.phys_mem (pte_addr pde va_u) pa_u;
      phys_bitmap = set_bit s.phys_bitmap (pa_u / 2 ^ 12);
      virt_bitmap = set_bit s.virt_bitmap (va_u / 2 ^ 12);
      tlb = (tlb_add va pa s.tlb).1;
    } in
    counted t 1

pub map_page : ℕ → ℕ → ℕ → Vm → Status × Vm
map_page pgdir va pa s =
    let (table, s') = ensure_table pgdir (va2u va) s in
    elim table [ none ↦ (failure, s') | some pde ↦ (success, enter_page pde va pa s') ]
