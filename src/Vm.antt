-- ===== src/Vm.antt =====
-- proj3-code/code/my_vm.h and my_vm.c: the simulated 32-bit virtual memory system. This file has
-- the configuration, the types and the global state; the children have the functions.
--
-- Pointers that are simulated addresses are numbers, with NULL as 0. The mutexes serialise the
-- accesses of one call at a time; the model runs the calls in sequence, so it leaves them out.
pub mod Bitmap
pub mod Frames
pub mod Lookaside
pub mod Paging
pub mod Alloc
pub mod Data
mod Tests
use cs416_operating_systems.Base.{ℕ, ◌-◌, ◌/◌, ◌%◌, ◌^◌, Bool}
use cs416_operating_systems.Base.Memory.{Bytes}

-- MAX_MEMSIZE, MEMSIZE, PGSIZE
abbrev pub max_memsize : ℕ
max_memsize = 2 ^ 32

abbrev pub memsize : ℕ
memsize = 2 ^ 30

abbrev pub pgsize : ℕ
pgsize = 4096

-- PXMASK + 1 entries in a directory or a table
abbrev pub px_entries : ℕ
px_entries = 1024

-- The arithmetic of `uint32_t` and of `unsigned long long` is modulo these.
abbrev pub u32 : ℕ
u32 = 2 ^ 32

abbrev pub u64 : ℕ
u64 = 2 ^ 64

-- VA2U
abbrev pub va2u : ℕ → ℕ
va2u va = va % u32

-- `(va >> PDXSHIFT) & PXMASK`, `(va >> PTXSHIFT) & PXMASK` and `va & OFFMASK`: the masks are 10 and
-- 12 ones, so they keep a remainder.
abbrev pub pdx : ℕ → ℕ
pdx va = va / 2 ^ 22 % 2 ^ 10

abbrev pub ptx : ℕ → ℕ
ptx va = va / 2 ^ 12 % 2 ^ 10

abbrev pub off : ℕ → ℕ
off va = va % 2 ^ 12

-- INVALID_PA
abbrev pub invalid_pa : ℕ
invalid_pa = 2 ^ 32 - 1

abbrev pub tlb_entries : ℕ
tlb_entries = 512

-- The results 0 and -1.
pub data Status : Type 0 where
  success failure : Status

pub record TlbEntry : Type 0 where
  pub vpn : ℕ
  pub pfn : ℕ
  pub pte : ℕ
  pub valid : Bool

pub record Tlb : Type 0 where
  pub count : ℕ
  pub next_evict : ℕ
  pub entries : ℕ → TlbEntry

-- `has_mem` is `phys_mem != NULL`; `page_dir` is the offset of that pointer from `phys_mem`.
pub record Vm : Type 0 where
  pub has_mem : Bool
  pub phys_mem : Bytes
  pub page_dir : ℕ
  pub num_phys_pages : ℕ
  pub num_virt_pages : ℕ
  pub phys_bitmap : Bytes
  pub virt_bitmap : Bytes
  pub tlb : Tlb
  pub tlb_lookups : ℕ
  pub tlb_misses : ℕ
