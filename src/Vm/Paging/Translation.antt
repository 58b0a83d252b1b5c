-- ===== src/Vm/Paging/Translation.antt =====
-- The translation that the page tables of my_vm.c define, and the invariant of the system.
use cs416_operating_systems.Base.{
  ℕ, ◌+◌, ◌*◌, ◌/◌, ◌%◌, ◌^◌, ◌≤◌, ◌<◌, ◌≡◌, ◌≢◌, ◌⊎◌, inl, inr, arith, eq_or_ne, Bool-cases, ◌==◌,
  ==→ne, ==_self, ne→==, if◌then◌else◌,
}
use cs416_operating_systems.Base.Memory.{Bytes, IsBytes}
use cs416_operating_systems.Vm.{Vm, px_entries, pdx, ptx, va2u}
use cs416_operating_systems.Vm.Bitmap.{get_bit}
use cs416_operating_systems.Vm.Lookaside.Lookup.{IsTlb, Holds, vpn_of}
use cs416_operating_systems.Vm.Paging.Layout.{entry, table, IsLive, Layout}
use cs416_operating_systems.Vm.Paging.Growth.{entered, enter_directory, enter_self, enter_other}
use cs416_operating_systems.Vm.Paging.Tables.{mapped}

-- The translation of page `v`, with 0 for a page that is not mapped.
abbrev pub translation : Bytes → ℕ → ℕ
translation mem v = mapped mem (v / 1024) (v % 1024)

-- What an entry of the TLB has to say of page `v`.
abbrev pub IsCurrent : Bytes → ℕ → ℕ → Type 0
IsCurrent mem v p = (v < 2 ^ 20) × (translation mem v ≡ p) × (p ≢ 0)

-- The page tables are laid out well, the TLB agrees with them, and a mapped page is marked in the
-- virtual bitmap.
pub record IsValid (s : Vm) : Type 0 where
  pub layout : Layout s
  pub mem_bytes : IsBytes s.phys_mem
  pub cache : IsTlb s.tlb
  pub coherent : Holds (IsCurrent s.phys_mem) s.tlb
  pub virt_bytes : IsBytes s.virt_bitmap
  pub virt_pages : s.num_virt_pages ≤ 2 ^ 20
  pub marked : (v : ℕ) → v < 2 ^ 20 → translation s.phys_mem v ≢ 0 → get_bit s.virt_bitmap v ≡ 1

module _ (s : Vm) (lay : Layout s) (d0 t0 n : ℕ) (live0 : IsLive s.phys_mem 0 (table d0))
    (ht0 : t0 < px_entries) (small : n < 2 ^ 32) where
  enter-mapped_other :
      (d t : ℕ)
      → d < px_entries
      → t < px_entries
      → (d ≢ d0) ⊎ (t ≢ t0)
      → mapped (entered s.phys_mem d0 t0 n) d t ≡ mapped s.phys_mem d t
  enter-mapped_other d t hd ht ne = elim (Bool-cases (entry s.phys_mem 0 d == 0)) [
    | inl z ↦ rw (enter_directory s lay d0 t0 n live0 ht0 small d hd, z)
    | inr nz ↦
        let live : IsLive s.phys_mem 0 (table d) = (hd, ==→ne _ 0 nz) in
        rw (enter_directory s lay d0 t0 n live0 ht0 small d hd, nz)
          (enter_other s lay d0 t0 n live0 ht0 small d t live ht ne)
  ]

  pub enter-mapped_self : mapped (entered s.phys_mem d0 t0 n) d0 t0 ≡ n
  enter-mapped_self =
      rw (enter_directory s lay d0 t0 n live0 ht0 small d0 live0.0, ne→== _ 0 live0.1)
        (enter_self s lay d0 t0 n live0 ht0 small)

  -- One entry of one table changes one translation.
  pub enter-translation :
      (v : ℕ)
      → v < 2 ^ 20
      → translation (entered s.phys_mem d0 t0 n) v
        ≡ (if v == d0 * 1024 + t0 then n else translation s.phys_mem v)
  enter-translation v hv = elim (eq_or_ne v (d0 * 1024 + t0)) [
    | inl e ↦
        let ed : v / 1024 ≡ d0 = omega arith in
        let et : v % 1024 ≡ t0 = omega arith in
        rw (ed, et, e, ==_self (d0 * 1024 + t0)) enter-mapped_self
    | inr ne ↦ rw (ne→== _ _ ne) (
        enter-mapped_other (v / 1024) (v % 1024) (omega arith) (omega arith)
          (elim (eq_or_ne (v / 1024) d0) [
            | inl ed ↦ inr (λ et. ne (omega (arith, ed, et)))
            | inr nd ↦ inl nd
          ]))
  ]

-- The indices of an address are the parts of its page number.
pub pdx_vpn : (va : ℕ) → pdx (va2u va) ≡ vpn_of va / 1024
pdx_vpn va = omega arith

pub ptx_vpn : (va : ℕ) → ptx (va2u va) ≡ vpn_of va % 1024
ptx_vpn va = omega arith
