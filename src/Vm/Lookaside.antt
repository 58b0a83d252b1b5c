-- ===== src/Vm/Lookaside.antt =====
-- TLB_add, TLB_check and TLB_invalidate of my_vm.c, over the TLB alone.
pub mod Lookup
pub mod Updates
use cs416_operating_systems.Base.{
  ℕ, zero, suc, ◌+◌, ◌/◌, ◌%◌, ◌^◌, Bool, true, false, ◌&&◌, Option, none, some, ltb, ◌==◌,
  if◌then◌else◌,
}
use cs416_operating_systems.Base.Memory.{update}
use cs416_operating_systems.Vm.{
  Tlb, TlbEntry, Status, success, failure, va2u, invalid_pa, tlb_entries,
}

-- `entries[i].valid && entries[i].vpn == vpn`
abbrev pub matches : (ℕ → TlbEntry) → ℕ → ℕ → Bool
matches entries vpn i = (entries i).valid && (entries i).vpn == vpn

-- The search that the three functions make: the first of `rounds` entries from `i` that matches.
pub tlb_search : ℕ → ℕ → (ℕ → TlbEntry) → ℕ → Option ℕ
tlb_search zero i entries vpn = none
tlb_search (suc rounds) i entries vpn = elim (matches entries vpn i) [
  | true ↦ some i
  | false ↦ tlb_search rounds (i + 1) entries vpn
]

-- The slot for a new entry, and the TLB with its counters moved on.
pub claim_slot : Tlb → ℕ × Tlb
claim_slot t =
    if ltb t.count tlb_entries
    then (t.count, record t { count = t.count + 1 })
    else (t.next_evict, record t { next_evict = (t.next_evict + 1) % tlb_entries })

-- The write of TLB_add, once it is known whether the page has an entry.
pub tlb_put : Option ℕ → ℕ → ℕ → Tlb → Tlb
tlb_put (some i) vpn pa_u t =
    let e = record (t.entries i) { pte = pa_u; pfn = pa_u / 2 ^ 12 } in
    record t { entries = update t.entries i e }
tlb_put none vpn pa_u t =
    let (idx, t') = claim_slot t in
    let e : TlbEntry = record { vpn = vpn; pte = pa_u; pfn = pa_u / 2 ^ 12; valid = true } in
    record t' { entries = update t'.entries idx e }

pub tlb_add : ℕ → ℕ → Tlb → Status × Tlb
tlb_add va pa t =
    let va_u = va2u va in
    let pa_u = va2u pa in
    let vpn = va_u / 2 ^ 12 in
    if va == 0
    then (failure, t)
    else if pa_u == invalid_pa
    then (failure, t)
    else (success, tlb_put (tlb_search tlb_entries 0 t.entries vpn) vpn pa_u t)

-- `&entries[i].pte` is modelled by the slot number.
pub tlb_check : ℕ → Tlb → Option ℕ
tlb_check va t =
    let va_u = va2u va in
    if va_u == invalid_pa then none else tlb_search tlb_entries 0 t.entries (va_u / 2 ^ 12)

abbrev pub drop_entry : Option ℕ → Tlb → Tlb
drop_entry none t = t
drop_entry (some i) t = record t {
  entries = update t.entries i (record (t.entries i) { valid = false });
}

pub tlb_invalidate : ℕ → Tlb → Tlb
tlb_invalidate va t =
    let va_u = va2u va in
    if va_u == invalid_pa
    then t
    else drop_entry (tlb_search tlb_entries 0 t.entries (va_u / 2 ^ 12)) t
