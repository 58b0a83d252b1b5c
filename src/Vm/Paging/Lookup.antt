-- ===== src/Vm/Paging/Lookup.antt =====
-- translate of my_vm.c agrees with the page tables, whether or not the TLB answers.
use mathlib.Core.Path.{subst}
use cs416_operating_systems.Base.{
  ℕ, ◌+◌, ◌*◌, ◌≡◌, ◌≢◌, refl, sym, ap, ◌∙◌, inl, inr, false, Option, none, some, arith, Bool-cases,
  Option-cases, ◌==◌, ==_iff, ==→ne,
}
use cs416_operating_systems.Base.Memory.{Bytes, load32-lt}
use cs416_operating_systems.Vm.{Vm, Tlb, pdx, ptx, va2u}
use cs416_operating_systems.Vm.Lookaside.{tlb_add, tlb_check}
use cs416_operating_systems.Vm.Lookaside.Lookup.{
  IsTlb, Holds, vpn_of, tlb_add-IsTlb, tlb_add-Holds, tlb_check-IsHit,
}
use cs416_operating_systems.Vm.Paging.{PtePtr, slot, word, deref, translate, walk_tables, counted}
use cs416_operating_systems.Vm.Paging.Layout.{entry}
use cs416_operating_systems.Vm.Paging.Tables.{mapped}
use cs416_operating_systems.Vm.Paging.Translation.{
  translation, IsCurrent, IsValid, pdx_vpn, ptx_vpn,
}

-- The state with another TLB and other counters.
abbrev pub with_cache : Vm → Tlb → ℕ → ℕ → Vm
with_cache s tlb lookups misses = record s { tlb = tlb; tlb_lookups = lookups; tlb_misses = misses }

pub with_cache-IsValid :
    (s : Vm) (tlb : Tlb) (lookups misses : ℕ)
    → IsValid s
    → IsTlb tlb
    → Holds (IsCurrent s.phys_mem) tlb
    → IsValid (with_cache s tlb lookups misses)
with_cache-IsValid s tlb lookups misses w cache coherent = record {
  layout = record {
    phys_bytes = w.layout.phys_bytes;
    frames = w.layout.frames;
    root = w.layout.root;
    used = w.layout.used;
    apart = w.layout.apart;
  };
  cache = cache;
  mem_bytes = w.mem_bytes;
  coherent = coherent;
  virt_bytes = w.virt_bytes;
  virt_pages = w.virt_pages;
  marked = w.marked;
}

-- Only the TLB and the counters differ.
abbrev pub SameButCache : Vm → Vm → Type 0
SameButCache s t = t ≡ with_cache s t.tlb t.tlb_lookups t.tlb_misses

-- What translate returns: a pointer to the entry of a mapped page, or NULL for one that is not
-- mapped; only the TLB and the counters change.
pub data Translates (s : Vm) (va : ℕ) (r : Option PtePtr × Vm) : Type 0 where
  located :
      (p : PtePtr) (t : Vm)
      → r ≡ (some p, t)
      → SameButCache s t
      → deref t p ≡ translation s.phys_mem (vpn_of va)
      → translation s.phys_mem (vpn_of va) ≢ 0
      → IsValid t
      → Translates s va r
  unmapped :
      (t : Vm)
      → r ≡ (none, t)
      → SameButCache s t
      → translation s.phys_mem (vpn_of va) ≡ 0
      → IsValid t
      → Translates s va r

mapped_vpn :
    (mem : Bytes) (va : ℕ)
    → mapped mem (pdx (va2u va)) (ptx (va2u va)) ≡ translation mem (vpn_of va)
mapped_vpn mem va = rw (pdx_vpn va, ptx_vpn va)

counted-IsValid : (s : Vm) (missed : ℕ) → IsValid s → IsValid (counted s missed)
counted-IsValid s missed w = with_cache-IsValid s s.tlb _ _ w w.cache w.coherent

module _ (s : Vm) (va : ℕ) (w : IsValid s) where
  abbrev pde : ℕ
  pde = entry s.phys_mem 0 (pdx (va2u va))

  abbrev pte : ℕ
  pte = entry s.phys_mem pde (ptx (va2u va))

  walk_found : (pde == 0) ≡ false → (pte == 0) ≡ false → translation s.phys_mem (vpn_of va) ≡ pte
  walk_found nz np = sym (mapped_vpn s.phys_mem va) ∙ rw nz

  -- `VA2U(pte)` is the entry itself.
  pte_u : pte ≡ va2u pte
  pte_u = omega (arith, load32-lt s.phys_mem (pde + 4 * ptx (va2u va)) w.mem_bytes)

  walk-IsValid :
      translation s.phys_mem (vpn_of va) ≡ pte
      → pte ≢ 0
      → IsValid
          (with_cache s (tlb_add va pte s.tlb).1 (counted s 1).tlb_lookups (counted s 1).tlb_misses)
  walk-IsValid e nz = with_cache-IsValid s _ _ _ w (tlb_add-IsTlb va pte s.tlb w.cache) (
      tlb_add-Holds (IsCurrent s.phys_mem) va pte s.tlb
        (omega arith, e ∙ pte_u, λ z. nz (pte_u ∙ z)) w.coherent)

  -- The walk of the tables after a miss.
  walk-Translates : Translates s va (walk_tables 0 va (counted s 1))
  unfolding walk_tables
  walk-Translates = elim (Bool-cases (pde == 0)) [
    | inl z ↦ rw z (
        unmapped (counted s 1) refl refl (sym (mapped_vpn s.phys_mem va) ∙ rw z)
          (counted-IsValid s 1 w))
    | inr nz ↦ elim (Bool-cases (pte == 0)) [
      | inl z ↦
          rw (nz, z)
            (unmapped (counted s 1) refl refl
              (sym (mapped_vpn s.phys_mem va) ∙ rw nz ((==_iff _ 0).0 z)) (counted-IsValid s 1 w))
      | inr np ↦
          rw (nz, np)
            (located (word _) _ refl refl (sym (walk_found nz np))
              (λ z. ==→ne _ 0 np (sym (walk_found nz np) ∙ z))
              (walk-IsValid (walk_found nz np) (==→ne _ 0 np)))
    ]
  ]

translate_at_root : (s : Vm) (va : ℕ) → IsValid s → Translates s va (translate 0 va s)
unfolding translate
translate_at_root s va w = elim (Option-cases (tlb_check va s.tlb)) [
  | inl e ↦ rw (e, translate) (walk-Translates s va w)
  | inr (i, e) ↦
      let (hi, valid, same) = tlb_check-IsHit va i s.tlb e in
      let (hv, current, nz) = w.coherent i hi valid in
      rw (e, translate)
        (located (slot i) (counted s 0) refl refl (sym current ∙ ap (translation s.phys_mem) same)
          (λ z. nz (sym current ∙ ap (translation s.phys_mem) same ∙ z)) (counted-IsValid s 0 w))
]

-- translate on the page directory: for a mapped page it returns a pointer to a word that holds the
-- translation of the page, from the TLB or from the tables; for any other page it returns NULL.
-- In both cases it changes only the TLB and the counters, and keeps the invariant.
pub translate-Translates :
    (s : Vm) (va : ℕ) → IsValid s → Translates s va (translate s.page_dir va s)
translate-Translates s va w =
    subst (λ d. Translates s va (translate d va s)) (sym w.layout.root) (translate_at_root s va w)
