-- ===== src/Vm/Paging/Mapping.antt =====
-- map_page of my_vm.c: it adds one translation, takes no other away, and keeps the invariant.
use mathlib.Core.Path.{subst}
use cs416_operating_systems.Base.{
  ℕ, ◌+◌, ◌*◌, ◌/◌, ◌%◌, ◌^◌, ◌<◌, ◌≡◌, ◌≢◌, refl, sym, ap, ◌∙◌, Option, none, some, arith, ◌==◌,
  ==_self, ne→==, if◌then◌else◌,
}
use cs416_operating_systems.Base.Memory.{store32-IsBytes}
use cs416_operating_systems.Vm.{Vm, Status, success, failure, pdx, ptx, va2u}
use cs416_operating_systems.Vm.Frames.Count.{Spends, Spends-trans, set_bit_again-Spends}
use cs416_operating_systems.Vm.Bitmap.{get_bit, set_bit, get_bit-set_bit, set_bit-IsBytes}
use cs416_operating_systems.Vm.Lookaside.{tlb_add}
use cs416_operating_systems.Vm.Lookaside.Lookup.{Holds, vpn_of, tlb_add-IsTlb, tlb_add-Holds}
use cs416_operating_systems.Vm.Paging.{map_page, enter_page, ensure_table}
use cs416_operating_systems.Vm.Paging.Layout.{page, IsUsed, Layout, IsSpare}
use cs416_operating_systems.Vm.Paging.Growth.{Grows-Layout, entered, enter-Grows}
use cs416_operating_systems.Vm.Paging.Tables.{
  set_bit-Keeps, TableReady, Ensures, ready, no_frame, ensure_table-Ensures,
}
use cs416_operating_systems.Vm.Paging.Translation.{
  translation, IsCurrent, IsValid, enter-translation,
}

-- The state `t` after map_page has entered the frame `pa` for the page of `va`.
pub record Mapped (s : Vm) (va pa : ℕ) (t : Vm) : Type 0 where
  pub valid : IsValid t
  pub translations :
      (v : ℕ)
      → v < 2 ^ 20
      → translation t.phys_mem v ≡ (if v == vpn_of va then pa else translation s.phys_mem v)
  pub virt_bits :
      (v : ℕ) → get_bit t.virt_bitmap v ≡ (if vpn_of va == v then 1 else get_bit s.virt_bitmap v)
  pub spends : Spends s 1 t

pub data Maps (s : Vm) (va pa : ℕ) (r : Status × Vm) : Type 0 where
  entered_page : (t : Vm) → r ≡ (success, t) → Mapped s va pa t → Maps s va pa r
  no_table :
      ((g : ℕ) → g < s.num_phys_pages → get_bit s.phys_bitmap g ≡ 1)
      → r ≡ (failure, s)
      → Maps s va pa r

module _ (s t : Vm) (va pa b : ℕ) (w : IsValid s) (made : TableReady s (pdx (va2u va)) b t)
    (used : IsUsed s.phys_bitmap pa) (spare : IsSpare s.phys_mem pa) (pos : pa ≢ 0)
    (small : pa < 2 ^ 32) (fresh : translation s.phys_mem (vpn_of va) ≡ 0) where
  abbrev d0 : ℕ
  d0 = pdx (va2u va)

  abbrev t0 : ℕ
  t0 = ptx (va2u va)

  abbrev after : Vm
  after = enter_page b va pa t

  pa_u : va2u pa ≡ pa
  pa_u = omega arith

  enter_page-mem : after.phys_mem ≡ entered t.phys_mem d0 t0 pa
  unfolding enter_page
  enter_page-mem = rw (made.place, pa_u)

  enter_page-Layout : Layout after
  unfolding enter_page
  enter_page-Layout =
      let keeps = set_bit-Keeps t.phys_bitmap (va2u pa / 2 ^ 12) made.layout.phys_bytes in
      Grows-Layout t after (page d0 t0) pa made.layout
        (set_bit-IsBytes t.phys_bitmap _ made.layout.phys_bytes) refl refl
        (made.spare pa used spare) (used.0, keeps _ (made.keeps _ used.1)) keeps
        (rw enter_page-mem (enter-Grows t made.layout d0 t0 pa made.live (omega arith) small))

  enter_page-translation :
      (v : ℕ)
      → v < 2 ^ 20
      → translation after.phys_mem v ≡ (if v == vpn_of va then pa else translation s.phys_mem v)
  enter_page-translation v hv =
      let parts : d0 * 1024 + t0 ≡ vpn_of va = omega arith in
      let one = enter-translation t made.layout d0 t0 pa made.live (omega arith) small v hv in
      rw (enter_page-mem, ← made.same_mapped (v / 1024) (v % 1024) (omega arith) (omega arith))
        (rw parts at one)

  -- An entry that agreed with the tables before agrees with them after.
  kept-IsCurrent : (v p : ℕ) → IsCurrent s.phys_mem v p → IsCurrent after.phys_mem v p
  kept-IsCurrent v p (hv, e, nz) =
      let other : v ≢ vpn_of va = λ z. nz (sym e ∙ ap (translation s.phys_mem) z ∙ fresh) in
      (hv, rw (enter_page-translation v hv, ne→== v (vpn_of va) other) e, nz)

  new-IsCurrent : IsCurrent after.phys_mem (vpn_of va) (va2u pa)
  new-IsCurrent =
      let hv : vpn_of va < 2 ^ 20 = omega arith in
      rw pa_u (hv, enter_page-translation _ hv ∙ rw (==_self (vpn_of va)), pos)

  enter_page-tlb : after.tlb ≡ (tlb_add va pa s.tlb).1
  unfolding enter_page
  enter_page-tlb = rw made.same_tlb

  enter_page-virt : after.virt_bitmap ≡ set_bit s.virt_bitmap (vpn_of va)
  unfolding enter_page
  enter_page-virt = rw made.same_virt

  enter_page-virt_pages : after.num_virt_pages ≡ s.num_virt_pages
  unfolding enter_page
  enter_page-virt_pages = made.same_virt_pages

  enter_page-coherent : Holds (IsCurrent after.phys_mem) after.tlb
  enter_page-coherent = rw enter_page-tlb (
      tlb_add-Holds (IsCurrent after.phys_mem) va pa s.tlb new-IsCurrent
        λ i h v. kept-IsCurrent _ _ (w.coherent i h v))

  virt_after :
      (v : ℕ)
      → get_bit after.virt_bitmap v ≡ (if vpn_of va == v then 1 else get_bit s.virt_bitmap v)
  virt_after v = rw enter_page-virt (get_bit-set_bit s.virt_bitmap (vpn_of va) v w.virt_bytes)

  -- The frame of the page is marked before.
  enter_page-Spends : Spends s 1 after
  unfolding enter_page
  enter_page-Spends =
      let marked = made.keeps _ used.1 in
      Spends-trans s t after 1 0 made.spends (
        set_bit_again-Spends t after (va2u pa / 2 ^ 12) made.layout.phys_bytes (rw pa_u marked) refl
          refl)

  enter_page-Mapped : Mapped s va pa after
  enter_page-Mapped = record {
    valid = record {
      layout = enter_page-Layout;
      mem_bytes = rw enter_page-mem (store32-IsBytes _ _ _ (made.bytes w.mem_bytes));
      cache = rw enter_page-tlb (tlb_add-IsTlb va pa s.tlb w.cache);
      coherent = enter_page-coherent;
      virt_bytes = rw enter_page-virt (set_bit-IsBytes s.virt_bitmap _ w.virt_bytes);
      virt_pages = rw enter_page-virt_pages w.virt_pages;
      marked = λ v h nz. ground (arith, virt_after v, enter_page-translation v h, w.marked v h);
    };
    translations = enter_page-translation;
    virt_bits = virt_after;
    spends = enter_page-Spends;
  }

-- What map_page makes of the result of ensure_table.
abbrev enter_result : ℕ → ℕ → Option ℕ × Vm → Status × Vm
enter_result va pa r = elim r.0 [
  | none ↦ (failure, r.1)
  | some pde ↦ (success, enter_page pde va pa r.1)
]

map_page_at_root :
    (s : Vm) (va pa : ℕ)
    → IsValid s
    → IsUsed s.phys_bitmap pa
    → IsSpare s.phys_mem pa
    → pa ≢ 0
    → pa < 2 ^ 32
    → translation s.phys_mem (vpn_of va) ≡ 0
    → Maps s va pa (map_page 0 va pa s)
unfolding map_page
map_page_at_root s va pa w used spare pos small free =
    go (ensure_table 0 (va2u va) s) (ensure_table-Ensures s (va2u va) w.layout)
  where
    go : (r : Option ℕ × Vm) → Ensures s (pdx (va2u va)) r → Maps s va pa (enter_result va pa r)
    go r (ready b t e made) =
        let done = enter_page-Mapped s t va pa b w made used spare pos small free in
        subst (λ x. Maps s va pa (enter_result va pa x)) (sym e) (entered_page _ refl done)
    go r (no_frame all e) =
        subst (λ x. Maps s va pa (enter_result va pa x)) (sym e) (no_table all refl)

-- map_page on the page directory, at a page that is not mapped and with an aligned, marked frame
-- other than 0 that has no other use: it succeeds, enters exactly that translation, sets exactly
-- the page's bit in the virtual bitmap and keeps the invariant; or it fails, with every frame in
-- use, and changes nothing.
pub map_page-Maps :
    (s : Vm) (va pa : ℕ)
    → IsValid s
    → IsUsed s.phys_bitmap pa
    → IsSpare s.phys_mem pa
    → pa ≢ 0
    → pa < 2 ^ 32
    → translation s.phys_mem (vpn_of va) ≡ 0
    → Maps s va pa (map_page s.page_dir va pa s)
map_page-Maps s va pa w used spare pos small free =
    subst (λ d. Maps s va pa (map_page d va pa s)) (sym w.layout.root)
      (map_page_at_root s va pa w used spare pos small free)
