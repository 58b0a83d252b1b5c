-- ===== src/Vm/Alloc/Release.antt =====
-- The steps of a round of n_free of my_vm.c: an entry is cleared, and an empty table is given back.
use cs416_operating_systems.Base.{
  ℕ, zero, suc, ◌+◌, ◌*◌, ◌/◌, ◌%◌, ◌^◌, ◌<◌, ◌≡◌, ◌≢◌, refl, sym, ◌∙◌, inl, inr, true, not, ◌&&◌,
  arith, Bool-cases, ◌==◌, ==_iff, ne→==, if◌then◌else◌,
}
use cs416_operating_systems.Base.Memory.{Bytes, load32, store32-IsBytes, clear_range-IsBytes}
use cs416_operating_systems.Vm.{Vm, pgsize, px_entries, pdx, ptx}
use cs416_operating_systems.Vm.Bitmap.{get_bit, clear_bit, get_bit-clear_bit, clear_bit-IsBytes}
use cs416_operating_systems.Vm.Lookaside.Lookup.{Holds, vpn_of}
use cs416_operating_systems.Vm.Lookaside.Updates.{tlb_invalidate-IsTlb, tlb_invalidate-Holds}
use cs416_operating_systems.Vm.Lookaside.{tlb_invalidate}
use cs416_operating_systems.Vm.Alloc.{empty_from, page_table_empty, release_table}
use cs416_operating_systems.Vm.Paging.Layout.{entry, table, page, IsLive, Layout}
use cs416_operating_systems.Vm.Paging.Growth.{entered, enter_directory}
use cs416_operating_systems.Vm.Paging.Removal.{
  Shrinks-Layout, page-Shrinks, unlinked, table-Shrinks, unlink-mapped,
}
use cs416_operating_systems.Vm.Paging.Translation.{
  translation, IsCurrent, IsValid, enter-translation,
}

empty_from_sound :
    (n a i : ℕ) (mem : Bytes) → empty_from n a mem ≡ true → i < n → load32 mem (a + 4 * i) ≡ 0
unfolding empty_from
empty_from_sound zero a i mem h lt = absurd (omega arith)
empty_from_sound (suc n) a zero mem h lt = elim (Bool-cases (load32 mem a == 0)) [
  | inl z ↦ let e : a + 4 * 0 ≡ a = omega arith in rw e ((==_iff _ 0).0 z)
  | inr nz ↦ cc (rw (nz, empty_from) at h)
]
empty_from_sound (suc n) a (suc i) mem h lt = elim (Bool-cases (load32 mem a == 0)) [
  | inl z ↦
      let e : a + 4 * suc i ≡ a + 4 + 4 * i = omega arith in
      rw e (empty_from_sound n (a + 4) i mem (rw (z, empty_from) at h) (omega arith))
  | inr nz ↦ cc (rw (nz, empty_from) at h)
]

page_table_empty_sound :
    (a : ℕ) (mem : Bytes)
    → page_table_empty a mem ≡ true
    → (i : ℕ) → i < px_entries
    → entry mem a i ≡ 0
unfolding page_table_empty
page_table_empty_sound a mem h i lt = empty_from_sound px_entries a i mem h lt

-- The state `t` after a round of n_free for page `v`: the page is not mapped, and its bit in the
-- virtual bitmap is cleared if it was mapped; all other translations and bits are as before.
pub record Freed (s : Vm) (v : ℕ) (t : Vm) : Type 0 where
  pub valid : IsValid t
  pub translations :
      (w : ℕ)
      → w < 2 ^ 20
      → translation t.phys_mem w ≡ (if w == v then 0 else translation s.phys_mem w)
  pub virt_bits :
      (w : ℕ)
      → get_bit t.virt_bitmap w
        ≡ (if (v == w) && not (translation s.phys_mem v == 0) then 0 else get_bit s.virt_bitmap w)

module _ (s : Vm) (w : IsValid s) (va_u : ℕ) (hv : va_u < 2 ^ 32) (al : va_u % pgsize ≡ 0)
    (live0 : IsLive s.phys_mem 0 (table (pdx va_u)))
    (nz : entry s.phys_mem (entry s.phys_mem 0 (pdx va_u)) (ptx va_u) ≢ 0) where
  abbrev pub v : ℕ
  v = va_u / 2 ^ 12

  abbrev pub pte : ℕ
  pte = entry s.phys_mem (entry s.phys_mem 0 (pdx va_u)) (ptx va_u)

  -- The state once the entry is cleared.
  abbrev pub cleared : Vm
  cleared = record s {
    phys_mem = entered s.phys_mem (pdx va_u) (ptx va_u) 0;
    phys_bitmap = clear_bit s.phys_bitmap (pte / 2 ^ 12);
    virt_bitmap = clear_bit s.virt_bitmap v;
    tlb = tlb_invalidate va_u s.tlb;
  }

  cleared-Layout : Layout cleared
  cleared-Layout =
      Shrinks-Layout s cleared (page (pdx va_u) (ptx va_u)) w.layout
        (omega arith, omega arith, live0.1, nz) refl refl refl
        (page-Shrinks s w.layout (pdx va_u) (ptx va_u) live0 (omega arith))

  pub cleared-translation :
      (u : ℕ)
      → u < 2 ^ 20
      → translation cleared.phys_mem u ≡ (if u == v then 0 else translation s.phys_mem u)
  cleared-translation u hu =
      let parts : pdx va_u * 1024 + ptx va_u ≡ v = omega arith in
      rw parts at (
        enter-translation s w.layout (pdx va_u) (ptx va_u) 0 live0 (omega arith) (omega arith) u hu)

  cleared-coherent : Holds (IsCurrent cleared.phys_mem) cleared.tlb
  cleared-coherent =
      let same : vpn_of va_u ≡ v = omega arith in
      let kept =
        tlb_invalidate-Holds (IsCurrent s.phys_mem) va_u s.tlb w.cache (omega arith) w.coherent in
      λ i h valid.
        let (other, (hu, e, np)) = kept i h valid in
        (hu, cleared-translation _ hu ∙ rw (ne→== _ _ (λ z. other (z ∙ sym same))) e, np)

  pub cleared-virt :
      (u : ℕ) → get_bit cleared.virt_bitmap u ≡ (if v == u then 0 else get_bit s.virt_bitmap u)
  cleared-virt u = get_bit-clear_bit s.virt_bitmap v u w.virt_bytes

  pub cleared-IsValid : IsValid cleared
  cleared-IsValid = record {
    layout = cleared-Layout;
    mem_bytes = store32-IsBytes _ _ _ w.mem_bytes;
    cache = tlb_invalidate-IsTlb va_u s.tlb w.cache;
    coherent = cleared-coherent;
    virt_bytes = clear_bit-IsBytes s.virt_bitmap v w.virt_bytes;
    virt_pages = w.virt_pages;
    marked = λ u h np. ground (arith, cleared-virt u, cleared-translation u h, w.marked u h);
  }

  pub directory_kept : entry cleared.phys_mem 0 (pdx va_u) ≡ entry s.phys_mem 0 (pdx va_u)
  directory_kept =
      enter_directory s w.layout (pdx va_u) (ptx va_u) 0 live0 (omega arith) (omega arith)
        (pdx va_u) live0.0

-- The state `t` after release_table: no translation and no bit of the virtual bitmap has changed.
pub record Tidied (s t : Vm) : Type 0 where
  pub valid : IsValid t
  pub translations : (u : ℕ) → u < 2 ^ 20 → translation t.phys_mem u ≡ translation s.phys_mem u
  pub virt_same : t.virt_bitmap ≡ s.virt_bitmap

-- Giving back the table of the directory entry `d`, which is empty.
module _ (s : Vm) (w : IsValid s) (d : ℕ) (live : IsLive s.phys_mem 0 (table d))
    (empty : (t : ℕ) → t < px_entries → entry s.phys_mem (entry s.phys_mem 0 d) t ≡ 0) where
  abbrev released : Vm
  released = record s {
    phys_mem = unlinked s.phys_mem d (entry s.phys_mem 0 d);
    phys_bitmap = clear_bit s.phys_bitmap (entry s.phys_mem 0 d / 2 ^ 12);
  }

  released-translation :
      (u : ℕ) → u < 2 ^ 20 → translation released.phys_mem u ≡ translation s.phys_mem u
  released-translation u h =
      unlink-mapped s w.layout d live empty (u / 1024) (u % 1024) (omega arith) (omega arith)

  released-Tidied : Tidied s released
  released-Tidied = record {
    valid = record {
      layout =
          Shrinks-Layout s released (table d) w.layout live refl refl refl
            (table-Shrinks s w.layout d live);
      mem_bytes = clear_range-IsBytes _ _ _ (store32-IsBytes _ _ _ w.mem_bytes);
      cache = w.cache;
      coherent =
          λ i h v. let (hu, e, np) = w.coherent i h v in (hu, released-translation _ hu ∙ e, np);
      virt_bytes = w.virt_bytes;
      virt_pages = w.virt_pages;
      marked = λ u h np. w.marked u h (rw (released-translation u h) at np);
    };
    translations = released-translation;
    virt_same = refl;
  }

pub release_table-Tidied :
    (s : Vm) (va_u : ℕ)
    → IsValid s
    → IsLive s.phys_mem 0 (table (pdx va_u))
    → Tidied s (release_table 0 va_u (entry s.phys_mem 0 (pdx va_u)) s)
unfolding release_table
release_table-Tidied s va_u w live =
    let b = entry s.phys_mem 0 (pdx va_u) in
    elim (Bool-cases (page_table_empty b s.phys_mem)) [
      | inl e ↦ rw e (released-Tidied s w (pdx va_u) live (page_table_empty_sound b s.phys_mem e))
      | inr e ↦ rw e (record { valid = w; translations = λ u h. refl; virt_same = refl })
    ]
