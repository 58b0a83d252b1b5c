-- ===== src/Vm/Paging/Removal.antt =====
-- How a page and a page table leave the layout of the page tables of my_vm.c.
use mathlib.Core.Path.{subst}
use cs416_operating_systems.Base.{
  ℕ, ◌+◌, ◌*◌, ◌/◌, ◌<◌, ◌≡◌, ◌≢◌, refl, sym, ◌∙◌, inl, inr, arith, eq_or_ne, Bool-cases, ◌==◌,
  ==→ne, ne→==,
}
use cs416_operating_systems.Base.Memory.{Bytes, store32, clear_range}
use cs416_operating_systems.Vm.{Vm, pgsize, px_entries}
use cs416_operating_systems.Vm.Bitmap.{clear_bit, get_bit-clear_bit, clear_bit-IsBytes}
use cs416_operating_systems.Vm.Paging.Layout.{
  entry, Use, directory, table, page, frame_of, IsLive, Layout, entry-store, entry-clear_apart,
  entry-store_self,
}
use cs416_operating_systems.Vm.Paging.Growth.{entered, enter-Grows, table_frame, table_injective}
use cs416_operating_systems.Vm.Paging.Tables.{mapped}
use cs416_operating_systems.Vm.Paging.Translation.{enter-mapped_self}

-- The uses of `after` are uses of `mem` other than `gone`, with their frames.
abbrev pub Shrinks : Bytes → Bytes → Use → Type 0
Shrinks mem after gone =
    (u : Use)
    → IsLive after 0 u
    → IsLive mem 0 u × (frame_of after 0 u ≡ frame_of mem 0 u) × (u ≢ gone)

-- Giving up a use and clearing its frame's bit leaves a layout.
pub Shrinks-Layout :
    (s t : Vm) (gone : Use)
    → Layout s
    → IsLive s.phys_mem 0 gone
    → t.phys_bitmap ≡ clear_bit s.phys_bitmap (frame_of s.phys_mem 0 gone / pgsize)
    → t.num_phys_pages ≡ s.num_phys_pages
    → t.page_dir ≡ s.page_dir
    → Shrinks s.phys_mem t.phys_mem gone
    → Layout t
Shrinks-Layout s t gone lay alive bits same_frames same_root shrinks = record {
  phys_bytes = rw bits (clear_bit-IsBytes s.phys_bitmap _ lay.phys_bytes);
  frames = omega (arith, lay.frames);
  root = same_root ∙ lay.root;
  used = λ u live.
      let (old, e, other) = shrinks u live in
      let (al, set) = lay.used u old in
      let (bl, cleared) = lay.used gone alive in
      let apart : frame_of s.phys_mem 0 gone / pgsize ≢ frame_of s.phys_mem 0 u / pgsize =
        λ q. other (lay.apart u gone old alive (omega (arith, q))) in
      rw (e, bits)
        (al, get_bit-clear_bit s.phys_bitmap _ _ lay.phys_bytes ∙ rw (ne→== _ _ apart) set);
  apart = λ u v lu lv e.
      let (ou, eu, nu) = shrinks u lu in
      let (ov, ev, nv) = shrinks v lv in lay.apart u v ou ov (sym eu ∙ e ∙ ev);
}

-- Clearing the entry `t0` of the table of `d0`.
module _ (s : Vm) (lay : Layout s) (d0 t0 : ℕ) (live0 : IsLive s.phys_mem 0 (table d0))
    (ht0 : t0 < px_entries) where
  page_gone : ¬ IsLive (entered s.phys_mem d0 t0 0) 0 (page d0 t0)
  page_gone (hd, ht, nz, np) =
      np (rw (ne→== _ 0 nz) at (enter-mapped_self s lay d0 t0 0 live0 ht0 (omega arith)))

  pub page-Shrinks : Shrinks s.phys_mem (entered s.phys_mem d0 t0 0) (page d0 t0)
  page-Shrinks u live =
      let other : u ≢ page d0 t0 =
        λ e. page_gone (subst (IsLive (entered s.phys_mem d0 t0 0) 0) e live) in
      elim (enter-Grows s lay d0 t0 0 live0 ht0 (omega arith) u live) [
        | inl (e, _) ↦ absurd (other e)
        | inr (old, same) ↦ (old, same, other)
      ]

-- The memory without the table at `b` of directory entry `d0`.
abbrev pub unlinked : Bytes → ℕ → ℕ → Bytes
unlinked mem d0 b = clear_range (store32 mem (0 + 4 * d0) 0) b pgsize

-- Giving back the table of `d0`.
module _ (s : Vm) (lay : Layout s) (d0 : ℕ) (live0 : IsLive s.phys_mem 0 (table d0)) where
  abbrev b : ℕ
  b = entry s.phys_mem 0 d0

  unlink_self : entry (unlinked s.phys_mem d0 b) 0 d0 ≡ 0
  unlink_self =
      entry-clear_apart b 0 0 d0 (table_frame s d0 lay live0) (omega arith) (omega arith) live0.0 _
        live0.1
      ∙ entry-store_self s.phys_mem 0 d0 0 (omega arith)

  unlink_other :
      (d : ℕ)
      → d < px_entries
      → d ≢ d0
      → entry (unlinked s.phys_mem d0 b) 0 d ≡ entry s.phys_mem 0 d
  unlink_other d h ne =
      entry-clear_apart b 0 0 d (table_frame s d0 lay live0) (omega arith) (omega arith) h _ live0.1
      ∙ entry-store 0 0 d0 d (omega arith) (omega arith) live0.0 h s.phys_mem 0
          (inr (λ e. ne (sym e)))

  unlink_table :
      (d t : ℕ)
      → d ≢ d0
      → IsLive s.phys_mem 0 (table d)
      → t < px_entries
      → entry (unlinked s.phys_mem d0 b) (entry s.phys_mem 0 d) t
        ≡ entry s.phys_mem (entry s.phys_mem 0 d) t
  unlink_table d t ne live ht =
      let al = table_frame s d lay live in
      entry-clear_apart b _ 0 t (table_frame s d0 lay live0) al (omega arith) ht _
        (λ e. ne (table_injective (lay.apart (table d) (table d0) live live0 (sym e))))
      ∙ entry-store 0 _ d0 t (omega arith) al live0.0 ht s.phys_mem 0 (inl (λ e. live.1 (sym e)))

  unlink_dead : ¬ IsLive (unlinked s.phys_mem d0 b) 0 (table d0)
  unlink_dead live = live.1 unlink_self

  unlink_page :
      (d t : ℕ)
      → d ≢ d0
      → IsLive (unlinked s.phys_mem d0 b) 0 (page d t)
      → IsLive s.phys_mem 0 (page d t)
        × (frame_of (unlinked s.phys_mem d0 b) 0 (page d t) ≡ frame_of s.phys_mem 0 (page d t))
  unlink_page d t ne (hd, ht, nz', np) =
      let same = unlink_other d hd ne in
      let nz : entry s.phys_mem 0 d ≢ 0 = λ z. nz' (same ∙ z) in
      let full : frame_of (unlinked s.phys_mem d0 b) 0 (page d t)
          ≡ frame_of s.phys_mem 0 (page d t) =
        rw same (unlink_table d t ne (hd, nz) ht) in
      ((hd, ht, nz, λ z. np (full ∙ z)), full)

  pub table-Shrinks : Shrinks s.phys_mem (unlinked s.phys_mem d0 b) (table d0)
  table-Shrinks directory live = (tt, refl, cc)
  table-Shrinks (table d) live = elim (eq_or_ne d d0) [
    | inl e ↦
        absurd (unlink_dead (subst (λ x. IsLive (unlinked s.phys_mem d0 b) 0 (table x)) e live))
    | inr ne ↦
        let same = unlink_other d live.0 ne in
        ((live.0, λ z. live.1 (same ∙ z)), same, λ e. ne (table_injective e))
  ]
  table-Shrinks (page d t) live = elim (eq_or_ne d d0) [
    | inl e ↦ absurd (live.2 (rw e unlink_self))
    | inr ne ↦ let (old, same) = unlink_page d t ne live in (old, same, cc)
  ]

  -- Giving back a table with no entry left changes no translation.
  pub unlink-mapped :
      ((t : ℕ) → t < px_entries → entry s.phys_mem b t ≡ 0)
      → (d t : ℕ) → d < px_entries
      → t < px_entries
      → mapped (unlinked s.phys_mem d0 b) d t ≡ mapped s.phys_mem d t
  unlink-mapped empty d t hd ht = elim (eq_or_ne d d0) [
    | inl e ↦ rw (e, unlink_self, ne→== b 0 live0.1) (sym (empty t ht))
    | inr ne ↦ elim (Bool-cases (entry s.phys_mem 0 d == 0)) [
      | inl z ↦ rw (unlink_other d hd ne, z)
      | inr nz ↦ rw (unlink_other d hd ne, nz) (unlink_table d t ne (hd, ==→ne _ 0 nz) ht)
    ]
  ]
