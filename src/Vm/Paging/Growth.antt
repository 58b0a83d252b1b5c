-- ===== src/Vm/Paging/Growth.antt =====
-- How a new page table and a new page enter the layout of the page tables of my_vm.c.
use cs416_operating_systems.Base.{
  ℕ, ◌+◌, ◌*◌, ◌%◌, ◌^◌, ◌<◌, ◌≡◌, ◌≢◌, ◌⊎◌, refl, sym, ap, ◌∙◌, inl, inr, arith, eq_or_ne,
}
use cs416_operating_systems.Base.Memory.{Bytes, IsBytes, store32, clear_range}
use cs416_operating_systems.Vm.{Vm, pgsize, px_entries}
use cs416_operating_systems.Vm.Bitmap.{get_bit}
use cs416_operating_systems.Vm.Paging.Layout.{
  entry, Use, directory, table, page, frame_of, IsLive, IsUsed, Layout, IsSpare, entry-store,
  entry-clear_apart, entry-clear_inside, entry-store_self,
}

-- The uses of `after` are those of `mem`, with their frames, and perhaps `new`, of the frame `n`.
abbrev pub Grows : Bytes → Bytes → Use → ℕ → Type 0
Grows mem after new n =
    (u : Use)
    → IsLive after 0 u
    → ((u ≡ new) × (frame_of after 0 u ≡ n))
      ⊎ (IsLive mem 0 u × (frame_of after 0 u ≡ frame_of mem 0 u))

-- Frames whose bit is set in `b` have it set in `c`.
abbrev pub Keeps : Bytes → Bytes → Type 0
Keeps b c = (f : ℕ) → get_bit b f ≡ 1 → get_bit c f ≡ 1

-- A layout that grows by a frame with no other use is a layout again.
pub Grows-Layout :
    (s t : Vm) (new : Use) (n : ℕ)
    → Layout s
    → IsBytes t.phys_bitmap
    → t.num_phys_pages ≡ s.num_phys_pages
    → t.page_dir ≡ s.page_dir
    → IsSpare s.phys_mem n
    → IsUsed t.phys_bitmap n
    → Keeps s.phys_bitmap t.phys_bitmap
    → Grows s.phys_mem t.phys_mem new n
    → Layout t
Grows-Layout s t new n lay bytes same_frames same_root spare used keeps grows = record {
  phys_bytes = bytes;
  frames = omega (arith, lay.frames);
  root = same_root ∙ lay.root;
  used = λ u live. elim (grows u live) [
    | inl (_, e) ↦ rw e used
    | inr (old, e) ↦ rw e (let (a, b) = lay.used u old in (a, keeps _ b))
  ];
  apart = λ u v lu lv e. elim (grows u lu) [
    | inl (nu, fu) ↦ elim (grows v lv) [
      | inl (nv, fv) ↦ nu ∙ sym nv
      | inr (ov, fv) ↦ absurd (spare v ov (sym fv ∙ sym e ∙ fu))
    ]
    | inr (ou, fu) ↦ elim (grows v lv) [
      | inl (nv, fv) ↦ absurd (spare u ou (sym fu ∙ e ∙ fv))
      | inr (ov, fv) ↦ lay.apart u v ou ov (sym fu ∙ e ∙ fv)
    ]
  ];
}

pub table_injective : {d e : ℕ} → table d ≡ table e → d ≡ e
table_injective h = cc

-- A table that exists stands in an aligned frame other than the directory's.
pub table_frame :
    (s : Vm) (d : ℕ) → Layout s → IsLive s.phys_mem 0 (table d) → entry s.phys_mem 0 d % pgsize ≡ 0
table_frame s d lay live = (lay.used (table d) live).0

-- The memory with the frame `n` cleared and linked as the table of directory entry `d0`.
abbrev pub linked : Bytes → ℕ → ℕ → Bytes
linked mem d0 n = store32 (clear_range mem n pgsize) (0 + 4 * d0) n

-- The memory with `n` in entry `t0` of the table of directory entry `d0`.
abbrev pub entered : Bytes → ℕ → ℕ → ℕ → Bytes
entered mem d0 t0 n = store32 mem (entry mem 0 d0 + 4 * t0) n

-- Linking a cleared frame `n` as the table of entry `d0`.
module _ (s : Vm) (lay : Layout s) (d0 n : ℕ) (hd : d0 < px_entries) (hn : n % pgsize ≡ 0)
    (pos : n ≢ 0) (small : n < 2 ^ 32) (spare : IsSpare s.phys_mem n) where
  pub link_self : entry (linked s.phys_mem d0 n) 0 d0 ≡ n
  link_self = entry-store_self _ 0 d0 n small

  pub link_other :
      (d : ℕ) → d < px_entries → d ≢ d0 → entry (linked s.phys_mem d0 n) 0 d ≡ entry s.phys_mem 0 d
  link_other d h ne =
      entry-store 0 0 d0 d (omega arith) (omega arith) hd h _ n (inr (λ e. ne (sym e)))
      ∙ entry-clear_apart n 0 0 d hn (omega arith) (omega arith) h s.phys_mem pos

  pub link_new : (t : ℕ) → t < px_entries → entry (linked s.phys_mem d0 n) n t ≡ 0
  link_new t h =
      entry-store 0 n d0 t (omega arith) hn hd h _ n (inl (λ e. pos (sym e)))
      ∙ entry-clear_inside s.phys_mem n t h

  pub link_table :
      (b t : ℕ)
      → t < px_entries
      → b % pgsize ≡ 0
      → b ≢ 0
      → b ≢ n
      → entry (linked s.phys_mem d0 n) b t ≡ entry s.phys_mem b t
  link_table b t h hb nz nn =
      entry-store 0 b d0 t (omega arith) hb hd h _ n (inl (λ e. nz (sym e)))
      ∙ entry-clear_apart n b 0 t hn hb (omega arith) h s.phys_mem (λ e. nn (sym e))

  -- A page that is found after the linking was there before, in the same frame.
  link_page :
      (d t : ℕ)
      → d ≢ d0
      → IsLive (linked s.phys_mem d0 n) 0 (page d t)
      → IsLive s.phys_mem 0 (page d t)
        × (frame_of (linked s.phys_mem d0 n) 0 (page d t) ≡ frame_of s.phys_mem 0 (page d t))
  link_page d t ne (hd', ht, nz', np) =
      let same = link_other d hd' ne in
      let nz : entry s.phys_mem 0 d ≢ 0 = λ z. nz' (same ∙ z) in
      let aligned = table_frame s d lay (hd', nz) in
      let kept = link_table _ t ht aligned nz (spare (table d) (hd', nz)) in
      let full : frame_of (linked s.phys_mem d0 n) 0 (page d t) ≡ frame_of s.phys_mem 0 (page d t) =
        rw same kept in
      ((hd', ht, nz, λ z. np (full ∙ z)), full)

  pub link-Grows : Grows s.phys_mem (linked s.phys_mem d0 n) (table d0) n
  link-Grows directory live = inr (tt, refl)
  link-Grows (table d) (hd', nz) = elim (eq_or_ne d d0) [
    | inl e ↦ inl (ap table e, rw e link_self)
    | inr ne ↦ inr ((hd', λ z. nz (link_other d hd' ne ∙ z)), link_other d hd' ne)
  ]
  link-Grows (page d t) live = elim (eq_or_ne d d0) [
    | inl e ↦ absurd (live.3 (rw (e, link_self) (link_new t live.1)))
    | inr ne ↦ inr (link_page d t ne live)
  ]

-- Writing the frame `n` into entry `t0` of the table of directory entry `d0`.
module _ (s : Vm) (lay : Layout s) (d0 t0 n : ℕ) (live0 : IsLive s.phys_mem 0 (table d0))
    (ht0 : t0 < px_entries) (small : n < 2 ^ 32) where
  -- No write to a table reaches the directory.
  pub enter_directory :
      (d : ℕ) → d < px_entries → entry (entered s.phys_mem d0 t0 n) 0 d ≡ entry s.phys_mem 0 d
  enter_directory d h =
      entry-store _ 0 t0 d (table_frame s d0 lay live0) (omega arith) ht0 h s.phys_mem n
        (inl live0.1)

  pub enter_self : entry (entered s.phys_mem d0 t0 n) (entry s.phys_mem 0 d0) t0 ≡ n
  enter_self = entry-store_self s.phys_mem _ t0 n small

  pub enter_other :
      (d t : ℕ)
      → IsLive s.phys_mem 0 (table d)
      → t < px_entries
      → (d ≢ d0) ⊎ (t ≢ t0)
      → entry (entered s.phys_mem d0 t0 n) (entry s.phys_mem 0 d) t
        ≡ entry s.phys_mem (entry s.phys_mem 0 d) t
  enter_other d t live ht h =
      entry-store _ _ t0 t (table_frame s d0 lay live0) (table_frame s d lay live) ht0 ht s.phys_mem
        n
        (elim h [
          | inl a ↦
              inl (λ e. a (table_injective (sym (lay.apart (table d0) (table d) live0 live e))))
          | inr b ↦ inr (λ e. b (sym e))
        ])

  enter-Grows_page :
      (d t : ℕ)
      → IsLive (entered s.phys_mem d0 t0 n) 0 (page d t)
      → (d ≢ d0) ⊎ (t ≢ t0)
      → IsLive s.phys_mem 0 (page d t)
        × (frame_of (entered s.phys_mem d0 t0 n) 0 (page d t) ≡ frame_of s.phys_mem 0 (page d t))
  enter-Grows_page d t (hd, ht, nz', np) h =
      let same = enter_directory d hd in
      let nz : entry s.phys_mem 0 d ≢ 0 = λ z. nz' (same ∙ z) in
      let kept = enter_other d t (hd, nz) ht h in
      let full : frame_of (entered s.phys_mem d0 t0 n) 0 (page d t)
          ≡ frame_of s.phys_mem 0 (page d t) =
        rw same kept in
      ((hd, ht, nz, λ z. np (full ∙ z)), full)

  pub enter-Grows : Grows s.phys_mem (entered s.phys_mem d0 t0 n) (page d0 t0) n
  enter-Grows directory live = inr (tt, refl)
  enter-Grows (table d) (hd, nz) =
      inr ((hd, λ z. nz (enter_directory d hd ∙ z)), enter_directory d hd)
  enter-Grows (page d t) live = elim (eq_or_ne d d0) [
    | inl e ↦ elim (eq_or_ne t t0) [
      | inl f ↦ inl (rw (e, f), rw (e, f, enter_directory d0 live0.0) enter_self)
      | inr ne ↦ inr (enter-Grows_page d t live (inr ne))
    ]
    | inr ne ↦ inr (enter-Grows_page d t live (inl ne))
  ]
