-- ===== src/Vm/Paging/Tables.antt =====
-- The translation that the page tables of my_vm.c hold, and how ensure_table changes it: not at all.
use cs416_operating_systems.Base.{
  ℕ, ◌*◌, ◌/◌, ◌%◌, ◌^◌, ◌<◌, ◌≡◌, ◌≢◌, refl, sym, ap, ◌∙◌, inl, inr, false, Option, none, some,
  arith, eq_or_ne, Bool-cases, ◌==◌, ==_iff, ==→ne, ne→==, if◌then◌else◌,
}
use cs416_operating_systems.Base.Memory.{Bytes, IsBytes, store32-IsBytes, clear_range-IsBytes}
use cs416_operating_systems.Vm.{Vm, pgsize, px_entries, pdx, invalid_pa}
use cs416_operating_systems.Vm.Frames.Count.{Spends, set_bit-Spends}
use cs416_operating_systems.Vm.Bitmap.{get_bit, set_bit, get_bit-set_bit, set_bit-IsBytes}
use cs416_operating_systems.Vm.Frames.{allocate_phys_page}
use cs416_operating_systems.Vm.Frames.Fresh.{Allocates, taken, full, allocate_phys_page-Allocates}
use cs416_operating_systems.Vm.Paging.{ensure_table}
use cs416_operating_systems.Vm.Paging.Layout.{
  entry, directory, table, frame_of, IsLive, IsUsed, Layout, IsSpare,
}
use cs416_operating_systems.Vm.Paging.Growth.{
  Keeps, Grows-Layout, table_frame, linked, link_self, link_other, link_new, link_table, link-Grows,
}

-- The entry for directory index `d` and table index `t`, with 0 for a page that is not mapped.
abbrev pub mapped : Bytes → ℕ → ℕ → ℕ
mapped mem d t = if entry mem 0 d == 0 then 0 else entry mem (entry mem 0 d) t

-- What allocate_phys_page gives where the layout holds: a frame other than 0, or nothing.
pub data FreshFrame (s : Vm) (r : ℕ × Vm) : Type 0 where
  fresh :
      (f : ℕ)
      → f < s.num_phys_pages
      → f ≢ 0
      → get_bit s.phys_bitmap f ≡ 0
      → r ≡ (f * pgsize, record s { phys_bitmap = set_bit s.phys_bitmap f })
      → FreshFrame s r
  exhausted :
      ((g : ℕ) → g < s.num_phys_pages → get_bit s.phys_bitmap g ≡ 1)
      → r ≡ (invalid_pa, s)
      → FreshFrame s r

pub allocate-FreshFrame : (s : Vm) → Layout s → FreshFrame s (allocate_phys_page s)
allocate-FreshFrame s lay =
    go (allocate_phys_page s) (allocate_phys_page-Allocates s lay.phys_bytes)
  where
    root : get_bit s.phys_bitmap 0 ≡ 1
    root = (lay.used directory tt).1

    go : (r : ℕ × Vm) → Allocates s.num_phys_pages 0 s r → FreshFrame s r
    go r (taken f lo hi free before e) =
        let small : f * pgsize % 2 ^ 32 ≡ f * pgsize = omega (arith, lay.frames) in
        let nz : f ≢ 0 = λ z. absurd (omega (arith, root, ap (get_bit s.phys_bitmap) z)) in
        fresh f (omega arith) nz free (e ∙ rw small)
    go r (full all e) = exhausted (λ g h. all g (omega arith) (omega arith)) e

-- A frame whose bit is clear has no use.
pub clear-IsSpare :
    (s : Vm) (f : ℕ) → Layout s → get_bit s.phys_bitmap f ≡ 0 → IsSpare s.phys_mem (f * pgsize)
clear-IsSpare s f lay free u live e =
    let (_, set) = lay.used u live in
    let same : frame_of s.phys_mem 0 u / pgsize ≡ f = omega (arith, e) in
    absurd (omega (arith, free, set, ap (get_bit s.phys_bitmap) same))

pub set_bit-Keeps : (b : Bytes) (f : ℕ) → IsBytes b → Keeps b (set_bit b f)
set_bit-Keeps b f h g set = ground (arith, get_bit-set_bit b f g h)

pub set_bit_self : (b : Bytes) (f : ℕ) → IsBytes b → get_bit (set_bit b f) f ≡ 1
set_bit_self b f h = ground (arith, get_bit-set_bit b f f h)

-- Linking an empty table leaves every translation as it is.
module _ (s : Vm) (lay : Layout s) (d0 n : ℕ) (hd : d0 < px_entries) (hn : n % pgsize ≡ 0)
    (pos : n ≢ 0) (small : n < 2 ^ 32) (spare : IsSpare s.phys_mem n)
    (empty : entry s.phys_mem 0 d0 ≡ 0) where
  pub link-mapped :
      (d t : ℕ)
      → d < px_entries
      → t < px_entries
      → mapped (linked s.phys_mem d0 n) d t ≡ mapped s.phys_mem d t
  link-mapped d t h ht = elim (eq_or_ne d d0) [
    | inl e ↦
        rw (e, link_self s lay d0 n hd hn pos small spare, ne→== n 0 pos, empty)
          (link_new s lay d0 n hd hn pos small spare t ht)
    | inr ne ↦ elim (Bool-cases (entry s.phys_mem 0 d == 0)) [
      | inl z ↦ rw (link_other s lay d0 n hd hn pos small spare d h ne, z)
      | inr nz ↦
          let live : IsLive s.phys_mem 0 (table d) = (h, ==→ne _ 0 nz) in
          rw (link_other s lay d0 n hd hn pos small spare d h ne, nz)
            (link_table s lay d0 n hd hn pos small spare _ t ht (table_frame s d lay live)
              (==→ne _ 0 nz) (spare (table d) live))
    ]
  ]

-- The state `t` after ensure_table has found or made the table `b` for directory entry `d0`.
pub record TableReady (s : Vm) (d0 b : ℕ) (t : Vm) : Type 0 where
  pub layout : Layout t
  pub live : IsLive t.phys_mem 0 (table d0)
  pub place : entry t.phys_mem 0 d0 ≡ b
  pub bytes : IsBytes s.phys_mem → IsBytes t.phys_mem
  pub same_tlb : t.tlb ≡ s.tlb
  pub same_virt : t.virt_bitmap ≡ s.virt_bitmap
  pub same_virt_pages : t.num_virt_pages ≡ s.num_virt_pages
  pub same_root : t.page_dir ≡ s.page_dir
  pub same_frames : t.num_phys_pages ≡ s.num_phys_pages
  pub spends : Spends s 1 t
  pub keeps : Keeps s.phys_bitmap t.phys_bitmap
  pub spare : (a : ℕ) → IsUsed s.phys_bitmap a → IsSpare s.phys_mem a → IsSpare t.phys_mem a
  pub same_mapped :
      (d e : ℕ) → d < px_entries → e < px_entries → mapped t.phys_mem d e ≡ mapped s.phys_mem d e

pub data Ensures (s : Vm) (d0 : ℕ) (r : Option ℕ × Vm) : Type 0 where
  ready : (b : ℕ) (t : Vm) → r ≡ (some b, t) → TableReady s d0 b t → Ensures s d0 r
  no_frame :
      ((g : ℕ) → g < s.num_phys_pages → get_bit s.phys_bitmap g ≡ 1)
      → r ≡ (none, s)
      → Ensures s d0 r

-- The case in which the directory has no table for the page, and frame `f` is taken for one.
module _ (s : Vm) (lay : Layout s) (d0 f : ℕ) (hd : d0 < px_entries) (hf : f < s.num_phys_pages)
    (pos : f ≢ 0) (free : get_bit s.phys_bitmap f ≡ 0) (empty : entry s.phys_mem 0 d0 ≡ 0) where
  abbrev with_table : Vm
  with_table = record s {
    phys_bitmap = set_bit s.phys_bitmap f;
    phys_mem = linked s.phys_mem d0 (f * pgsize);
  }

  new-TableReady : TableReady s d0 (f * pgsize) with_table
  new-TableReady =
      let hn : f * pgsize % pgsize ≡ 0 = omega arith in
      let nz : f * pgsize ≢ 0 = λ z. pos (omega (arith, z)) in
      let small : f * pgsize < 2 ^ 32 = omega (arith, lay.frames) in
      let back : f * pgsize / pgsize ≡ f = omega arith in
      let spare = clear-IsSpare s f lay free in
      let keeps = set_bit-Keeps s.phys_bitmap f lay.phys_bytes in
      let used : IsUsed (set_bit s.phys_bitmap f) (f * pgsize) =
        (hn, rw back (set_bit_self s.phys_bitmap f lay.phys_bytes)) in
      let grows = link-Grows s lay d0 (f * pgsize) hd hn nz small spare in
      let self = link_self s lay d0 (f * pgsize) hd hn nz small spare in
      record {
        layout =
            Grows-Layout s with_table (table d0) (f * pgsize) lay
              (set_bit-IsBytes s.phys_bitmap f lay.phys_bytes) refl refl spare used keeps grows;
        live = (hd, λ z. nz (sym self ∙ z));
        place = self;
        bytes = λ h. store32-IsBytes _ _ _ (clear_range-IsBytes _ _ _ h);
        same_tlb = refl;
        same_virt = refl;
        same_virt_pages = refl;
        same_root = refl;
        same_frames = refl;
        spends = set_bit-Spends s with_table f lay.phys_bytes refl refl;
        keeps = keeps;
        spare = λ a (al, set) sp u live e. elim (grows u live) [
          | inl (_, g) ↦
              let same : f ≡ a / pgsize = omega (arith, g, e) in
              absurd (omega (arith, free, set, ap (get_bit s.phys_bitmap) same))
          | inr (old, g) ↦ sp u old (sym g ∙ e)
        ];
        same_mapped = λ d e. link-mapped s lay d0 (f * pgsize) hd hn nz small spare empty d e;
      }

TableReady-found :
    (s : Vm) (d0 : ℕ)
    → Layout s
    → IsLive s.phys_mem 0 (table d0)
    → TableReady s d0 (entry s.phys_mem 0 d0) s
TableReady-found s d0 lay live = record {
  layout = lay;
  live = live;
  place = refl;
  bytes = λ h. h;
  same_tlb = refl;
  same_virt = refl;
  same_virt_pages = refl;
  same_root = refl;
  same_frames = refl;
  spends = record { same_pages = refl; bound = omega arith };
  keeps = λ f set. set;
  spare = λ a used sp. sp;
  same_mapped = λ d e h k. refl;
}

ensure_table_makes :
    (s : Vm) (va_u : ℕ)
    → Layout s
    → entry s.phys_mem 0 (pdx va_u) ≡ 0
    → FreshFrame s (allocate_phys_page s)
    → Ensures s (pdx va_u) (ensure_table 0 va_u s)
unfolding ensure_table
ensure_table_makes s va_u lay z (fresh f hf pos free e) =
    let good : (f * pgsize == invalid_pa) ≡ false = ne→== _ _ (omega (arith, lay.frames)) in
    rw (z, e, good)
      (ready (f * pgsize) (with_table s lay (pdx va_u) f (omega arith) hf pos free z) refl
        (new-TableReady s lay (pdx va_u) f (omega arith) hf pos free z))
ensure_table_makes s va_u lay z (exhausted all e) = rw (z, e) (no_frame all refl)

-- ensure_table finds or makes the table for the page, and makes no other change that a translation
-- can see; it fails only with every frame in use, and then changes nothing.
pub ensure_table-Ensures :
    (s : Vm) (va_u : ℕ) → Layout s → Ensures s (pdx va_u) (ensure_table 0 va_u s)
unfolding ensure_table
ensure_table-Ensures s va_u lay = elim (Bool-cases (entry s.phys_mem 0 (pdx va_u) == 0)) [
  | inr nz ↦
      let live : IsLive s.phys_mem 0 (table (pdx va_u)) = (omega arith, ==→ne _ 0 nz) in
      rw nz (ready _ s refl (TableReady-found s (pdx va_u) lay live))
  | inl z ↦ ensure_table_makes s va_u lay ((==_iff _ 0).0 z) (allocate-FreshFrame s lay)
]
