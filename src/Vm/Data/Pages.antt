-- ===== src/Vm/Data/Pages.antt =====
-- Copying into a mapped page of my_vm.c: the page tables stay as they are.
use cs416_operating_systems.Base.{
  ℕ, ◌+◌, ◌*◌, ◌/◌, ◌%◌, ◌^◌, ◌≤◌, ◌<◌, ◌≡◌, ◌≢◌, refl, sym, ◌∙◌, inl, inr, arith, Bool-cases, ◌==◌,
  ==→ne,
}
use cs416_operating_systems.Base.Memory.{Bytes, IsBytes}
use cs416_operating_systems.Base.Copy.{memcpy, memcpy-IsBytes, load32-memcpy_apart}
use cs416_operating_systems.Vm.{Vm, pgsize, px_entries}
use cs416_operating_systems.Vm.Paging.Layout.{entry, Use, directory, table, page, frame_of, IsLive}
use cs416_operating_systems.Vm.Paging.Tables.{mapped}
use cs416_operating_systems.Vm.Paging.Translation.{translation, IsValid}

-- A copy inside a frame leaves the words of other frames alone.
entry-memcpy :
    (m : Bytes) (frame o : ℕ) (src : Bytes) (a n b i : ℕ)
    → frame % pgsize ≡ 0
    → b % pgsize ≡ 0
    → o + n ≤ pgsize
    → i < px_entries
    → frame ≢ b
    → entry (memcpy m (frame + o) src a n) b i ≡ entry m b i
entry-memcpy m frame o src a n b i hf hb room hi ne =
    load32-memcpy_apart m (frame + o) src a n (b + 4 * i) (omega arith)

-- A page that is mapped is in use.
mapped-IsLive :
    (mem : Bytes) (d t : ℕ)
    → d < px_entries
    → t < px_entries
    → mapped mem d t ≢ 0
    → IsLive mem 0 (page d t) × (frame_of mem 0 (page d t) ≡ mapped mem d t)
mapped-IsLive mem d t hd ht nz = elim (Bool-cases (entry mem 0 d == 0)) [
  | inl z ↦ absurd (nz (rw z refl))
  | inr np ↦ ((hd, ht, ==→ne _ 0 np, rw np at nz), rw np refl)
]

page_injective : {d e t u : ℕ} → page d t ≡ page e u → (d ≡ e) × (t ≡ u)
page_injective h = (cc, cc)

-- The use of the frame of a mapped page.
abbrev use_of : ℕ → Use
use_of v = page (v / 1024) (v % 1024)

module _ (s : Vm) (w : IsValid s) where
  translation-IsLive :
      (v : ℕ)
      → v < 2 ^ 20
      → translation s.phys_mem v ≢ 0
      → IsLive s.phys_mem 0 (use_of v)
        × (frame_of s.phys_mem 0 (use_of v) ≡ translation s.phys_mem v)
  translation-IsLive v h nz =
      mapped-IsLive s.phys_mem (v / 1024) (v % 1024) (omega arith) (omega arith) nz

  translation_aligned :
      (v : ℕ) → v < 2 ^ 20 → translation s.phys_mem v ≢ 0 → translation s.phys_mem v % pgsize ≡ 0
  translation_aligned v h nz =
      let (live, e) = translation-IsLive v h nz in rw e at (w.layout.used (use_of v) live).0

  -- Mapped pages that share a byte are the same page.
  pub pages_meet :
      (u v p q : ℕ)
      → u < 2 ^ 20
      → v < 2 ^ 20
      → translation s.phys_mem u ≢ 0
      → translation s.phys_mem v ≢ 0
      → p < pgsize
      → q < pgsize
      → translation s.phys_mem u + p ≡ translation s.phys_mem v + q
      → (u ≡ v) × (p ≡ q)
  pages_meet u v p q hu hv nu nv hp hq e =
      let (lu, fu) = translation-IsLive u hu nu in
      let (lv, fv) = translation-IsLive v hv nv in
      let au = translation_aligned u hu nu in
      let av = translation_aligned v hv nv in
      let same : translation s.phys_mem u ≡ translation s.phys_mem v = omega (arith, au, av, e) in
      let (d, t) =
        page_injective (w.layout.apart (use_of u) (use_of v) lu lv (fu ∙ same ∙ sym fv)) in
      (omega (arith, d, t), omega (arith, same, e))

module _ (s : Vm) (w : IsValid s) (v : ℕ) (hv : v < 2 ^ 20) (nz : translation s.phys_mem v ≢ 0)
    (src : Bytes) (bytes : IsBytes src) (o a n : ℕ) (room : o + n ≤ pgsize) where
  abbrev frame : ℕ
  frame = translation s.phys_mem v

  abbrev pub copied : Vm
  copied = record s { phys_mem = memcpy s.phys_mem (frame + o) src a n }

  frame_aligned : frame % pgsize ≡ 0
  frame_aligned = translation_aligned s w v hv nz

  same_directory : (d : ℕ) → d < px_entries → entry copied.phys_mem 0 d ≡ entry s.phys_mem 0 d
  same_directory d h =
      entry-memcpy s.phys_mem frame o src a n 0 d frame_aligned (omega arith) room h nz

  frame_not_table : (d : ℕ) → IsLive s.phys_mem 0 (table d) → frame ≢ entry s.phys_mem 0 d
  frame_not_table d live e =
      let (own, f) = translation-IsLive s w v hv nz in
      let both : use_of v ≡ table d = w.layout.apart (use_of v) (table d) own live (f ∙ e) in cc

  same_table :
      (d t : ℕ)
      → IsLive s.phys_mem 0 (table d)
      → t < px_entries
      → entry copied.phys_mem (entry s.phys_mem 0 d) t ≡ entry s.phys_mem (entry s.phys_mem 0 d) t
  same_table d t live h =
      entry-memcpy s.phys_mem frame o src a n (entry s.phys_mem 0 d) t frame_aligned
        (w.layout.used (table d) live).0 room h (frame_not_table d live)

  same_uses :
      (u : Use)
      → IsLive copied.phys_mem 0 u
      → IsLive s.phys_mem 0 u × (frame_of copied.phys_mem 0 u ≡ frame_of s.phys_mem 0 u)
  same_uses directory live = (tt, refl)
  same_uses (table d) (hd, nz) = let e = same_directory d hd in ((hd, rw e at nz), e)
  same_uses (page d t) (hd, ht, nd, nt) =
      let e = same_directory d hd in
      let nd' : entry s.phys_mem 0 d ≢ 0 = rw e at nd in
      let f = same_table d t (hd, nd') ht in ((hd, ht, nd', rw (e, f) at nt), rw e f)

  pub same_translation :
      (u : ℕ) → u < 2 ^ 20 → translation copied.phys_mem u ≡ translation s.phys_mem u
  same_translation u h =
      let e = same_directory (u / 1024) (omega arith) in
      elim (Bool-cases (entry s.phys_mem 0 (u / 1024) == 0)) [
        | inl z ↦ rw (e, z) refl
        | inr np ↦
            rw (e, np) (same_table (u / 1024) (u % 1024) (omega arith, ==→ne _ 0 np) (omega arith))
      ]

  pub copied-IsValid : IsValid copied
  copied-IsValid = record {
    layout = record {
      phys_bytes = w.layout.phys_bytes;
      frames = w.layout.frames;
      root = w.layout.root;
      used = λ u live. let (old, e) = same_uses u live in rw e (w.layout.used u old);
      apart = λ u v lu lv e.
          let (ou, eu) = same_uses u lu in
          let (ov, ev) = same_uses v lv in w.layout.apart u v ou ov (sym eu ∙ e ∙ ev);
    };
    mem_bytes = memcpy-IsBytes s.phys_mem (frame + o) src a n w.mem_bytes bytes;
    cache = w.cache;
    coherent = λ i live valid.
        (let (small, e, pos) = w.coherent i live valid in
          (small, same_translation _ small ∙ e, pos));
    virt_bytes = w.virt_bytes;
    virt_pages = w.virt_pages;
    marked = λ u h nz. w.marked u h (rw (same_translation u h) at nz);
  }
