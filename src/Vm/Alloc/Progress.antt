-- ===== src/Vm/Alloc/Progress.antt =====
-- The mapping loop of n_malloc of my_vm.c, round by round.
use mathlib.Core.Path.{subst}
use cs416_operating_systems.Base.{
  ℕ, zero, suc, ◌+◌, ◌*◌, ◌/◌, ◌%◌, ◌^◌, ◌≤◌, ◌<◌, ◌≡◌, ◌≢◌, refl, sym, ◌∙◌, inl, inr, true, false,
  arith, eq_or_ne, Bool-cases, ◌==◌, ne→==, if◌then◌else◌,
}
use cs416_operating_systems.Vm.{Vm, Status, success, failure, pgsize, u32, va2u, invalid_pa}
use cs416_operating_systems.Vm.Bitmap.{get_bit}
use cs416_operating_systems.Vm.Frames.Count.{
  free_frames, Spends, Spends-trans, Spends-free_frames, set_bit-Spends,
}
use cs416_operating_systems.Vm.Frames.{allocate_phys_page}
use cs416_operating_systems.Vm.Lookaside.Lookup.{vpn_of}
use cs416_operating_systems.Vm.Paging.{map_page}
use cs416_operating_systems.Vm.Paging.Claim.{
  Claims, claimed, none_free, marking, allocate_phys_page-Claims,
}
use cs416_operating_systems.Vm.Paging.Mapping.{Mapped, Maps, entered_page, no_table, map_page-Maps}
use cs416_operating_systems.Vm.Paging.Translation.{translation, IsValid}
use cs416_operating_systems.Vm.Alloc.{map_loop, n_free, pages_for}
use cs416_operating_systems.Vm.Alloc.Free.{within, FreedRange, n_free-FreedRange}

-- The `n` pages from `v` on are reserved in `s`: marked, not mapped, and within the address space.
pub record IsReserved (s : Vm) (v n : ℕ) : Type 0 where
  pub valid : IsValid s
  pub fits : v + n ≤ 2 ^ 20
  pub clear : (u : ℕ) → v ≤ u → u < v + n → translation s.phys_mem u ≡ 0
  pub set : (u : ℕ) → v ≤ u → u < v + n → get_bit s.virt_bitmap u ≡ 1

-- From `s` to `t` the first `i` pages from `v` on have been mapped, and no other translation and no
-- bit of the virtual bitmap has changed.
pub record Progress (s : Vm) (v i : ℕ) (t : Vm) : Type 0 where
  pub valid : IsValid t
  pub done : (u : ℕ) → v ≤ u → u < v + i → translation t.phys_mem u ≢ 0
  pub rest :
      (u : ℕ)
      → u < 2 ^ 20
      → within v i u ≡ false
      → translation t.phys_mem u ≡ translation s.phys_mem u
  pub bits : (u : ℕ) → u < 2 ^ 20 → get_bit t.virt_bitmap u ≡ get_bit s.virt_bitmap u

-- From `s` to `t` no translation has changed, and of the `n` pages from `v` on the first `i` are
-- free again in the virtual bitmap; the others are still marked.
pub record Undone (s : Vm) (v i : ℕ) (t : Vm) : Type 0 where
  pub valid : IsValid t
  pub same : (u : ℕ) → u < 2 ^ 20 → translation t.phys_mem u ≡ translation s.phys_mem u
  pub bits :
      (u : ℕ)
      → u < 2 ^ 20
      → get_bit t.virt_bitmap u ≡ (if within v i u then 0 else get_bit s.virt_bitmap u)

pub data MapsAll (s : Vm) (v n : ℕ) (r : ℕ × Vm) : Type 0 where
  all_mapped : (t : Vm) → r ≡ (v * 2 ^ 12, t) → Progress s v n t → MapsAll s v n r
  out_of_frames :
      (j : ℕ) (t : Vm)
      → j < n
      → r ≡ (0, t)
      → free_frames s ≤ 2 * j + 1
      → Undone s v j t
      → MapsAll s v n r

module _ (s : Vm) (v n : ℕ) (res : IsReserved s v n) where
  undo_range : (i : ℕ) (t r : Vm) → i < n → Progress s v i t → FreedRange t v i r → Undone s v i r
  undo_range i t r lt p f = record {
    valid = f.valid;
    same = λ u h. elim (Bool-cases (within v i u)) [
      | inl inside ↦
          f.translations u h ∙ rw inside (sym (res.clear u (ground arith) (ground arith)))
      | inr outside ↦ f.translations u h ∙ rw outside (p.rest u h outside)
    ];
    bits = λ u h. elim (Bool-cases (within v i u)) [
      | inl inside ↦
          let mapped = ne→== _ 0 (p.done u (ground arith) (ground arith)) in
          f.virt_bits u h ∙ rw (inside, mapped)
      | inr outside ↦ f.virt_bits u h ∙ rw outside (p.bits u h)
    ];
  }

  -- Freeing the `i` pages mapped so far takes every translation back.
  undo :
      (i : ℕ) (t : Vm)
      → i < n
      → Progress s v i t
      → Undone s v i (n_free (v * 2 ^ 12) (i * pgsize % u32) t)
  undo i t lt p =
      let count : pages_for (i * pgsize % u32) ≡ i = omega (arith, res.fits) in
      let at : va2u (v * 2 ^ 12) / pgsize ≡ v = omega (arith, res.fits) in
      let f =
        n_free-FreedRange t (v * 2 ^ 12) (i * pgsize % u32) p.valid (omega arith)
          (omega (arith, res.fits, count)) in
      undo_range i t _ lt p (rw (count, at) at f)

  -- Mapping one more page.
  extend :
      (i va pa : ℕ) (t r : Vm)
      → i < n
      → vpn_of va ≡ v + i
      → pa ≢ 0
      → Progress s v i t
      → Mapped t va pa r
      → Progress s v (i + 1) r
  extend i va pa t r lt at pos p m = record {
    valid = m.valid;
    done = λ u a b. elim (eq_or_ne u (v + i)) [
      | inl e ↦ λ z. pos (ground (arith, m.translations u))
      | inr ne ↦ λ z. p.done u a (omega arith) (ground (arith, m.translations u, res.fits))
    ];
    rest = λ u h out. ground (arith, m.translations u h, p.rest u h);
    bits = λ u h. elim (eq_or_ne u (v + i)) [
      | inl e ↦ ground (arith, m.virt_bits u, res.set u)
      | inr ne ↦ ground (arith, m.virt_bits u, p.bits u h)
    ];
  }

  marked_progress :
      (i f : ℕ) (t : Vm) → Progress s v i t → IsValid (marking t f) → Progress s v i (marking t f)
  marked_progress i f t p w = record { valid = w; done = p.done; rest = p.rest; bits = p.bits }

  -- A round takes one frame for the page and at most one for a table.
  spend_more : (i : ℕ) (t u : Vm) → Spends s (2 * i + 1) t → Spends t 1 u → Spends s (2 * (i + 1)) u
  spend_more i t u a b =
      let both = Spends-trans s t u (2 * i + 1) 1 a b in
      record { same_pages = both.same_pages; bound = omega (arith, both.bound) }

  -- The address of the page of round `i`.
  abbrev curr_va : ℕ → ℕ
  curr_va i = (va2u (v * 2 ^ 12) + i * pgsize) % u32

  curr_vpn : (i : ℕ) → i < n → vpn_of (curr_va i) ≡ v + i
  curr_vpn i h = omega (arith, res.fits)

  not_mapped_yet :
      (i : ℕ) (t : Vm) → i < n → Progress s v i t → translation t.phys_mem (vpn_of (curr_va i)) ≡ 0
  not_mapped_yet i t lt p = rw (curr_vpn i lt) (
      p.rest (v + i) (omega (arith, res.fits)) (ground arith)
      ∙ res.clear (v + i) (omega arith) (omega arith))

  -- What map_loop makes of the result of map_page, and of that of allocate_phys_page.
  abbrev after_map : ℕ → ℕ → Status × Vm → ℕ × Vm
  after_map rounds i m = elim m.0 [
    | success ↦ map_loop rounds (i + 1) (v * 2 ^ 12) m.1
    | failure ↦ (0, n_free (v * 2 ^ 12) (i * pgsize % u32) m.1)
  ]

  abbrev after_claim : ℕ → ℕ → ℕ × Vm → ℕ × Vm
  after_claim rounds i r = elim (r.0 == invalid_pa) [
    | true ↦ (0, n_free (v * 2 ^ 12) (i * pgsize % u32) r.1)
    | false ↦ after_map rounds i (map_page r.1.page_dir (curr_va i) r.0 r.1)
  ]

  -- A round that got a frame: the page is mapped and the loop goes on, or all is undone.
  claimed_round :
      (rounds i f : ℕ) (t : Vm)
      → i < n
      → Progress s v i (marking t f)
      → Maps
          (marking t f)
          (curr_va i)
          (f * pgsize)
          (map_page (marking t f).page_dir (curr_va i) (f * pgsize) (marking t f))
      → f * pgsize ≢ 0
      → Spends s (2 * i + 1) (marking t f)
      → ((u : Vm)
          → Progress s v (i + 1) u
          → Spends s (2 * (i + 1)) u
          → MapsAll s v n (map_loop rounds (i + 1) (v * 2 ^ 12) u))
      → MapsAll s v n (
          after_map rounds i
            (map_page (marking t f).page_dir (curr_va i) (f * pgsize) (marking t f)))
  claimed_round rounds i f t lt p (entered_page u e m) pos sp more =
      subst (λ x. MapsAll s v n (after_map rounds i x)) (sym e)
        ((more u (extend i (curr_va i) (f * pgsize) (marking t f) u lt (curr_vpn i lt) pos p m)
          (spend_more i (marking t f) u sp m.spends)))
  claimed_round rounds i f t lt p (no_table all e) pos sp more =
      subst (λ x. MapsAll s v n (after_map rounds i x)) (sym e)
        (out_of_frames i _ lt refl (Spends-free_frames s (marking t f) (2 * i + 1) sp all)
          (undo i (marking t f) lt p))

  pub map_loop-MapsAll :
      (rounds i : ℕ) (t : Vm)
      → i + rounds ≡ n
      → Progress s v i t
      → Spends s (2 * i) t
      → MapsAll s v n (map_loop rounds i (v * 2 ^ 12) t)
  unfolding map_loop
  map_loop-MapsAll zero i t e p sp =
      let same : i ≡ n = omega arith in all_mapped t refl (subst (λ k. Progress s v k t) same p)
  map_loop-MapsAll (suc rounds) i t e p sp =
      go (omega arith) (allocate_phys_page-Claims t p.valid)
        (λ u q. map_loop-MapsAll rounds (i + 1) u (omega arith) q)
    where
      go :
          i < n
          → Claims t (allocate_phys_page t)
          → ((u : Vm)
              → Progress s v (i + 1) u
              → Spends s (2 * (i + 1)) u
              → MapsAll s v n (map_loop rounds (i + 1) (v * 2 ^ 12) u))
          → MapsAll s v n (after_claim rounds i (allocate_phys_page t))
      go lt (none_free all q) more =
          subst (λ x. MapsAll s v n (after_claim rounds i x)) (sym q)
            (out_of_frames i _ lt refl (omega (arith, Spends-free_frames s t (2 * i) sp all))
              (undo i t lt p))
      go lt (claimed f hi free q w c) more =
          let good : (f * pgsize == invalid_pa) ≡ false = ne→== _ _ (omega (arith, c.small)) in
          let p' = marked_progress i f t p w in
          let maps =
            map_page-Maps (marking t f) (curr_va i) (f * pgsize) w c.used c.spare c.pos
              (omega (arith, c.small)) (not_mapped_yet i (marking t f) lt p') in
          subst (λ x. MapsAll s v n (after_claim rounds i x)) (sym q)
            (rw (good, after_claim)
              (claimed_round rounds i f t lt p' maps c.pos
                (Spends-trans s t (marking t f) (2 * i) 1 sp
                  (set_bit-Spends t (marking t f) f p.valid.layout.phys_bytes refl refl))
                more))
