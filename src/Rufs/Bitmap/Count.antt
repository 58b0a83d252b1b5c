-- ===== src/Rufs/Bitmap/Count.antt =====
-- The counts of project4/code/rufs.c: count_used_dblocks and count_used_inodes.
use cs416_operating_systems.Base.{
  ℕ, zero, suc, ◌+◌, ◌≤◌, ◌<◌, ◌≡◌, ◌≢◌, refl, ap, ◌∙◌, inl, inr, true, none, some, arith, sym,
  ◌==◌, Bool-cases, ne→==, ==_self, if◌then◌else◌, eq_or_ne,
}
use cs416_operating_systems.Base.Memory.{Bytes}
use cs416_operating_systems.Rufs.{Superblock, minus_one, ok}
use cs416_operating_systems.Rufs.Device.{can_write, bio_read}
use cs416_operating_systems.Rufs.Device.Blocks.{IsDisk}
use cs416_operating_systems.Rufs.State.{Fs, Outcome, done, fail}
use cs416_operating_systems.Rufs.Bitmap.{
  get_bitmap, count_loop, get_avail_blkno, count_used_dblocks,
}
use cs416_operating_systems.Rufs.Bitmap.Takes.{taken, full, unreadable, get_avail_blkno-Takes}

-- Two bitmaps that differ at most in bit `i`, which the second has and the first has not.
module _ (b b' : Bytes) (i : ℕ) (free : get_bitmap b i ≡ 0)
    (marked : (j : ℕ) → get_bitmap b' j ≡ (if i == j then 1 else get_bitmap b j)) where
  -- Before and past the bit the counts agree.
  same_count :
      (rounds k used : ℕ)
      → ((j : ℕ) → k ≤ j → j < k + rounds → i ≢ j)
      → count_loop rounds k b' used ≡ count_loop rounds k b used
  unfolding count_loop
  same_count zero k used apart = refl
  same_count (suc rounds) k used apart =
      rw (marked k, ne→== i k (apart k (omega arith) (omega arith)))
        (same_count rounds (k + 1) _ (λ j lo hi. apart j (omega arith) (omega arith)))

  count_suc :
      (rounds k used : ℕ) → count_loop rounds k b (suc used) ≡ suc (count_loop rounds k b used)
  unfolding count_loop
  count_suc zero k used = refl
  count_suc (suc rounds) k used = elim (Bool-cases (get_bitmap b k == 0)) [
    | inl e ↦ rw e (count_suc rounds (k + 1) used)
    | inr e ↦
        let shift : suc used + 1 ≡ suc (used + 1) = omega arith in
        rw (e, shift) (count_suc rounds (k + 1) (used + 1))
  ]

  one_more :
      (rounds k used : ℕ)
      → k ≤ i
      → i < k + rounds
      → count_loop rounds k b' used ≡ suc (count_loop rounds k b used)
  unfolding count_loop
  one_more zero k used lo hi = absurd (omega arith)
  one_more (suc rounds) k used lo hi = elim (eq_or_ne i k) [
    | inl e ↦
        let next : used + 1 ≡ suc used = omega arith in
        rw (marked k, e, ==_self k, rw e at free, next)
          (same_count rounds (k + 1) (suc used) (λ j a z. omega (arith, e))
            ∙ count_suc rounds (k + 1) used)
    | inr ne ↦
        rw (marked k, ne→== i k ne) (one_more rounds (k + 1) _ (omega (arith, ne)) (omega arith))
  ]

count_used_dblocks-eq :
    (fs : Fs) (sb : Superblock) (b : Bytes)
    → fs.sb ≡ sb
    → bio_read sb.d_bitmap_blk fs.disk ≡ some b
    → count_used_dblocks fs ≡ ok (count_loop sb.max_dnum 0 b 0)
unfolding count_used_dblocks
count_used_dblocks-eq fs sb b same e = rw (count_used_dblocks, same, e, same) refl

-- A count of `rounds` bits adds at most as many, and as many if all are set.
count_loop-le : (rounds k used : ℕ) (b : Bytes) → count_loop rounds k b used ≤ used + rounds
unfolding count_loop
count_loop-le zero k used b = omega arith
count_loop-le (suc rounds) k used b = elim (Bool-cases (get_bitmap b k == 0)) [
  | inl e ↦ rw e (omega (arith, count_loop-le rounds (k + 1) used b))
  | inr e ↦ rw e (omega (arith, count_loop-le rounds (k + 1) (used + 1) b))
]

count_all :
    (rounds k used : ℕ) (b : Bytes)
    → ((j : ℕ) → k ≤ j → j < k + rounds → get_bitmap b j ≡ 1)
    → count_loop rounds k b used ≡ used + rounds
unfolding count_loop
count_all zero k used b all = omega arith
count_all (suc rounds) k used b all = rw (all k (omega arith) (omega arith)) (
    count_all rounds (k + 1) (used + 1) b (λ j lo hi. all j (omega arith) (omega arith))
    ∙ omega arith)

count_unreadable :
    (fs : Fs) (used : ℕ)
    → bio_read fs.sb.d_bitmap_blk fs.disk ≡ none
    → count_used_dblocks fs ≢ ok used
unfolding count_used_dblocks
count_unreadable fs used eb e = cc (rw (count_used_dblocks, eb) at e)

-- An allocation of a block while `used` are in use: it succeeds exactly if there are more.
pub data Counted (fs : Fs) (used : ℕ) (r : Outcome ℕ) : Type 0 where
  one_taken :
      (i : ℕ) (fs' : Fs)
      → used < fs.sb.max_dnum
      → i < fs.sb.max_dnum
      → r ≡ done (fs.sb.d_start_blk + i) fs'
      → count_used_dblocks fs' ≡ ok (used + 1)
      → Counted fs used r
  none_left : used ≡ fs.sb.max_dnum → r ≡ fail minus_one fs → Counted fs used r

ok_injective : {x y : ℕ} → ok x ≡ ok y → x ≡ y
ok_injective e = cc

-- count_used_dblocks before and after get_avail_blkno, on a disk whose bitmap block can be read and
-- written: while fewer blocks are in use than there are, get_avail_blkno returns a block and one more
-- is in use after it; when as many are in use as there are, it fails with -1 and changes nothing.
pub count_used_dblocks-get_avail_blkno :
    (fs : Fs) (used : ℕ)
    → IsDisk fs.disk
    → can_write fs.disk fs.sb.d_bitmap_blk ≡ true
    → count_used_dblocks fs ≡ ok used
    → Counted fs used (get_avail_blkno fs)
count_used_dblocks-get_avail_blkno fs used h w e = elim (get_avail_blkno-Takes fs h w) [
  | taken i b b' fs' eb hi free before r eb' marks (same, others) ↦
      let old : count_loop fs.sb.max_dnum 0 b 0 ≡ used =
        ok_injective (sym (count_used_dblocks-eq fs fs.sb b refl eb) ∙ e) in
      let more = one_more b b' i free marks fs.sb.max_dnum 0 0 (omega arith) (omega arith) in
      let next : suc used ≡ used + 1 = omega arith in
      one_taken i fs' (omega (arith, more, old, count_loop-le fs.sb.max_dnum 0 0 b')) hi r
        (count_used_dblocks-eq fs' fs.sb b' same eb' ∙ ap ok (more ∙ ap suc old ∙ next))
  | full b eb all r ↦
      none_left
        (ok_injective (sym e ∙ count_used_dblocks-eq fs fs.sb b refl eb)
          ∙ count_all fs.sb.max_dnum 0 0 b (λ j lo hi. all j (omega arith))
          ∙ omega arith)
        r
  | unreadable eb r ↦ absurd (count_unreadable fs used eb e)
]
