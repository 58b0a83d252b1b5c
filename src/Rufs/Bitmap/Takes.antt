-- ===== src/Rufs/Bitmap/Takes.antt =====
-- What get_avail_ino and get_avail_blkno of project4/code/rufs.c take and what they leave alone.
use cs416_operating_systems.Base.{
  ℕ, ◌+◌, ◌<◌, ◌≡◌, ◌≢◌, refl, inl, inr, true, none, some, arith, ◌==◌, if◌then◌else◌, Option-cases,
}
use cs416_operating_systems.Base.Memory.{Bytes}
use cs416_operating_systems.Base.Search.{found, missing, search_lem}
use cs416_operating_systems.Rufs.{minus_one, eio}
use cs416_operating_systems.Rufs.Device.{place, can_write, bio_read}
use cs416_operating_systems.Rufs.Device.Blocks.{
  IsDisk, bio_read-some, bio_read-IsBytes, bio_read-write_through_self,
  bio_read-write_through_apart,
}
use cs416_operating_systems.Rufs.State.{Fs, Outcome, done, fail, put_block}
use cs416_operating_systems.Rufs.Bitmap.{
  get_bitmap, set_bitmap, is_free, get_avail_ino, get_avail_blkno,
}
use cs416_operating_systems.Rufs.Bitmap.Marks.{get_bitmap-set_bitmap, is_free-true, is_free-false}

-- A step that changes no other block than `blk`.
abbrev pub Keeps : Fs → Fs → ℕ → Type 0
Keeps fs fs' blk =
    (fs'.sb ≡ fs.sb) × ((m : ℕ) → place m ≢ place blk → bio_read m fs'.disk ≡ bio_read m fs.disk)

-- An allocation from the bitmap in the block `blk`, which has bits for `max` things: the lowest
-- that is free, by its `number`; or an error, and the state as it was.
pub data Takes (fs : Fs) (blk max : ℕ) (number : ℕ → ℕ) (r : Outcome ℕ) : Type 0 where
  taken :
      (i : ℕ) (b b' : Bytes) (fs' : Fs)
      → bio_read blk fs.disk ≡ some b
      → i < max
      → get_bitmap b i ≡ 0
      → ((j : ℕ) → j < i → get_bitmap b j ≡ 1)
      → r ≡ done (number i) fs'
      → bio_read blk fs'.disk ≡ some b'
      → ((j : ℕ) → get_bitmap b' j ≡ (if i == j then 1 else get_bitmap b j))
      → Keeps fs fs' blk
      → Takes fs blk max number r
  full :
      (b : Bytes)
      → bio_read blk fs.disk ≡ some b
      → ((j : ℕ) → j < max → get_bitmap b j ≡ 1)
      → r ≡ fail minus_one fs
      → Takes fs blk max number r
  unreadable : bio_read blk fs.disk ≡ none → r ≡ fail eio fs → Takes fs blk max number r

module _ (fs : Fs) (blk max : ℕ) (number : ℕ → ℕ) (h : IsDisk fs.disk)
    (w : can_write fs.disk blk ≡ true) where
  take :
      (i : ℕ) (b : Bytes)
      → bio_read blk fs.disk ≡ some b
      → i < max
      → is_free b i ≡ true
      → ((j : ℕ) → j < i → get_bitmap b j ≡ 1)
      → Takes fs blk max number (done (number i) (put_block blk (set_bitmap b i) fs))
  take i b e hi free before =
      taken i b (set_bitmap b i) (put_block blk (set_bitmap b i) fs) e hi (is_free-true b i free)
        before refl
        (bio_read-write_through_self blk (set_bitmap b i) fs.disk w
          (bio_read-some blk fs.disk b e).0)
        (λ j. get_bitmap-set_bitmap b i j (bio_read-IsBytes blk fs.disk b e h))
        (refl, λ m ne. bio_read-write_through_apart blk (set_bitmap b i) fs.disk m ne)

-- get_avail_blkno, on a disk whose bitmap block can be written: it takes the lowest free block and
-- sets its bit, no other bit and no other block; it fails with -1 if every bit is set and with EIO
-- if the bitmap cannot be read, and changes nothing then.
pub get_avail_blkno-Takes :
    (fs : Fs)
    → IsDisk fs.disk
    → can_write fs.disk fs.sb.d_bitmap_blk ≡ true
    → Takes fs fs.sb.d_bitmap_blk fs.sb.max_dnum (λ i. fs.sb.d_start_blk + i) (get_avail_blkno fs)
unfolding get_avail_blkno
get_avail_blkno-Takes fs h w = elim (Option-cases (bio_read fs.sb.d_bitmap_blk fs.disk)) [
  | inl e ↦ rw (get_avail_blkno, e) (unreadable e refl)
  | inr (b, e) ↦ elim (search_lem fs.sb.max_dnum (is_free b)) [
    | found i r lo hi t before ↦
        rw (get_avail_blkno, e, r)
          (take fs _ _ (λ i. fs.sb.d_start_blk + i) h w i b e hi t
            (λ j lt. is_free-false b j (before j (omega arith) lt)))
    | missing r all ↦
        rw (get_avail_blkno, e, r)
          (full b e (λ j lt. is_free-false b j (all j (omega arith) lt)) refl)
  ]
]

-- get_avail_ino, on a disk whose bitmap block can be written: it takes the lowest free inode and
-- sets its bit, no other bit and no other block; it fails with -1 if every bit is set and with EIO
-- if the bitmap cannot be read, and changes nothing then.
pub get_avail_ino-Takes :
    (fs : Fs)
    → IsDisk fs.disk
    → can_write fs.disk fs.sb.i_bitmap_blk ≡ true
    → Takes fs fs.sb.i_bitmap_blk fs.sb.max_inum (λ i. i) (get_avail_ino fs)
unfolding get_avail_ino
get_avail_ino-Takes fs h w = elim (Option-cases (bio_read fs.sb.i_bitmap_blk fs.disk)) [
  | inl e ↦ rw (get_avail_ino, e) (unreadable e refl)
  | inr (b, e) ↦ elim (search_lem fs.sb.max_inum (is_free b)) [
    | found i r lo hi t before ↦
        rw (get_avail_ino, e, r)
          (take fs _ _ (λ i. i) h w i b e hi t
            (λ j lt. is_free-false b j (before j (omega arith) lt)))
    | missing r all ↦
        rw (get_avail_ino, e, r)
          (full b e (λ j lt. is_free-false b j (all j (omega arith) lt)) refl)
  ]
]
