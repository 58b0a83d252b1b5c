-- ===== src/Rufs/Bitmap.antt =====
-- The bitmaps of project4/code: set_bitmap, unset_bitmap and get_bitmap of rufs.h, and
-- get_avail_ino, get_avail_blkno, count_used_inodes and count_used_dblocks of rufs.c. The bitmaps
-- are within one block: max_inum and max_dnum are at most 32768.
pub mod Marks
pub mod Takes
pub mod Count
use Prim.Native.Nat.{bit_and, bit_or}
use cs416_operating_systems.Base.{
  ℕ, zero, suc, ◌+◌, ◌-◌, ◌/◌, ◌%◌, ◌^◌, Bool, true, false, Option, none, some, ◌==◌, if◌then◌else◌,
}
use cs416_operating_systems.Base.Memory.{Bytes, update}
use cs416_operating_systems.Base.Search.{first_slot}
use cs416_operating_systems.Rufs.{Superblock, minus_one, eio, Result, ok, err}
use cs416_operating_systems.Rufs.Device.{bio_read}
use cs416_operating_systems.Rufs.State.{Fs, Outcome, done, fail, put_block}

unfoldable pub set_bitmap : Bytes → ℕ → Bytes
set_bitmap b i = update b (i / 8) (bit_or (b (i / 8)) (2 ^ (i % 8)) % 256)

-- The low byte of `~(1 << k)` is 255 - (1 << k).
unfoldable pub unset_bitmap : Bytes → ℕ → Bytes
unset_bitmap b i = update b (i / 8) (bit_and (b (i / 8)) (255 - 2 ^ (i % 8)) % 256)

unfoldable pub get_bitmap : Bytes → ℕ → ℕ
get_bitmap b i = if bit_and (b (i / 8)) (2 ^ (i % 8)) == 0 then 0 else 1

unfoldable pub is_free : Bytes → ℕ → Bool
is_free b i = get_bitmap b i == 0

unfoldable pub get_avail_ino : Fs → Outcome ℕ
get_avail_ino fs = elim (bio_read fs.sb.i_bitmap_blk fs.disk) [
  | none ↦ fail eio fs
  | some b ↦ elim (first_slot fs.sb.max_inum 0 (is_free b)) [
    | none ↦ fail minus_one fs
    | some i ↦ done i (put_block fs.sb.i_bitmap_blk (set_bitmap b i) fs)
  ]
]

-- The block number is below 2^31, so that it is not a negative `int`.
unfoldable pub get_avail_blkno : Fs → Outcome ℕ
get_avail_blkno fs = elim (bio_read fs.sb.d_bitmap_blk fs.disk) [
  | none ↦ fail eio fs
  | some b ↦ elim (first_slot fs.sb.max_dnum 0 (is_free b)) [
    | none ↦ fail minus_one fs
    | some i ↦ done (fs.sb.d_start_blk + i) (put_block fs.sb.d_bitmap_blk (set_bitmap b i) fs)
  ]
]

-- The loop of the two counts, from `i` on with `used` so far.
unfoldable pub count_loop : ℕ → ℕ → Bytes → ℕ → ℕ
count_loop zero i b used = used
count_loop (suc rounds) i b used =
    count_loop rounds (i + 1) b (if get_bitmap b i == 0 then used else used + 1)

unfoldable pub count_used_dblocks : Fs → Result ℕ
count_used_dblocks fs = elim (bio_read fs.sb.d_bitmap_blk fs.disk) [
  | none ↦ err minus_one
  | some b ↦ ok (count_loop fs.sb.max_dnum 0 b 0)
]

unfoldable pub count_used_inodes : Fs → Result ℕ
count_used_inodes fs = elim (bio_read fs.sb.i_bitmap_blk fs.disk) [
  | none ↦ err minus_one
  | some b ↦ ok (count_loop fs.sb.max_inum 0 b 0)
]
