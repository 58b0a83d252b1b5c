-- ===== src/Rufs/Data.antt =====
-- rufs_read and rufs_write of project4/code/rufs.c. A buffer is a function from positions to bytes;
-- offsets are not negative and below 2^43, so that `start_blk` fits an `int`.
pub mod Beyond
pub mod Content
pub mod Writing
pub mod Reading
pub mod Roundtrip
use cs416_operating_systems.Base.{
  ℕ, zero, suc, ◌+◌, ◌-◌, ◌*◌, ◌/◌, ◌%◌, ◌^◌, Bool, true, false, not, ◌||◌, Option, none, some,
  List, ltb, leb, ◌==◌, if◌then◌else◌,
}
use cs416_operating_systems.Base.Memory.{Bytes}
use cs416_operating_systems.Base.Copy.{memcpy}
use cs416_operating_systems.Rufs.{
  enoent, enospc, eisdir, Result, ok, err, or_fail, is_reg, block_size,
}
use cs416_operating_systems.Rufs.Device.{read_buffer}
use cs416_operating_systems.Rufs.Inode
use cs416_operating_systems.Rufs.State
use cs416_operating_systems.Rufs.State.{Fs, Outcome, done, fail, put_block}
use cs416_operating_systems.Rufs.Bitmap.{get_avail_blkno}
use cs416_operating_systems.Rufs.InodeTable.{put_inode}
use cs416_operating_systems.Rufs.Path.{get_node_by_path}

-- `to_copy`, with `left` bytes to go.
abbrev pub chunk : ℕ → ℕ → ℕ
chunk blk_offset left =
    let to_copy = block_size - blk_offset in if ltb left to_copy then left else to_copy

-- The loop of rufs_read with `k` for bytes_read: the bytes read and the buffer.
unfoldable pub read_loop : ℕ → ℕ → Fs → Bytes → ℕ → ℕ → ℕ → Bytes → ℕ × Bytes
read_loop zero i fs file_inode size k blk_offset buffer = (k, buffer)
read_loop (suc rounds) i fs file_inode size k blk_offset buffer =
    let blkno = Inode.direct_ptr file_inode i in
    let n = chunk blk_offset (size - k) in
    let buffer' = memcpy buffer k (read_buffer blkno fs.disk) blk_offset n in
    elim (leb size k || blkno == 0) [
      | true ↦ (k, buffer)
      | false ↦ read_loop rounds (i + 1) fs file_inode size (k + n) 0 buffer'
    ]

-- rufs_read from an inode.
unfoldable pub read_file : Fs → Bytes → ℕ → ℕ → Bytes → ℕ × Bytes
read_file fs file_inode size offset buffer =
    let file_size = Inode.size file_inode in
    let start_blk = offset / block_size in
    if leb file_size offset
    then (0, buffer)
    else let size' =
        if ltb file_size ((offset + size) % 2 ^ 64) then file_size - offset else size in
      read_loop (16 - start_blk) start_blk fs file_inode size' 0 (offset % block_size) buffer

unfoldable pub rufs_read : Fs → List ℕ → ℕ → ℕ → Bytes → Result (ℕ × Bytes)
rufs_read fs path size offset buffer = or_fail (get_node_by_path fs path 0) enoent (λ file_inode.
    if is_reg (Inode.st_mode file_inode)
    then ok (read_file fs file_inode size offset buffer)
    else err eisdir)

-- The inode with a block for the index `i`, which is allocated if it is missing.
unfoldable pub with_block : Fs → Bytes → ℕ → Outcome Bytes
with_block fs file_inode i =
    if Inode.direct_ptr file_inode i == 0
    then State.or_fail (get_avail_blkno fs) enospc
        (λ blk fs'. done (Inode.set_direct_ptr file_inode i blk) fs')
    else done file_inode fs

-- The loop of rufs_write with `k` for bytes_written: the bytes written and the new inode.
unfoldable pub write_loop : ℕ → ℕ → Fs → Bytes → ℕ → ℕ → ℕ → Bytes → Outcome (ℕ × Bytes)
write_loop zero i fs file_inode size k blk_offset buffer = done (k, file_inode) fs
write_loop (suc rounds) i fs file_inode size k blk_offset buffer = elim (leb size k) [
  | true ↦ done (k, file_inode) fs
  | false ↦ elim (with_block fs file_inode i) [
    | fail e fs1 ↦ fail e fs1
    | done inode fs1 ↦
        let blk = Inode.direct_ptr inode i in
        let n = chunk blk_offset (size - k) in
        let blockbuffer = memcpy (read_buffer blk fs1.disk) blk_offset buffer k n in
        write_loop rounds (i + 1) (put_block blk blockbuffer fs1) inode size (k + n) 0 buffer
  ]
]

-- The new size, which `vstat` takes over.
unfoldable pub resize : Bytes → ℕ → Bytes
resize file_inode end =
    let inode = Inode.set_size file_inode end in Inode.set_st_size inode (Inode.size inode)

-- A write that ends past the old size sets it.
unfoldable pub grow : Bytes → ℕ → Bytes
grow file_inode end = if ltb (Inode.size file_inode) end then resize file_inode end else file_inode

-- rufs_write to an inode.
unfoldable pub write_file : ℕ → Fs → Bytes → ℕ → ℕ → Bytes → Outcome ℕ
write_file time fs file_inode size offset buffer =
    let start_blk = offset / block_size in
    elim (write_loop (16 - start_blk) start_blk fs file_inode size 0 (offset % block_size) buffer) [
      | fail e fs' ↦ fail e fs'
      | done (written, inode) fs' ↦
          let inode' = Inode.set_st_mtime (grow inode (offset + written)) time in
          done written (put_inode fs' (Inode.ino inode') inode')
    ]

unfoldable pub rufs_write : ℕ → Fs → List ℕ → ℕ → ℕ → Bytes → Outcome ℕ
rufs_write time fs path size offset buffer = elim (get_node_by_path fs path 0) [
  | err e ↦ fail enoent fs
  | ok file_inode ↦
      if is_reg (Inode.st_mode file_inode)
      then write_file time fs file_inode size offset buffer
      else fail eisdir fs
]
