-- ===== src/Rufs/Format.antt =====
-- rufs_mkfs, rufs_init and rufs_destroy of project4/code/rufs.c.
pub mod Mount
use cs416_operating_systems.Base.{ℕ, ◌+◌, ◌-◌, ◌/◌, Bool, true, false, Option, none, some}
use cs416_operating_systems.Base.Memory.{Bytes}
use cs416_operating_systems.Base.Copy.{memcpy}
use cs416_operating_systems.Rufs.{
  Superblock, superblock_size, superblock_at, store_superblock, magic_num, max_inum, max_dnum,
  minus_one, eio, Result, type_dir,
}
use cs416_operating_systems.Rufs.Device.{
  Disk, dev_init, dev_open, dev_close, bio_read, bio_write, write_through,
}
use cs416_operating_systems.Rufs.Inode
use cs416_operating_systems.Rufs.Inode.{inodes_per_block}
use cs416_operating_systems.Rufs.State.{Fs, Outcome, done, fail, or_fail, put_block, Caller}
use cs416_operating_systems.Rufs.Bitmap.{set_bitmap, count_used_dblocks, count_used_inodes}
use cs416_operating_systems.Rufs.InodeTable.{put_inode}

abbrev zeros : Bytes
zeros _ = 0

abbrev inode_blocks : ℕ
inode_blocks = (max_inum + inodes_per_block - 1) / inodes_per_block

abbrev pub new_sb : Superblock
new_sb = record {
  magic_num = magic_num;
  max_inum = max_inum;
  max_dnum = max_dnum;
  i_bitmap_blk = 1;
  d_bitmap_blk = 2;
  i_start_blk = 3;
  d_start_blk = 3 + inode_blocks;
}

-- The first block: the superblock, copied into a buffer of zeros.
unfoldable pub first_block : Bytes
first_block = memcpy zeros 0 (store_superblock zeros new_sb) 0 superblock_size

-- The inode of the root directory. `mode` is `__S_IFDIR | 0755`.
unfoldable pub root_inode : Caller → Bytes
root_inode env =
    let n1 = Inode.set_ino zeros 0 in
    let n2 = Inode.set_valid n1 1 in
    let n3 = Inode.set_type n2 type_dir in
    let n4 = Inode.set_size n3 0 in
    let n5 = Inode.set_link n4 2 in
    let n6 = Inode.set_direct_ptr n5 0 new_sb.d_start_blk in
    let n7 = Inode.set_st_atime n6 env.time in
    let n8 = Inode.set_st_mtime n7 env.time in
    let n9 = Inode.set_st_mode n8 16877 in
    let n10 = Inode.set_st_uid n9 env.uid in
    let n11 = Inode.set_st_gid n10 env.gid in Inode.set_st_nlink n11 2

-- The writes that follow the first: the two bitmaps and the block of the root directory.
unfoldable pub write_regions : Disk → Disk
write_regions d =
    let d1 = write_through new_sb.i_bitmap_blk (set_bitmap zeros 0) d in
    let d2 = write_through new_sb.d_bitmap_blk (set_bitmap zeros 0) d1 in
    write_through new_sb.d_start_blk zeros d2

-- `none` is the exit of the process in dev_init.
unfoldable pub rufs_mkfs : Caller → Fs → Option (Outcome (Unit {0}))
rufs_mkfs env fs = elim (dev_init fs.disk) [
  | none ↦ none
  | some d ↦ elim (bio_write 0 first_block d) [
    | none ↦ some (fail minus_one (record fs { disk = d }))
    | some d' ↦
        let fs' : Fs = record { sb = new_sb; disk = write_regions d' } in
        some (done tt (put_inode fs' 0 (root_inode env)))
  ]
]

-- The end of rufs_init, which reads the superblock.
unfoldable pub read_superblock : Fs → Outcome (Unit {0})
read_superblock fs = elim (bio_read 0 fs.disk) [
  | none ↦ fail eio fs
  | some b ↦ done tt (record fs { sb = superblock_at b })
]

-- `none` is the exit of the process.
unfoldable pub rufs_init : Caller → Fs → Option (Outcome (Unit {0}))
rufs_init env fs = elim fs.disk.exists_file [
  | true ↦ elim (dev_open fs.disk) [
    | none ↦ some (fail minus_one fs)
    | some d ↦ some (read_superblock (record fs { disk = d }))
  ]
  | false ↦ elim (rufs_mkfs env fs) [
    | none ↦ none
    | some r ↦ some (or_fail r minus_one (λ _ fs'. read_superblock fs'))
  ]
]

-- The two counts that are printed, and the state after the disk is closed.
unfoldable pub rufs_destroy : Fs → Result ℕ × Result ℕ × Fs
rufs_destroy fs =
    (count_used_dblocks fs, count_used_inodes fs, record fs { disk = dev_close fs.disk })
