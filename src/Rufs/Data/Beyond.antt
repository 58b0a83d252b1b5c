-- ===== src/Rufs/Data/Beyond.antt =====
-- rufs_write of project4/code/rufs.c past the blocks that an inode can point to.
use cs416_operating_systems.Base.{
  ℕ, ◌+◌, ◌-◌, ◌/◌, ◌^◌, ◌≤◌, ◌<◌, ◌≡◌, ◌≢◌, refl, ◌∙◌, true, arith, lt→ltb, ==→ne,
}
use cs416_operating_systems.Base.Memory.{Bytes, load16}
use cs416_operating_systems.Base.Copy.{slice}
use cs416_operating_systems.Rufs.{ok}
use cs416_operating_systems.Rufs.Device.{place, can_write, bio_read}
use cs416_operating_systems.Rufs.Device.Blocks.{bio_read-some}
use cs416_operating_systems.Rufs.Inode
use cs416_operating_systems.Rufs.Inode.{inode_size}
use cs416_operating_systems.Rufs.Inode.Fields.{
  load32-slice, load32-set_st_mtime, load16-set_st_mtime, load32-set_st_size, load16-set_st_size,
  load16-set_size, size-set_size,
}
use cs416_operating_systems.Rufs.State.{Fs, done}
use cs416_operating_systems.Rufs.InodeTable.{inode_block, readi, put_inode}
use cs416_operating_systems.Rufs.InodeTable.Roundtrip.{readi-ok, readi-writei, bio_read-put_inode}
use cs416_operating_systems.Rufs.Data.{write_loop, resize, grow, write_file}

-- The fields that other assignments to the inode keep.
abbrev pub stamped : Bytes → ℕ → ℕ → Bytes
stamped n end time = Inode.set_st_mtime (resize n end) time

stamped-size : (n : Bytes) (end time : ℕ) → end < 2 ^ 32 → Inode.size (stamped n end time) ≡ end
unfolding resize
stamped-size n end time h =
    load32-set_st_mtime _ time 4 (omega arith)
    ∙ load32-set_st_size _ _ 4 (omega arith)
    ∙ size-set_size n end h

stamped-load16 : (n : Bytes) (end time a : ℕ) → a ≤ 2 → load16 (stamped n end time) a ≡ load16 n a
unfolding resize
stamped-load16 n end time a h =
    load16-set_st_mtime _ time a h ∙ load16-set_st_size _ _ a h ∙ load16-set_size n end a h

-- write_file at an offset from 65536 on and below 2^32, which is past the file, to an inode as it
-- stands on the disk, in a block that can be written, of at most 2^16 inodes: it reports 0 and changes
-- no block but that of the inode and no other inode in it, yet the inode on the disk then has the
-- offset for its size.
pub write_file_beyond :
    (time : ℕ) (fs : Fs) (n : Bytes) (size offset : ℕ) (buffer : Bytes)
    → readi fs (Inode.ino n) ≡ ok n
    → fs.sb.max_inum ≤ 2 ^ 16
    → can_write fs.disk (inode_block fs.sb (Inode.ino n)) ≡ true
    → 65536 ≤ offset
    → offset < 2 ^ 32
    → Inode.size n < offset
    → (fs' : Fs) × (n' : Bytes) × (write_file time fs n size offset buffer ≡ done 0 fs')
      × (readi fs' (Inode.ino n) ≡ ok n')
      × (Inode.size n' ≡ offset)
      × ((m : ℕ)
          → place m ≢ place (inode_block fs.sb (Inode.ino n))
          → bio_read m fs'.disk ≡ bio_read m fs.disk)
      × ((other : ℕ) → other < 2 ^ 16 → other ≢ Inode.ino n → readi fs' other ≡ readi fs other)
unfolding write_file write_loop grow
write_file_beyond time fs n size offset buffer stored small w far near past =
    let (lt, valid, (b, e)) = readi-ok fs (Inode.ino n) n stored in
    let n1 = stamped n offset time in
    let rounds : 16 - offset / 4096 ≡ 0 = omega (arith, far) in
    let end : offset + 0 ≡ offset = omega arith in
    let number : Inode.ino n1 ≡ Inode.ino n = stamped-load16 n offset time 0 (omega arith) in
    let same_valid : Inode.valid n1 ≡ Inode.valid n =
      stamped-load16 n offset time 2 (omega arith) in
    let (q, back, others) =
      readi-writei fs (Inode.ino n) n1 lt small (bio_read-some _ fs.disk b e).0 w
        (rw same_valid (==→ne _ _ valid)) in
    (
      put_inode fs (Inode.ino n) n1,
      slice n1 0 inode_size,
      rw (write_file, rounds, end, lt→ltb _ _ past, number) refl,
      back,
      load32-slice n1 4 inode_size (omega arith) ∙ stamped-size n offset time near,
      λ m ne. bio_read-put_inode fs (Inode.ino n) n1 b lt e w m ne,
      others,
    )
