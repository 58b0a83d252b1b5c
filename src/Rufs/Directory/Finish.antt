-- ===== src/Rufs/Directory/Finish.antt =====
-- The end of dir_add of project4/code/rufs.c: the block of the new entry and the inode of the
-- directory are written.
use cs416_operating_systems.Base.{
  ℕ, ◌+◌, ◌*◌, ◌^◌, ◌≤◌, ◌<◌, ◌≡◌, ◌≢◌, refl, sym, ◌∙◌, true, some, arith,
}
use cs416_operating_systems.Base.Memory.{Bytes}
use cs416_operating_systems.Base.Copy.{slice}
use cs416_operating_systems.Rufs.{ok}
use cs416_operating_systems.Rufs.Device.{place, can_read, can_write, bio_read}
use cs416_operating_systems.Rufs.Device.Blocks.{
  bio_write-eq, write_through-eq, bio_read-eq, bio_read_place, can_read-write_through,
  can_write-write_through, bio_read-write_through_self, bio_read-write_through_apart,
}
use cs416_operating_systems.Rufs.Inode
use cs416_operating_systems.Rufs.Inode.{inode_size}
use cs416_operating_systems.Rufs.Inode.Fields.{
  load32-slice, load32-set_st_mtime, load16-set_st_mtime, load32-set_size, load16-set_size,
}
use cs416_operating_systems.Rufs.Dirent.{dirent_size}
use cs416_operating_systems.Rufs.State.{Fs, done, put_block}
use cs416_operating_systems.Rufs.InodeTable.{inode_block, readi, put_inode}
use cs416_operating_systems.Rufs.InodeTable.Roundtrip.{readi-writei, bio_read-put_inode}
use cs416_operating_systems.Rufs.Directory.{finish_add}

-- The inode that dir_add writes.
abbrev pub touched : Bytes → ℕ → Bytes
touched n time = Inode.set_st_mtime (Inode.set_size n (Inode.size n + dirent_size)) time

touched-direct_ptr :
    (n : Bytes) (time k : ℕ) → k < 16 → Inode.direct_ptr (touched n time) k ≡ Inode.direct_ptr n k
touched-direct_ptr n time k h =
    load32-set_st_mtime _ time (16 + 4 * k) (omega (arith, h))
    ∙ load32-set_size n _ (16 + 4 * k) (omega arith)

touched-valid : (n : Bytes) (time : ℕ) → Inode.valid (touched n time) ≡ Inode.valid n
touched-valid n time =
    load16-set_st_mtime _ time 2 (omega arith) ∙ load16-set_size n _ 2 (omega arith)

module _ (s : Fs) (n : Bytes) (time blk : ℕ) (c : Bytes) (lt : Inode.ino n < s.sb.max_inum)
    (small : s.sb.max_inum ≤ 2 ^ 16) (valid : Inode.valid n ≢ 0)
    (inode_read : can_read s.disk (inode_block s.sb (Inode.ino n)) ≡ true)
    (inode_write : can_write s.disk (inode_block s.sb (Inode.ino n)) ≡ true)
    (block_read : can_read s.disk blk ≡ true) (block_write : can_write s.disk blk ≡ true)
    (apart : place blk ≢ place (inode_block s.sb (Inode.ino n))) where
  abbrev s1 : Fs
  s1 = put_block blk c s

  abbrev pub finished : Fs
  finished = put_inode s1 (Inode.ino n) (touched n time)

  pub finish_add-done : finish_add s time n blk c ≡ done tt finished
  unfolding finish_add
  finish_add-done =
      rw
        (
          finish_add,
          bio_write-eq blk c s.disk block_write,
          write_through-eq blk c s.disk block_write,
        )
        refl

  pub finished-readi : readi finished (Inode.ino n) ≡ ok (slice (touched n time) 0 inode_size)
  finished-readi =
      let (q, back, others) =
        readi-writei s1 (Inode.ino n) (touched n time) lt small
          (can_read-write_through blk c s.disk _ ∙ inode_read)
          (can_write-write_through blk c s.disk _ ∙ inode_write)
          (rw (touched-valid n time) valid) in
      back

  pub finished-direct_ptr :
      (k : ℕ)
      → k < 16
      → Inode.direct_ptr (slice (touched n time) 0 inode_size) k ≡ Inode.direct_ptr n k
  finished-direct_ptr k h =
      load32-slice (touched n time) (16 + 4 * k) inode_size (omega (arith, h))
      ∙ touched-direct_ptr n time k h

  -- Blocks other than that of the inode are as after the first write.
  from_s1 :
      (k : ℕ)
      → place k ≢ place (inode_block s.sb (Inode.ino n))
      → bio_read k finished.disk ≡ bio_read k s1.disk
  from_s1 k ne =
      bio_read-put_inode s1 (Inode.ino n) (touched n time) _ lt
        (bio_read-eq _ s1.disk (can_read-write_through blk c s.disk _ ∙ inode_read))
        (can_write-write_through blk c s.disk _ ∙ inode_write) k ne

  pub finished_self : (k : ℕ) → place k ≡ place blk → bio_read k finished.disk ≡ some c
  finished_self k e =
      from_s1 k (rw (sym e) at apart)
      ∙ bio_read_place k blk s1.disk e
      ∙ bio_read-write_through_self blk c s.disk block_write block_read

  pub finished_apart :
      (k : ℕ)
      → place k ≢ place blk
      → place k ≢ place (inode_block s.sb (Inode.ino n))
      → bio_read k finished.disk ≡ bio_read k s.disk
  finished_apart k ne ni = from_s1 k ni ∙ bio_read-write_through_apart blk c s.disk k ne
