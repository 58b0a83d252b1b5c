-- ===== src/Rufs/InodeTable.antt =====
-- readi and writei of project4/code/rufs.c.
pub mod Roundtrip
use cs416_operating_systems.Base.{
  ℕ, ◌+◌, ◌*◌, ◌/◌, ◌%◌, ◌^◌, Bool, true, false, Option, none, some, ltb, ◌==◌, if◌then◌else◌,
}
use cs416_operating_systems.Base.Memory.{Bytes}
use cs416_operating_systems.Base.Copy.{memcpy, slice}
use cs416_operating_systems.Rufs.{Superblock, minus_one, eio, enoent, Result, ok, err}
use cs416_operating_systems.Rufs.Device.{bio_read, bio_write}
use cs416_operating_systems.Rufs.Inode
use cs416_operating_systems.Rufs.Inode.{inode_size, inodes_per_block}
use cs416_operating_systems.Rufs.State.{Fs, Outcome, done, fail, after}

-- `block_num` and `offset` of an inode.
abbrev pub inode_block : Superblock → ℕ → ℕ
inode_block sb ino = (sb.i_start_blk + ino / inodes_per_block) % 2 ^ 32

abbrev pub inode_offset : ℕ → ℕ
inode_offset ino = ino % inodes_per_block * inode_size

-- `*inode` on a result that is not negative.
unfoldable pub readi : Fs → ℕ → Result Bytes
readi fs ino =
    if ltb ino fs.sb.max_inum
    then elim (bio_read (inode_block fs.sb ino) fs.disk) [
      | none ↦ err eio
      | some b ↦
          let inode = slice b (inode_offset ino) inode_size in
          if Inode.valid inode == 0 then err enoent else ok inode
    ]
    else err enoent

unfoldable pub writei : Fs → ℕ → Bytes → Outcome (Unit {0})
writei fs ino inode =
    if ltb ino fs.sb.max_inum
    then elim (bio_read (inode_block fs.sb ino) fs.disk) [
      | none ↦ fail eio fs
      | some b ↦
          elim (bio_write (inode_block fs.sb ino) (memcpy b (inode_offset ino) inode 0 inode_size)
            fs.disk) [ none ↦ fail eio fs | some d ↦ done tt (record fs { disk = d }) ]
    ]
    else fail minus_one fs

-- writei whose caller ignores the result.
abbrev pub put_inode : Fs → ℕ → Bytes → Fs
put_inode fs ino inode = after (writei fs ino inode)
