-- ===== src/Rufs/Directory.antt =====
-- dir_find and dir_add of project4/code/rufs.c. A name is the list of the characters of a C
-- string, and `name_len` its length.
pub mod Find
pub mod Same
pub mod Fill
pub mod Change
pub mod Finish
pub mod Fills
pub mod Add
use cs416_operating_systems.Base.{
  ℕ, zero, suc, ◌+◌, ◌%◌, ◌^◌, Bool, true, false, not, ◌&&◌, Option, none, some, List, length, ltb,
  ◌==◌, if◌then◌else◌,
}
use cs416_operating_systems.Base.Memory.{Bytes}
use cs416_operating_systems.Base.Search.{first_slot}
use cs416_operating_systems.Rufs.{minus_one, eio, enonet, Result, ok, err}
use cs416_operating_systems.Rufs.Device.{bio_read, bio_write}
use cs416_operating_systems.Rufs.Inode
use cs416_operating_systems.Rufs.Dirent
use cs416_operating_systems.Rufs.Dirent.{dirent_size, ents_per_blk, store_name, has_name}
use cs416_operating_systems.Rufs.State.{Fs, Outcome, done, fail, or_fail}
use cs416_operating_systems.Rufs.Bitmap.{get_avail_blkno}
use cs416_operating_systems.Rufs.InodeTable.{readi, put_inode}

-- The test of entry `j`: it is in use, and has the name.
unfoldable pub is_match : Bytes → List ℕ → ℕ → Bool
is_match b fname j =
    let a = Dirent.at j in
    not (Dirent.valid b a == 0)
    && (Dirent.len b a == length fname % 2 ^ 16 && has_name b (a + 4) fname)

-- The loop of dir_find over the blocks, from `i` on.
unfoldable pub find_loop : ℕ → ℕ → Fs → Bytes → List ℕ → Result Bytes
find_loop zero i fs dir_inode fname = err enonet
find_loop (suc rounds) i fs dir_inode fname =
    let blk = Inode.direct_ptr dir_inode i in
    let rest = find_loop rounds (i + 1) fs dir_inode fname in
    elim (blk == 0) [
      | true ↦ rest
      | false ↦ elim (bio_read blk fs.disk) [
        | none ↦ err eio
        | some b ↦ elim (first_slot ents_per_blk 0 (is_match b fname)) [
          | none ↦ rest
          | some j ↦ ok (Dirent.entry b j)
        ]
      ]
    ]

-- `*dirent` on a result that is not negative. readi fails on an inode that is not valid.
unfoldable pub dir_find : Fs → ℕ → List ℕ → Result Bytes
dir_find fs ino fname = if ltb 208 (length fname) then err minus_one else elim (readi fs ino) [
  | err e ↦ err minus_one
  | ok dir_inode ↦
      if Inode.valid dir_inode == 0 then err minus_one else find_loop 16 0 fs dir_inode fname
]

unfoldable pub is_unused_entry : Bytes → ℕ → Bool
is_unused_entry b j = Dirent.valid b (Dirent.at j) == 0

-- The assignments to entry `j`, in a directory block and in a new one.
unfoldable pub fill_entry : Bytes → ℕ → ℕ → List ℕ → Bytes
fill_entry b j f_ino fname =
    let a = Dirent.at j in
    let b1 = Dirent.set_valid b a 1 in
    let b2 = Dirent.set_ino b1 a f_ino in
    let b3 = Dirent.set_len b2 a (length fname) in store_name b3 (a + 4) fname

-- The end of dir_add on both ways: the block is written, and then the inode of the directory.
unfoldable pub finish_add : Fs → ℕ → Bytes → ℕ → Bytes → Outcome (Unit {0})
finish_add fs time dir_inode blk b = elim (bio_write blk b fs.disk) [
  | none ↦ fail eio fs
  | some d ↦
      let inode = Inode.set_size dir_inode (Inode.size dir_inode + dirent_size) in
      let inode' = Inode.set_st_mtime inode time in
      done tt (put_inode (record fs { disk = d }) (Inode.ino dir_inode) inode')
]

-- A new block for the directory.
unfoldable pub add_block : Fs → ℕ → Bytes → ℕ → List ℕ → Outcome (Unit {0})
add_block fs time dir_inode f_ino fname = or_fail (get_avail_blkno fs) minus_one (λ new_blk fs'.
    elim (first_slot 16 0 (λ i. Inode.direct_ptr dir_inode i == 0)) [
      | none ↦ fail minus_one fs'
      | some i ↦
          finish_add fs' time (Inode.set_direct_ptr dir_inode i new_blk) new_blk
            (fill_entry (λ _. 0) 0 f_ino fname)
    ])

-- The loop of dir_add over the blocks, from `i` on, and what follows it.
unfoldable pub add_loop : ℕ → ℕ → Fs → ℕ → Bytes → ℕ → List ℕ → Outcome (Unit {0})
add_loop zero i fs time dir_inode f_ino fname = add_block fs time dir_inode f_ino fname
add_loop (suc rounds) i fs time dir_inode f_ino fname =
    let blk = Inode.direct_ptr dir_inode i in
    let rest = add_loop rounds (i + 1) fs time dir_inode f_ino fname in
    elim (blk == 0) [
      | true ↦ rest
      | false ↦ elim (bio_read blk fs.disk) [
        | none ↦ fail minus_one fs
        | some b ↦ elim (first_slot ents_per_blk 0 (is_unused_entry b)) [
          | none ↦ rest
          | some j ↦ finish_add fs time dir_inode blk (fill_entry b j f_ino fname)
        ]
      ]
    ]

unfoldable pub dir_add : Fs → ℕ → Bytes → ℕ → List ℕ → Outcome (Unit {0})
dir_add fs time dir_inode f_ino fname =
    if ltb 208 (length fname)
    then fail minus_one fs
    else elim (dir_find fs (Inode.ino dir_inode) fname) [
      | ok dirent ↦ fail minus_one fs
      | err e ↦ add_loop 16 0 fs time dir_inode f_ino fname
    ]
