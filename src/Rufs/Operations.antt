-- ===== src/Rufs/Operations.antt =====
-- rufs_getattr, rufs_opendir, rufs_readdir, rufs_mkdir, rufs_create, rufs_open and the operations
-- of project4/code/rufs.c that do nothing. Paths are shorter than PATH_MAX.
pub mod Existing
use Prim.Native.Nat.{bit_or}
use cs416_operating_systems.Base.{
  ℕ, zero, suc, ◌+◌, ◌%◌, ◌^◌, Bool, true, false, Option, none, some, List, [], ◌∷◌, ◌++◌, ◌==◌,
  if◌then◌else◌,
}
use cs416_operating_systems.Base.Memory.{Bytes}
use cs416_operating_systems.Base.Copy.{slice}
use cs416_operating_systems.Rufs.{
  minus_one, eio, enoent, enospc, enotdir, eisdir, Result, ok, err, or_fail, is_dir, is_reg,
  type_dir, type_reg,
}
use cs416_operating_systems.Rufs.Device.{bio_read}
use cs416_operating_systems.Rufs.Inode
use cs416_operating_systems.Rufs.Dirent
use cs416_operating_systems.Rufs.Dirent.{ents_per_blk}
use cs416_operating_systems.Rufs.State
use cs416_operating_systems.Rufs.State.{Fs, Outcome, done, fail, Caller}
use cs416_operating_systems.Rufs.Bitmap.{get_avail_ino, get_avail_blkno}
use cs416_operating_systems.Rufs.InodeTable.{put_inode}
use cs416_operating_systems.Rufs.Directory.{dir_add, is_unused_entry}
use cs416_operating_systems.Rufs.Path.{get_node_by_path}
use cs416_operating_systems.Rufs.Path.Names.{dot, dirname, basename}

-- The 144 bytes of `vstat`.
unfoldable pub rufs_getattr : Fs → List ℕ → Result Bytes
rufs_getattr fs path =
    or_fail (get_node_by_path fs path 0) enoent (λ inode. ok (slice inode 112 144))

unfoldable pub rufs_opendir : Fs → List ℕ → Result (Unit {0})
rufs_opendir fs path =
    or_fail (get_node_by_path fs path 0) enoent
      (λ dir_inode. if is_dir (Inode.st_mode dir_inode) then ok tt else err minus_one)

unfoldable pub rufs_open : Fs → List ℕ → Result (Unit {0})
rufs_open fs path =
    or_fail (get_node_by_path fs path 0) enoent
      (λ file_inode. if is_reg (Inode.st_mode file_inode) then ok tt else err eisdir)

-- The C string in `n` bytes from `a` on with a 0 behind them.
unfoldable pub string_at : Bytes → ℕ → ℕ → List ℕ
string_at b a zero = []
string_at b a (suc n) = if b a == 0 then [] else b a ∷ string_at b (a + 1) n

-- The names that the inner loop passes to `filler`, from entry `j` on.
unfoldable pub fill_names : ℕ → ℕ → Bytes → List (List ℕ)
fill_names zero j b = []
fill_names (suc rounds) j b =
    let rest = fill_names rounds (j + 1) b in
    if is_unused_entry b j
    then rest
    else string_at b (Dirent.at j + 4) (Dirent.len b (Dirent.at j)) ∷ rest

-- All calls of `filler` and the result. The names before a failed read have been passed on.
unfoldable pub fill_loop : ℕ → ℕ → Fs → Bytes → List (List ℕ) × Result (Unit {0})
fill_loop zero i fs dir_inode = ([], ok tt)
fill_loop (suc rounds) i fs dir_inode =
    let blk = Inode.direct_ptr dir_inode i in
    let rest = fill_loop rounds (i + 1) fs dir_inode in
    elim (blk == 0) [
      | true ↦ rest
      | false ↦ elim (bio_read blk fs.disk) [
        | none ↦ ([], err eio)
        | some b ↦ (fill_names ents_per_blk 0 b ++ rest.0, rest.1)
      ]
    ]

-- The names "." and "..", then those of the blocks.
unfoldable pub list_all : List (List ℕ) × Result (Unit {0}) → List (List ℕ) × Result (Unit {0})
list_all (names, result) = ((dot ∷ []) ∷ (dot ∷ dot ∷ []) ∷ names, result)

-- `len` of an entry is at most 208.
unfoldable pub rufs_readdir : Fs → List ℕ → List (List ℕ) × Result (Unit {0})
rufs_readdir fs path = elim (get_node_by_path fs path 0) [
  | err e ↦ ([], err enoent)
  | ok dir_inode ↦
      if is_dir (Inode.st_mode dir_inode)
      then list_all (fill_loop 16 0 fs dir_inode)
      else ([], err minus_one)
]

-- The part of a new inode that a directory and a file share.
unfoldable pub new_inode : Caller → ℕ → ℕ → ℕ → ℕ → Bytes
new_inode env new_ino type link mode =
    let n1 = Inode.set_ino (λ _. 0) new_ino in
    let n2 = Inode.set_valid n1 1 in
    let n3 = Inode.set_type n2 type in
    let n4 = Inode.set_size n3 0 in
    let n5 = Inode.set_link n4 link in
    let n6 = Inode.set_st_mode n5 (bit_or type mode) in
    let n7 = Inode.set_st_uid n6 env.uid in
    let n8 = Inode.set_st_gid n7 env.gid in
    let n9 = Inode.set_st_nlink n8 link in
    let n10 = Inode.set_st_atime n9 env.time in Inode.set_st_mtime n10 env.time

unfoldable pub rufs_mkdir : Caller → Fs → List ℕ → ℕ → Outcome (Unit {0})
rufs_mkdir env fs path mode = elim (get_node_by_path fs (dirname path) 0) [
  | err e ↦ fail enoent fs
  | ok parent_inode ↦
      if is_dir (Inode.st_mode parent_inode)
      then State.or_fail (get_avail_ino fs) minus_one (λ new_ino fs1.
        State.or_fail (dir_add fs1 env.dir_time parent_inode new_ino (basename path)) minus_one
          (λ _ fs2. State.or_fail (get_avail_blkno fs2) enospc (λ blk fs3.
            let inode = Inode.set_direct_ptr (new_inode env new_ino type_dir 2 mode) 0 blk in
            done tt (put_inode fs3 new_ino inode))))
      else fail minus_one fs
]

unfoldable pub rufs_create : Caller → Fs → List ℕ → ℕ → Outcome (Unit {0})
rufs_create env fs path mode = elim (get_node_by_path fs (dirname path) 0) [
  | err e ↦ fail enoent fs
  | ok parent_inode ↦
      if is_dir (Inode.st_mode parent_inode)
      then State.or_fail (get_avail_ino fs) enospc (λ new_ino fs1.
        State.or_fail (dir_add fs1 env.dir_time parent_inode new_ino (basename path)) eio
          (λ _ fs2. done tt (put_inode fs2 new_ino (new_inode env new_ino type_reg 1 mode))))
      else fail enotdir fs
]

-- The operations that do nothing and report success.
module _ (fs : Fs) (path : List ℕ) where
  unfoldable pub rufs_rmdir : Outcome (Unit {0})
  rufs_rmdir = done tt fs

  unfoldable pub rufs_releasedir : Outcome (Unit {0})
  rufs_releasedir = done tt fs

  unfoldable pub rufs_unlink : Outcome (Unit {0})
  rufs_unlink = done tt fs

  unfoldable pub rufs_truncate : ℕ → Outcome (Unit {0})
  rufs_truncate size = done tt fs

  unfoldable pub rufs_release : Outcome (Unit {0})
  rufs_release = done tt fs

  unfoldable pub rufs_flush : Outcome (Unit {0})
  rufs_flush = done tt fs

  unfoldable pub rufs_utimens : Outcome (Unit {0})
  rufs_utimens = done tt fs
