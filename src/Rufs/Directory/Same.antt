-- ===== src/Rufs/Directory/Same.antt =====
-- dir_find of project4/code/rufs.c looks only at the blocks of the directory.
use cs416_operating_systems.Base.{
  ℕ, zero, suc, ◌+◌, ◌≤◌, ◌<◌, ◌≡◌, ◌≢◌, refl, inl, inr, List, arith, ltb, length, ◌==◌, ==→ne,
  Bool-cases, Option-cases,
}
use cs416_operating_systems.Base.Memory.{Bytes}
use cs416_operating_systems.Base.Search.{first_slot}
use cs416_operating_systems.Rufs.{ok}
use cs416_operating_systems.Rufs.Device.{bio_read}
use cs416_operating_systems.Rufs.Inode
use cs416_operating_systems.Rufs.Dirent.{ents_per_blk}
use cs416_operating_systems.Rufs.State.{Fs}
use cs416_operating_systems.Rufs.InodeTable.{readi}
use cs416_operating_systems.Rufs.Directory.{is_match, find_loop, dir_find}

module _ (fs fs' : Fs) (n n' : Bytes) (g : List ℕ) where
  -- Block `i` reads the same in both directories, and so do those behind it.
  pub find_loop_kept :
      (rounds i : ℕ)
      → Inode.direct_ptr n' i ≡ Inode.direct_ptr n i
      → (Inode.direct_ptr n i ≢ 0
          → bio_read (Inode.direct_ptr n' i) fs'.disk ≡ bio_read (Inode.direct_ptr n i) fs.disk)
      → find_loop rounds (i + 1) fs' n' g ≡ find_loop rounds (i + 1) fs n g
      → find_loop (suc rounds) i fs' n' g ≡ find_loop (suc rounds) i fs n g
  unfolding find_loop
  find_loop_kept rounds i p same rest = elim (Bool-cases (Inode.direct_ptr n i == 0)) [
    | inl z ↦ rw (find_loop, p, z) rest
    | inr z ↦
        let q = same (==→ne _ _ z) in
        elim (Option-cases (bio_read (Inode.direct_ptr n i) fs.disk)) [
          | inl bad ↦ rw (find_loop, p, z, q, bad) refl
          | inr (b, eb) ↦ elim (Option-cases (first_slot ents_per_blk 0 (is_match b g))) [
            | inl r ↦ rw (find_loop, p, z, q, eb, r) rest
            | inr (k, r) ↦ rw (find_loop, p, z, q, eb, r) refl
          ]
        ]
  ]

module _ (fs fs' : Fs) (n : Bytes) (g : List ℕ)
    (same : (i : ℕ)
      → i < 16
      → Inode.direct_ptr n i ≢ 0
      → bio_read (Inode.direct_ptr n i) fs'.disk ≡ bio_read (Inode.direct_ptr n i) fs.disk) where
  find_loop_same :
      (rounds i : ℕ) → i + rounds ≤ 16 → find_loop rounds i fs' n g ≡ find_loop rounds i fs n g
  unfolding find_loop
  find_loop_same zero i h = refl
  find_loop_same (suc rounds) i h =
      find_loop_kept fs fs' n n g rounds i refl (same i (omega arith))
        (find_loop_same rounds (i + 1) (omega arith))

  -- A step that changes neither the inode of the directory nor its blocks.
  pub dir_find_same :
      (ino : ℕ)
      → readi fs ino ≡ ok n
      → readi fs' ino ≡ readi fs ino
      → dir_find fs' ino g ≡ dir_find fs ino g
  unfolding dir_find
  dir_find_same ino e q = elim (Bool-cases (ltb 208 (length g))) [
    | inl t ↦ rw (dir_find, t) refl
    | inr t ↦ elim (Bool-cases (Inode.valid n == 0)) [
      | inl z ↦ rw (dir_find, t, q, e, z) refl
      | inr z ↦ rw (dir_find, t, q, e, z) (find_loop_same 16 0 (omega arith))
    ]
  ]
