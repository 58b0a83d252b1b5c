-- ===== src/Rufs/Directory/Add.antt =====
-- dir_add of project4/code/rufs.c followed by dir_find: an entry that was not in use is filled.
use cs416_operating_systems.Base.{
  ℕ, ◌%◌, ◌^◌, ◌≤◌, ◌<◌, ◌≡◌, ◌≢◌, refl, sym, ◌∙◌, inl, inr, true, none, some, List, arith, length,
  le→ltb, ==→ne, eq_or_ne,
}
use cs416_operating_systems.Base.Memory.{Bytes}
use cs416_operating_systems.Base.Copy.{slice}
use cs416_operating_systems.Rufs.{enonet, ok, err}
use cs416_operating_systems.Rufs.Device.{place, can_read, bio_read}
use cs416_operating_systems.Rufs.Device.Blocks.{bio_read-eq, bio_read-some, bio_read_place}
use cs416_operating_systems.Rufs.Inode
use cs416_operating_systems.Rufs.Inode.{inode_size}
use cs416_operating_systems.Rufs.Dirent
use cs416_operating_systems.Rufs.Dirent.{ents_per_blk}
use cs416_operating_systems.Rufs.State.{Fs, done, after, put_block}
use cs416_operating_systems.Rufs.InodeTable.{inode_block, readi, put_inode}
use cs416_operating_systems.Rufs.InodeTable.Roundtrip.{readi-ok}
use cs416_operating_systems.Rufs.Directory.{fill_entry, find_loop, dir_find, finish_add, dir_add}
use cs416_operating_systems.Rufs.Directory.Fills.{
  IsDirectory, Unused, fills, packed, broken, add_loop-Fills,
}
use cs416_operating_systems.Rufs.Directory.Find.{Lacks, dir_find-eq, dir_find-Lacks}
use cs416_operating_systems.Rufs.Directory.Finish.{
  touched, finish_add-done, finished-readi, finished-direct_ptr, finished_self, finished_apart,
}
use cs416_operating_systems.Rufs.Directory.Change.{
  Slot, kept, entry, find_loop_new, find_loop_others,
}

-- What filling the entry leaves.
module _ (fs : Fs) (time : ℕ) (n : Bytes) (f_ino : ℕ) (fname : List ℕ) (short : length fname ≤ 208)
    (dir : IsDirectory fs n) (i j : ℕ) (b : Bytes) (hi : i < 16) (u : Unused fs n i j b) where
  abbrev blk : ℕ
  blk = Inode.direct_ptr n i

  abbrev c : Bytes
  c = fill_entry b j f_ino fname

  abbrev end : Fs
  end = put_inode (put_block blk c fs) (Inode.ino n) (touched n time)

  abbrev n' : Bytes
  n' = slice (touched n time) 0 inode_size

  table : Inode.ino n < fs.sb.max_inum
  table = (readi-ok fs (Inode.ino n) n dir.stored).0

  valid : Inode.valid n ≢ 0
  valid = let (t, v, d) = readi-ok fs (Inode.ino n) n dir.stored in ==→ne _ _ v

  inode_read : can_read fs.disk (inode_block fs.sb (Inode.ino n)) ≡ true
  inode_read =
      let (t, v, (d, e)) = readi-ok fs (Inode.ino n) n dir.stored in (bio_read-some _ fs.disk d e).0

  pointer : (k : ℕ) → k < 16 → Inode.direct_ptr n' k ≡ Inode.direct_ptr n k
  pointer k h =
      finished-direct_ptr fs n time blk c table dir.small valid inode_read dir.inode_write
        (dir.block_read i hi u.in_use) (dir.block_write i hi u.in_use) (dir.apart i hi u.in_use) k h

  same_place :
      (k : ℕ)
      → k < 16
      → place (Inode.direct_ptr n k) ≡ place blk
      → bio_read (Inode.direct_ptr n' k) end.disk ≡ some c
  same_place k h e = rw (pointer k h) (
      finished_self fs n time blk c table dir.small valid inode_read dir.inode_write
        (dir.block_read i hi u.in_use) (dir.block_write i hi u.in_use) (dir.apart i hi u.in_use)
        (Inode.direct_ptr n k) e)

  other_place :
      (k : ℕ)
      → k < 16
      → Inode.direct_ptr n k ≢ 0
      → place (Inode.direct_ptr n k) ≢ place blk
      → bio_read (Inode.direct_ptr n' k) end.disk ≡ bio_read (Inode.direct_ptr n k) fs.disk
  other_place k h nz ne = rw (pointer k h) (
      finished_apart fs n time blk c table dir.small valid inode_read dir.inode_write
        (dir.block_read i hi u.in_use) (dir.block_write i hi u.in_use) (dir.apart i hi u.in_use)
        (Inode.direct_ptr n k) ne (dir.apart k h nz))

  slots : (k : ℕ) → k < 16 → Slot fs end n n' f_ino fname k
  slots k h = elim (eq_or_ne (Inode.direct_ptr n k) 0) [
    | inl z ↦ kept (pointer k h) (λ nz. absurd (nz z))
    | inr nz ↦ elim (eq_or_ne (place (Inode.direct_ptr n k)) (place blk)) [
      | inl e ↦
          entry b j nz (rw (pointer k h) nz) (bio_read_place _ _ fs.disk e ∙ u.block) u.in_block
            u.free (same_place k h e)
      | inr ne ↦ kept (pointer k h) (λ q. other_place k h nz ne)
    ]
  ]

  readable :
      (k : ℕ)
      → k < 16
      → Inode.direct_ptr n' k ≢ 0
      → bio_read (Inode.direct_ptr n' k) end.disk ≢ none
  readable k h nz q =
      let nz0 : Inode.direct_ptr n k ≢ 0 = rw (pointer k h) at nz in
      elim (eq_or_ne (place (Inode.direct_ptr n k)) (place blk)) [
        | inl e ↦ cc (q, same_place k h e)
        | inr ne ↦ cc (q, other_place k h nz0 ne, bio_read-eq _ fs.disk (dir.block_read k h nz0))
      ]

  stored' : readi end (Inode.ino n) ≡ ok n'
  stored' =
      finished-readi fs n time blk c table dir.small valid inode_read dir.inode_write
        (dir.block_read i hi u.in_use) (dir.block_write i hi u.in_use) (dir.apart i hi u.in_use)

  done_end : finish_add fs time n blk c ≡ done tt end
  done_end =
      finish_add-done fs n time blk c table dir.small valid inode_read dir.inode_write
        (dir.block_read i hi u.in_use) (dir.block_write i hi u.in_use) (dir.apart i hi u.in_use)

  -- The searches of the directory from its inode number.
  searches : (g : List ℕ) → length g ≤ 208 → dir_find end (Inode.ino n) g ≡ find_loop 16 0 end n' g
  searches g h = dir_find-eq end (Inode.ino n) n' g h stored'

  finds_new :
      Lacks fs n fname 0 16
      → (dirent : Bytes) × (dir_find end (Inode.ino n) fname ≡ ok dirent)
        × (Dirent.ino dirent 0 ≡ f_ino % 2 ^ 16)
  finds_new lacks =
      let (dirent, e, number) =
        find_loop_new fs end n n' f_ino fname short slots lacks i j b hi u.in_block
          (rw (pointer i hi) u.in_use) (same_place i hi refl) readable in
      (dirent, searches fname short ∙ e, number)

  finds_others :
      (g : List ℕ)
      → length g ≤ 208
      → g ≢ fname
      → dir_find end (Inode.ino n) g ≡ dir_find fs (Inode.ino n) g
  finds_others g h ne =
      searches g h
      ∙ find_loop_others fs end n n' f_ino fname short slots g h ne 16 0 (omega arith)
      ∙ sym (dir_find-eq fs (Inode.ino n) n g h dir.stored)

-- dir_add of a name that a readable directory lacks, while one of its blocks has an entry that is
-- not in use: it succeeds; dir_find then returns an entry with the number of the new file, and for
-- every other name what it returned before.
pub dir_find-dir_add :
    (fs : Fs) (time : ℕ) (n : Bytes) (f_ino : ℕ) (fname : List ℕ) (i j : ℕ) (b : Bytes)
    → IsDirectory fs n
    → length fname ≤ 208
    → dir_find fs (Inode.ino n) fname ≡ err enonet
    → i < 16
    → Unused fs n i j b
    → let fs' = after (dir_add fs time n f_ino fname) in
      (dir_add fs time n f_ino fname ≡ done tt fs')
      × ((dirent : Bytes) × (dir_find fs' (Inode.ino n) fname ≡ ok dirent)
          × (Dirent.ino dirent 0 ≡ f_ino % 2 ^ 16))
      × ((g : List ℕ)
          → length g ≤ 208
          → g ≢ fname
          → dir_find fs' (Inode.ino n) g ≡ dir_find fs (Inode.ino n) g)
unfolding dir_add
dir_find-dir_add fs time n f_ino fname i j b dir short missed hi u =
    let lacks = dir_find-Lacks fs (Inode.ino n) n fname short dir.stored missed in
    elim (add_loop-Fills fs time n f_ino fname 16 0) [
      | fills x y c lo lt v r ↦
          rw
            (
              dir_add,
              le→ltb _ _ short,
              missed,
              r,
              done_end fs time n f_ino fname short dir x y c (omega (arith, lt)) v,
            )
            (
              refl,
              finds_new fs time n f_ino fname short dir x y c (omega (arith, lt)) v lacks,
              finds_others fs time n f_ino fname short dir x y c (omega (arith, lt)) v,
            )
      | packed all r ↦ absurd (all i j b (omega arith) (omega (arith, hi)) u)
      | broken x lo lt nz bad r ↦
          absurd (cc (bad, bio_read-eq _ fs.disk (dir.block_read x (omega (arith, lt)) nz)))
    ]
