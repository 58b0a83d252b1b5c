-- ===== src/Rufs/Format/Mount.antt =====
-- rufs_init of project4/code/rufs.c on a new disk, and again on the disk that it leaves.
use cs416_operating_systems.Base.{
  ℕ, ◌%◌, ◌^◌, ◌<◌, ◌≡◌, refl, sym, ap, ◌∙◌, true, false, some, arith, leb,
}
use cs416_operating_systems.Base.Memory.{Bytes, load16, load32, store16, store32}
use cs416_operating_systems.Base.Copy.{memcpy, slice}
use cs416_operating_systems.Rufs.{Superblock, superblock_at, store_superblock, ok, minus_one}
use cs416_operating_systems.Rufs.Device.{
  Disk, unopened, opened, place, can_read, can_write, dev_init, dev_open, truncated, bio_read,
  write_through,
}
use cs416_operating_systems.Rufs.Device.Blocks.{
  bio_write-eq, write_through-eq, bio_read-eq, bio_read-write_through_self,
  bio_read-write_through_apart, can_read-write_through, can_write-write_through,
}
use cs416_operating_systems.Rufs.Inode
use cs416_operating_systems.Rufs.Inode.{inode_size}
use cs416_operating_systems.Rufs.State
use cs416_operating_systems.Rufs.State.{Fs, Outcome, done, fail, Caller, put_block}
use cs416_operating_systems.Rufs.Bitmap.{set_bitmap}
use cs416_operating_systems.Rufs.InodeTable.{readi, put_inode}
use cs416_operating_systems.Rufs.InodeTable.Roundtrip.{readi-writei, writei-eq}
use cs416_operating_systems.Rufs.Format.{
  new_sb, first_block, root_inode, write_regions, rufs_mkfs, read_superblock, rufs_init,
}

-- A disk whose file is open and none of whose blocks fails.
abbrev IsSound : Disk → Type 0
IsSound d = (n : ℕ) → n < 2 ^ 19 → (can_read d n ≡ true) × (can_write d n ≡ true)

write_through-IsSound : (n : ℕ) (b : Bytes) (d : Disk) → IsSound d → IsSound (write_through n b d)
write_through-IsSound n b d h m lt =
    (can_read-write_through n b d m ∙ (h m lt).0, can_write-write_through n b d m ∙ (h m lt).1)

-- What the superblock reads as.
superblock_at-first_block : superblock_at first_block ≡ new_sb
unfolding superblock_at first_block store_superblock memcpy load16 load32 store16 store32
superblock_at-first_block = refl

root_inode-valid : (env : Caller) → Inode.valid (root_inode env) ≡ 1
unfolding root_inode load16 store16 store32
root_inode-valid env = refl

-- A disk file that is not there yet, on a host where no call fails.
pub record IsNew (d : Disk) : Type 0 where
  pub missing : d.exists_file ≡ false
  pub unopened_yet : d.diskfile ≡ unopened
  pub opens : d.bad_open ≡ false
  pub reads : (n : ℕ) → d.bad_read n ≡ false
  pub writes : (n : ℕ) → d.bad_write n ≡ false

-- The file is there, and open.
abbrev IsOpen : Disk → Type 0
IsOpen d = (d.exists_file ≡ true) × (d.diskfile ≡ opened) × (d.bad_open ≡ false)

write_through-IsOpen :
    (n : ℕ) (b : Bytes) (d : Disk)
    → IsSound d
    → n < 2 ^ 19
    → IsOpen d
    → IsOpen (write_through n b d)
write_through-IsOpen n b d h lt o = rw (write_through-eq n b d (h n lt).1) o

module _ (d : Disk) (new : IsNew d) where
  abbrev d0 : Disk
  d0 = record d { exists_file = true; diskfile = opened; blocks = truncated d }

  dev_init-eq : dev_init d ≡ some d0
  unfolding dev_init
  dev_init-eq = rw (dev_init, new.unopened_yet, new.opens) refl

  d0-IsSound : IsSound d0
  unfolding can_read can_write
  d0-IsSound n lt =
      let near : leb (2 ^ 19) (n % 2 ^ 20) ≡ false = ground (arith, lt) in
      (
        rw (can_read, near, new.reads (place n)) refl,
        rw (can_write, near, new.writes (place n)) refl,
      )

-- The regions after the superblock.
module _ (d : Disk) (sound : IsSound d) where
  abbrev e1 : Disk
  e1 = write_through 1 (set_bitmap (λ _. 0) 0) d

  abbrev e2 : Disk
  e2 = write_through 2 (set_bitmap (λ _. 0) 0) e1

  e1-IsSound : IsSound e1
  e1-IsSound = write_through-IsSound 1 _ d sound

  e2-IsSound : IsSound e2
  e2-IsSound = write_through-IsSound 2 _ e1 e1-IsSound

  regions-IsSound : IsSound (write_regions d)
  unfolding write_regions
  regions-IsSound = write_through-IsSound 67 _ e2 e2-IsSound

  regions-IsOpen : IsOpen d → IsOpen (write_regions d)
  unfolding write_regions
  regions-IsOpen o = write_through-IsOpen 67 _ e2 e2-IsSound (omega arith) (
      write_through-IsOpen 2 _ e1 e1-IsSound (omega arith)
        (write_through-IsOpen 1 _ d sound (omega arith) o))

  regions_first : bio_read 0 (write_regions d) ≡ bio_read 0 d
  unfolding write_regions
  regions_first =
      bio_read-write_through_apart 67 _ e2 0 (omega arith)
      ∙ bio_read-write_through_apart 2 _ e1 0 (omega arith)
      ∙ bio_read-write_through_apart 1 _ d 0 (omega arith)

-- The two ways through rufs_init.
init_new :
    (env : Caller) (fs : Fs) (r : Outcome (Unit {0}))
    → fs.disk.exists_file ≡ false
    → rufs_mkfs env fs ≡ some r
    → rufs_init env fs ≡ some (State.or_fail r minus_one (λ _ fs'. read_superblock fs'))
unfolding rufs_init
init_new env fs r e m = rw (rufs_init, e, m) refl

init_old :
    (env : Caller) (fs : Fs) (d : Disk)
    → fs.disk.exists_file ≡ true
    → dev_open fs.disk ≡ some d
    → rufs_init env fs ≡ some (read_superblock (record fs { disk = d }))
unfolding rufs_init
init_old env fs d e m = rw (rufs_init, e, m) refl

reopen : (d : Disk) → IsOpen d → dev_open (record d { diskfile = unopened }) ≡ some d
unfolding dev_open
reopen d (there, open_now, opens) =
    let q : dev_open (record d { diskfile = unopened }) ≡ some (record d { diskfile = opened }) =
      rw (dev_open, there, opens) refl in
    q ∙ ap (λ h. some (record d { diskfile = h })) (sym open_now)

-- Formatting a new disk.
module _ (env : Caller) (sb : Superblock) (d : Disk) (new : IsNew d) where
  abbrev f0 : Disk
  f0 = record d { exists_file = true; diskfile = opened; blocks = truncated d }

  abbrev f1 : Disk
  f1 = write_through 0 first_block f0

  f1-IsSound : IsSound f1
  f1-IsSound = write_through-IsSound 0 first_block f0 (d0-IsSound d new)

  abbrev formatted : Fs
  formatted = record { sb = new_sb; disk = write_regions f1 }

  abbrev root_block : Bytes
  root_block = memcpy (formatted.disk.blocks 3) 0 (root_inode env) 0 inode_size

  abbrev final : Fs
  final = put_block 3 root_block formatted

  final_eq : put_inode formatted 0 (root_inode env) ≡ final
  final_eq =
      let sound = regions-IsSound f1 f1-IsSound 3 (omega arith) in
      ap State.after (
        writei-eq formatted 0 (root_inode env) (formatted.disk.blocks 3) (omega arith)
          (bio_read-eq 3 formatted.disk sound.0) sound.1)

  rufs_mkfs-eq : rufs_mkfs env (record { sb = sb; disk = d }) ≡ some (done tt final)
  unfolding rufs_mkfs
  rufs_mkfs-eq =
      let w = (d0-IsSound d new 0 (omega arith)).1 in
      rw
        (
          rufs_mkfs,
          dev_init-eq d new,
          bio_write-eq 0 first_block f0 w,
          ← write_through-eq 0 first_block f0 w,
          final_eq,
        )
        refl

  final-IsOpen : IsOpen final.disk
  final-IsOpen =
      write_through-IsOpen 3 root_block formatted.disk (regions-IsSound f1 f1-IsSound) (omega arith)
        (regions-IsOpen f1 f1-IsSound (
          write_through-IsOpen 0 first_block f0 (d0-IsSound d new) (omega arith)
            (refl, refl, new.opens)))

  final_first : bio_read 0 final.disk ≡ some first_block
  final_first =
      let sound = d0-IsSound d new 0 (omega arith) in
      bio_read-write_through_apart 3 root_block formatted.disk 0 (omega arith)
      ∙ regions_first f1 f1-IsSound
      ∙ bio_read-write_through_self 0 first_block f0 sound.1 sound.0

  read_final : read_superblock final ≡ done tt final
  unfolding read_superblock
  read_final = rw (read_superblock, final_first, superblock_at-first_block) refl

  root_reads : readi final 0 ≡ ok (slice (root_inode env) 0 inode_size)
  root_reads =
      let sound = regions-IsSound f1 f1-IsSound 3 (omega arith) in
      let (q, back, others) =
        readi-writei formatted 0 (root_inode env) (omega arith) (omega arith) sound.0 sound.1
          (rw (root_inode-valid env) (omega arith)) in
      rw final_eq at back

  first_mount : rufs_init env (record { sb = sb; disk = d }) ≡ some (done tt final)
  first_mount =
      init_new env (record { sb = sb; disk = d }) (done tt final) new.missing rufs_mkfs-eq
      ∙ ap some read_final

  -- The disk as the next process finds it.
  abbrev left : Disk
  left = record final.disk { diskfile = unopened }

  second_mount :
      (env' : Caller) (sb' : Superblock)
      → rufs_init env' (record { sb = sb'; disk = left }) ≡ some (done tt final)
  unfolding read_superblock
  second_mount env' sb' =
      init_old env' (record { sb = sb'; disk = left }) final.disk final-IsOpen.0
        (reopen final.disk final-IsOpen)
      ∙ rw (read_superblock, final_first, superblock_at-first_block) refl

-- rufs_init on a host without a disk file, where no call fails: it formats a new file and succeeds
-- with the superblock of rufs_mkfs and the root inode, and rufs_init of a later process, whatever
-- its memory holds, finds the same disk and reads the same superblock.
pub rufs_init_twice :
    (env env' : Caller) (sb sb' : Superblock) (d : Disk)
    → IsNew d
    → (fs : Fs) × (rufs_init env (record { sb = sb; disk = d }) ≡ some (done tt fs))
      × (fs.sb ≡ new_sb)
      × (readi fs 0 ≡ ok (slice (root_inode env) 0 inode_size))
      × (rufs_init env' (record { sb = sb'; disk = record fs.disk { diskfile = unopened } })
          ≡ some (done tt fs))
rufs_init_twice env env' sb sb' d new = (
  final env sb d new,
  first_mount env sb d new,
  refl,
  root_reads env sb d new,
  second_mount env sb d new env' sb',
)
