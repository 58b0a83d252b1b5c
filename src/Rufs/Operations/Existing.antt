-- ===== src/Rufs/Operations/Existing.antt =====
-- rufs_create and rufs_mkdir of project4/code/rufs.c on a path that exists.
use cs416_operating_systems.Base.{
  ℕ, ◌<◌, ◌≡◌, ◌≢◌, refl, sym, ◌∙◌, true, some, List, length, ltb, Bool-cases, inl, inr, ◌==◌,
  if◌then◌else◌,
}
use cs416_operating_systems.Base.Memory.{Bytes}
use cs416_operating_systems.Rufs.{minus_one, eio, ok, is_dir}
use cs416_operating_systems.Rufs.Device.{place, can_write, bio_read}
use cs416_operating_systems.Rufs.Device.Blocks.{IsDisk}
use cs416_operating_systems.Rufs.Inode
use cs416_operating_systems.Rufs.State.{Fs, fail, Caller}
use cs416_operating_systems.Rufs.Bitmap.{get_bitmap}
use cs416_operating_systems.Rufs.Bitmap.Takes.{taken, full, unreadable, get_avail_ino-Takes}
use cs416_operating_systems.Rufs.InodeTable.{inode_block, readi}
use cs416_operating_systems.Rufs.InodeTable.Roundtrip.{readi_same}
use cs416_operating_systems.Rufs.Directory.{dir_find, dir_add}
use cs416_operating_systems.Rufs.Directory.Change.{some_injective}
use cs416_operating_systems.Rufs.Directory.Same.{dir_find_same}
use cs416_operating_systems.Rufs.Path.{get_node_by_path}
use cs416_operating_systems.Rufs.Path.Names.{dirname, basename}
use cs416_operating_systems.Rufs.Operations.{rufs_mkdir, rufs_create}

-- The blocks that a look-up in the directory with the inode `n` reads are not that of the inode
-- bitmap.
pub record IsApart (fs : Fs) (n : Bytes) : Type 0 where
  pub from_inode : place (inode_block fs.sb (Inode.ino n)) ≢ place fs.sb.i_bitmap_blk
  pub from_blocks :
      (i : ℕ)
      → i < 16
      → Inode.direct_ptr n i ≢ 0
      → place (Inode.direct_ptr n i) ≢ place fs.sb.i_bitmap_blk

-- dir_add refuses a name that the directory has, and changes nothing.
dir_add_existing :
    (fs : Fs) (time : ℕ) (n : Bytes) (f_ino : ℕ) (fname : List ℕ) (dirent : Bytes)
    → dir_find fs (Inode.ino n) fname ≡ ok dirent
    → dir_add fs time n f_ino fname ≡ fail minus_one fs
unfolding dir_add
dir_add_existing fs time n f_ino fname dirent e = elim (Bool-cases (ltb 208 (length fname))) [
  | inl t ↦ rw (dir_add, t) refl
  | inr t ↦ rw (dir_add, t, e) refl
]

-- rufs_create and rufs_mkdir of a name that the parent directory has, while an inode is free, on a
-- disk whose inode bitmap can be written and is none of the blocks of the directory and its inode:
-- both fail, but the lowest free inode is marked as in use afterwards, and no other bit of the
-- bitmap differs.
pub rufs_create_existing :
    (env : Caller) (fs : Fs) (path : List ℕ) (mode : ℕ) (n dirent bitmap : Bytes) (free : ℕ)
    → IsDisk fs.disk
    → can_write fs.disk fs.sb.i_bitmap_blk ≡ true
    → get_node_by_path fs (dirname path) 0 ≡ ok n
    → is_dir (Inode.st_mode n) ≡ true
    → readi fs (Inode.ino n) ≡ ok n
    → IsApart fs n
    → dir_find fs (Inode.ino n) (basename path) ≡ ok dirent
    → bio_read fs.sb.i_bitmap_blk fs.disk ≡ some bitmap
    → free < fs.sb.max_inum
    → get_bitmap bitmap free ≡ 0
    → (i : ℕ) × (fs' : Fs) × (bitmap' : Bytes) × (i < fs.sb.max_inum)
      × (get_bitmap bitmap i ≡ 0)
      × ((j : ℕ) → j < i → get_bitmap bitmap j ≡ 1)
      × (rufs_create env fs path mode ≡ fail eio fs')
      × (rufs_mkdir env fs path mode ≡ fail minus_one fs')
      × (bio_read fs.sb.i_bitmap_blk fs'.disk ≡ some bitmap')
      × ((j : ℕ) → get_bitmap bitmap' j ≡ (if i == j then 1 else get_bitmap bitmap j))
unfolding rufs_create rufs_mkdir
rufs_create_existing env fs path mode n dirent bitmap free h w node dir stored apart e eb lt z =
    elim (get_avail_ino-Takes fs h w) [
      | taken i b b' fs' e0 hi zero_bit before r e1 marks (same, others) ↦
          let found : dir_find fs' (Inode.ino n) (basename path) ≡ ok dirent =
            dir_find_same fs fs' n (basename path)
              (λ k hk nz. others (Inode.direct_ptr n k) (apart.from_blocks k hk nz)) (Inode.ino n)
              stored (readi_same fs fs' (Inode.ino n) same (others _ apart.from_inode))
            ∙ e in
          let refused = dir_add_existing fs' env.dir_time n i (basename path) dirent found in
          (
            i,
            fs',
            b',
            hi,
            rw (some_injective (sym e0 ∙ eb)) at zero_bit,
            λ j lt'. rw (some_injective (sym e0 ∙ eb)) at (before j lt'),
            rw (rufs_create, node, dir, r, refused) refl,
            rw (rufs_mkdir, node, dir, r, refused) refl,
            e1,
            λ j. rw (some_injective (sym e0 ∙ eb)) at (marks j),
          )
      | full b e0 all r ↦ absurd (cc (all free lt, z, e0, eb))
      | unreadable e0 r ↦ absurd (cc (e0, eb))
    ]
