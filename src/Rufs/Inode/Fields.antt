-- ===== src/Rufs/Inode/Fields.antt =====
-- Fields of `struct inode` of project4/code/rufs.h that assignments to others leave alone.
use cs416_operating_systems.Base.{ℕ, ◌+◌, ◌/◌, ◌%◌, ◌^◌, ◌≤◌, ◌<◌, ◌≡◌, inl, inr, arith}
use cs416_operating_systems.Base.Memory.{
  Bytes, load16, load32, load32-store32_self, load32-store32_apart, load16-store32_apart,
}
use cs416_operating_systems.Base.Copy.{slice}
use cs416_operating_systems.Rufs.Inode.{size, set_size, set_st_size, set_st_mtime}

module _ (n : Bytes) (v a : ℕ) where
  pub load16-set_st_mtime : a ≤ 2 → load16 (set_st_mtime n v) a ≡ load16 n a
  load16-set_st_mtime h =
      rw (load16-store32_apart _ 204 a (v / 2 ^ 32) (inr (omega (arith, h))))
        (load16-store32_apart n 200 a (v % 2 ^ 32) (inr (omega (arith, h))))

  pub load32-set_st_mtime : a + 4 ≤ 200 → load32 (set_st_mtime n v) a ≡ load32 n a
  load32-set_st_mtime h =
      rw (load32-store32_apart _ 204 a (v / 2 ^ 32) (inr (omega (arith, h))))
        (load32-store32_apart n 200 a (v % 2 ^ 32) (inr (omega (arith, h))))

  pub load16-set_st_size : a ≤ 2 → load16 (set_st_size n v) a ≡ load16 n a
  load16-set_st_size h =
      rw (load16-store32_apart _ 164 a (v / 2 ^ 32) (inr (omega (arith, h))))
        (load16-store32_apart n 160 a (v % 2 ^ 32) (inr (omega (arith, h))))

  pub load32-set_st_size : a + 4 ≤ 160 → load32 (set_st_size n v) a ≡ load32 n a
  load32-set_st_size h =
      rw (load32-store32_apart _ 164 a (v / 2 ^ 32) (inr (omega (arith, h))))
        (load32-store32_apart n 160 a (v % 2 ^ 32) (inr (omega (arith, h))))

  pub load16-set_size : a ≤ 2 → load16 (set_size n v) a ≡ load16 n a
  load16-set_size h = load16-store32_apart n 4 a v (inr (omega (arith, h)))

  pub load32-set_size : 8 ≤ a → load32 (set_size n v) a ≡ load32 n a
  load32-set_size h = load32-store32_apart n 4 a v (inl (omega (arith, h)))

pub size-set_size : (n : Bytes) (v : ℕ) → v < 2 ^ 32 → size (set_size n v) ≡ v
size-set_size n v h = load32-store32_self n 4 v h

-- A word of the inode that has been copied.
pub load32-slice : (m : Bytes) (a n : ℕ) → a + 4 ≤ n → load32 (slice m 0 n) a ≡ load32 m a
unfolding load32
load32-slice m a n h = ground arith
