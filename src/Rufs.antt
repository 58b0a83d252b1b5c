-- ===== src/Rufs.antt =====
-- The file system of project4/code (rufs.h and rufs.c): the constants, the structures on the disk
-- and the results of its functions. A structure that the code copies byte by byte is its bytes,
-- laid out as on x86-64.
pub mod Device
pub mod Inode
pub mod Dirent
pub mod State
pub mod Bitmap
pub mod InodeTable
pub mod Directory
pub mod Path
pub mod Format
pub mod Operations
pub mod Data
mod Tests
use cs416_operating_systems.Base.{ℕ, Bool, ◌==◌}
use cs416_operating_systems.Base.Memory.{Bytes, load16, load32, store16, store32}
use Prim.Native.Nat.{bit_and}

abbrev pub block_size : ℕ
block_size = 4096

abbrev pub magic_num : ℕ
magic_num = 23610

abbrev pub max_inum : ℕ
max_inum = 1024

abbrev pub max_dnum : ℕ
max_dnum = 16384

pub record Superblock : Type 0 where
  pub magic_num : ℕ
  pub max_inum : ℕ
  pub max_dnum : ℕ
  pub i_bitmap_blk : ℕ
  pub d_bitmap_blk : ℕ
  pub i_start_blk : ℕ
  pub d_start_blk : ℕ

-- `sizeof(struct superblock)`
abbrev pub superblock_size : ℕ
superblock_size = 24

-- The superblock in the first bytes of a block.
unfoldable pub superblock_at : Bytes → Superblock
superblock_at b = record {
  magic_num = load32 b 0;
  max_inum = load16 b 4;
  max_dnum = load16 b 6;
  i_bitmap_blk = load32 b 8;
  d_bitmap_blk = load32 b 12;
  i_start_blk = load32 b 16;
  d_start_blk = load32 b 20;
}

unfoldable pub store_superblock : Bytes → Superblock → Bytes
store_superblock b sb =
    let b1 = store32 b 0 sb.magic_num in
    let b2 = store16 b1 4 sb.max_inum in
    let b3 = store16 b2 6 sb.max_dnum in
    let b4 = store32 b3 8 sb.i_bitmap_blk in
    let b5 = store32 b4 12 sb.d_bitmap_blk in
    let b6 = store32 b5 16 sb.i_start_blk in store32 b6 20 sb.d_start_blk

-- The type bits of a mode.
abbrev pub type_dir : ℕ
type_dir = 16384

abbrev pub type_reg : ℕ
type_reg = 32768

-- `S_ISDIR(mode)` and `S_ISREG(mode)`
abbrev pub is_dir : ℕ → Bool
is_dir mode = bit_and mode 61440 == type_dir

abbrev pub is_reg : ℕ → Bool
is_reg mode = bit_and mode 61440 == type_reg

-- The negative results of the code.
pub data Errno : Type 0 where
  minus_one eio enoent enonet enospc enotdir eisdir : Errno

-- The result of a function that only reads the disk.
pub data Result {ℓ} (A : Type ℓ) : Type ℓ where
  ok : A → Result A
  err : Errno → Result A

-- What a caller does with a result: `rest` if it is not negative, otherwise the caller's own
-- error `e`.
abbrev pub or_fail {ℓ κ} : {A : Type ℓ} {B : Type κ} → Result A → Errno → (A → Result B) → Result B
or_fail (ok a) e rest = rest a
or_fail (err _) e rest = err e
