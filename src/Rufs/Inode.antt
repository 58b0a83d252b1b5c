-- ===== src/Rufs/Inode.antt =====
-- `struct inode` of project4/code/rufs.h, as its bytes: where the fields that the code reads and
-- writes stand, and the assignments to them. `vstat` begins at 112.
pub mod Fields
use cs416_operating_systems.Base.{ℕ, ◌+◌, ◌*◌, ◌/◌, ◌%◌, ◌^◌}
use cs416_operating_systems.Base.Memory.{Bytes, load16, load32, store16, store32}

-- `sizeof(struct inode)`
abbrev pub inode_size : ℕ
inode_size = 256

abbrev pub inodes_per_block : ℕ
inodes_per_block = 16

abbrev pub ino : Bytes → ℕ
ino n = load16 n 0

abbrev pub valid : Bytes → ℕ
valid n = load16 n 2

abbrev pub size : Bytes → ℕ
size n = load32 n 4

abbrev pub direct_ptr : Bytes → ℕ → ℕ
direct_ptr n i = load32 n (16 + 4 * i)

abbrev pub st_mode : Bytes → ℕ
st_mode n = load32 n 136

abbrev pub set_direct_ptr : Bytes → ℕ → ℕ → Bytes
set_direct_ptr n i blk = store32 n (16 + 4 * i) blk

-- A 64-bit field.
abbrev pub store64 : Bytes → ℕ → ℕ → Bytes
store64 m a v = store32 (store32 m a (v % 2 ^ 32)) (a + 4) (v / 2 ^ 32)

abbrev pub set_size : Bytes → ℕ → Bytes
set_size n size = store32 n 4 size

abbrev pub set_st_size : Bytes → ℕ → Bytes
set_st_size n size = store64 n 160 size

abbrev pub set_st_atime : Bytes → ℕ → Bytes
set_st_atime n time = store64 n 184 time

abbrev pub set_st_mtime : Bytes → ℕ → Bytes
set_st_mtime n time = store64 n 200 time

abbrev pub set_st_mode : Bytes → ℕ → Bytes
set_st_mode n mode = store32 n 136 mode

abbrev pub set_st_uid : Bytes → ℕ → Bytes
set_st_uid n uid = store32 n 140 uid

abbrev pub set_st_gid : Bytes → ℕ → Bytes
set_st_gid n gid = store32 n 144 gid

abbrev pub set_st_nlink : Bytes → ℕ → Bytes
set_st_nlink n count = store64 n 128 count

abbrev pub set_ino : Bytes → ℕ → Bytes
set_ino n ino = store16 n 0 ino

abbrev pub set_valid : Bytes → ℕ → Bytes
set_valid n valid = store16 n 2 valid

abbrev pub set_type : Bytes → ℕ → Bytes
set_type n type = store32 n 8 type

abbrev pub set_link : Bytes → ℕ → Bytes
set_link n count = store32 n 12 count
