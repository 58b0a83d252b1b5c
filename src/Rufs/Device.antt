-- ===== src/Rufs/Device.antt =====
-- The emulated disk of project4/code/block.c: dev_init, dev_open, dev_close, bio_read, bio_write.
-- The disk file and the system calls on it are modelled by what they do to the blocks. `int`
-- arguments are bit patterns.
pub mod Blocks
use cs416_operating_systems.Base.{
  ℕ, ◌%◌, ◌^◌, ◌≡◌, ◌≢◌, refl, inl, inr, Bool, true, false, not, ◌&&◌, ◌||◌, Option, none, some,
  leb, ltb, ◌==◌, if◌then◌else◌, arith, ne→==, ==_self, Bool-cases, Option-cases,
}
use cs416_operating_systems.Base.Memory.{Bytes, update}

-- The global `diskfile`: -1, a descriptor, or a descriptor that has been closed, since dev_close
-- does not reset it.
pub data Handle : Type 0 where
  unopened opened stale : Handle

-- The disk file, and which of the system calls on it fail during the operation at hand.
pub record Disk : Type 0 where
  pub exists_file : Bool
  pub diskfile : Handle
  pub blocks : ℕ → Bytes
  pub bad_open : Bool
  pub bad_read : ℕ → Bool
  pub bad_write : ℕ → Bool

abbrev zeros : Bytes
zeros _ = 0

-- The blocks of a file of 32 MB, as ftruncate leaves it; a file that did not exist holds zeros.
unfoldable pub truncated : Disk → ℕ → Bytes
truncated d n = if d.exists_file && ltb n 8192 then d.blocks n else zeros

-- `none` is the exit of the process.
unfoldable pub dev_init : Disk → Option Disk
unfolding truncated
dev_init d = elim d.diskfile [
  | unopened ↦
      if d.bad_open
      then none
      else some (record d { exists_file = true; diskfile = opened; blocks = truncated d })
  | opened ↦ some d
  | stale ↦ some d
]

-- `none` is the result -1.
unfoldable pub dev_open : Disk → Option Disk
dev_open d = elim d.diskfile [
  | unopened ↦
      if d.bad_open || not d.exists_file then none else some (record d { diskfile = opened })
  | opened ↦ some d
  | stale ↦ some d
]

unfoldable pub dev_close : Disk → Disk
dev_close d = elim d.diskfile [ unopened ↦ d | opened ↦ record d { diskfile = stale } | stale ↦ d ]

abbrev pub is_opened : Handle → Bool
is_opened opened = true
is_opened _ = false

-- The block at the offset `block_num*BLOCK_SIZE`, an `int` product, and whether that is negative.
abbrev pub place : ℕ → ℕ
place block_num = block_num % 2 ^ 20

abbrev pub is_beyond : ℕ → Bool
is_beyond block_num = leb (2 ^ 19) (place block_num)

-- Whether pread and pwrite succeed.
unfoldable pub can_read : Disk → ℕ → Bool
can_read d n = is_opened d.diskfile && not (is_beyond n) && not (d.bad_read (place n))

unfoldable pub can_write : Disk → ℕ → Bool
can_write d n = is_opened d.diskfile && not (is_beyond n) && not (d.bad_write (place n))

-- The block, or `none` for a negative result. Past the end of the file pread returns 0 and the
-- buffer is cleared, as it would be for a block of zeros.
unfoldable pub bio_read : ℕ → Disk → Option Bytes
bio_read n d = if can_read d n then some (d.blocks (place n)) else none

-- What the buffer holds after bio_read: a failed read clears it.
unfoldable pub read_buffer : ℕ → Disk → Bytes
read_buffer n d = elim (bio_read n d) [ none ↦ zeros | some b ↦ b ]

-- `none` for a negative result. A write past the end extends the file.
unfoldable pub bio_write : ℕ → Bytes → Disk → Option Disk
bio_write n b d =
    if can_write d n then some (record d { blocks = update d.blocks (place n) b }) else none

-- bio_write where the caller ignores the result.
unfoldable pub write_through : ℕ → Bytes → Disk → Disk
write_through n b d = elim (bio_write n b d) [ none ↦ d | some d' ↦ d' ]
