-- ===== src/Vm/Bitmap.antt =====
-- get_bit, set_bit and clear_bit of my_vm.c. A `char` is modelled by its bit pattern; sign
-- extension in `bitmap[byte_idx] & mask` is without effect, since the mask is below 256.
use Prim.Native.Nat.{bit_and, bit_or}
use cs416_operating_systems.Base.{ℕ, ◌-◌, ◌/◌, ◌%◌, ◌^◌, ◌<◌, ◌≡◌, ◌==◌, if◌then◌else◌}
use cs416_operating_systems.Base.Memory.{Bytes, IsBytes, update}
use cs416_operating_systems.Base.Bits.{
  bit_at-with_bit_at, bit_at-without_bit_at, bit_at-lt, bit_at_zero, with_bit_at-IsBytes,
  without_bit_at-IsBytes,
}

pub get_bit : Bytes → ℕ → ℕ
get_bit bitmap index =
    let byte_idx = index / 8 in
    let bit_idx = index % 8 in
    let mask = 2 ^ bit_idx in bit_and (bitmap byte_idx) mask / 2 ^ bit_idx

pub set_bit : Bytes → ℕ → Bytes
set_bit bitmap index =
    let byte_idx = index / 8 in
    let bit_idx = index % 8 in
    let mask = 2 ^ bit_idx in update bitmap byte_idx (bit_or (bitmap byte_idx) mask % 256)

-- The low byte of `~(1 << bit_idx)` is 255 - (1 << bit_idx).
pub clear_bit : Bytes → ℕ → Bytes
clear_bit bitmap index =
    let byte_idx = index / 8 in
    let bit_idx = index % 8 in
    let mask = 255 - 2 ^ bit_idx in update bitmap byte_idx (bit_and (bitmap byte_idx) mask % 256)

module _ (bitmap : Bytes) (i j : ℕ) (h : IsBytes bitmap) where
  -- Setting bit i makes bit i read 1 and leaves every other bit of the map as it was.
  pub get_bit-set_bit : get_bit (set_bit bitmap i) j ≡ (if i == j then 1 else get_bit bitmap j)
  unfolding get_bit set_bit
  get_bit-set_bit = bit_at-with_bit_at bitmap i j h

  -- Clearing bit i makes bit i read 0 and leaves every other bit of the map as it was.
  pub get_bit-clear_bit : get_bit (clear_bit bitmap i) j ≡ (if i == j then 0 else get_bit bitmap j)
  unfolding get_bit clear_bit
  get_bit-clear_bit = bit_at-without_bit_at bitmap i j h

pub get_bit-lt : (bitmap : Bytes) (i : ℕ) → IsBytes bitmap → get_bit bitmap i < 2
unfolding get_bit
get_bit-lt bitmap i h = bit_at-lt bitmap i h

pub set_bit-IsBytes : (bitmap : Bytes) (i : ℕ) → IsBytes bitmap → IsBytes (set_bit bitmap i)
unfolding set_bit
set_bit-IsBytes bitmap i h = with_bit_at-IsBytes bitmap i h

pub clear_bit-IsBytes : (bitmap : Bytes) (i : ℕ) → IsBytes bitmap → IsBytes (clear_bit bitmap i)
unfolding clear_bit
clear_bit-IsBytes bitmap i h = without_bit_at-IsBytes bitmap i h

-- A map from calloc has no bit set.
pub get_bit_zero : (i : ℕ) → get_bit (λ _. 0) i ≡ 0
unfolding get_bit
get_bit_zero i = bit_at_zero i
