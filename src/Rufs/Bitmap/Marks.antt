-- ===== src/Rufs/Bitmap/Marks.antt =====
-- The bits of a bitmap of project4/code after set_bitmap and unset_bitmap of rufs.h.
use cs416_operating_systems.Base.{ℕ, ◌≡◌, true, false, arith, ◌==◌, ==_iff, if◌then◌else◌}
use cs416_operating_systems.Base.Memory.{Bytes, IsBytes}
use cs416_operating_systems.Base.Bits.{
  flag_lem, bit_at, bit_at-with_bit_at, bit_at-without_bit_at, with_bit_at-IsBytes,
  without_bit_at-IsBytes,
}
use cs416_operating_systems.Rufs.Bitmap.{set_bitmap, unset_bitmap, get_bitmap, is_free}

pub set_bitmap-IsBytes : (b : Bytes) (i : ℕ) → IsBytes b → IsBytes (set_bitmap b i)
unfolding set_bitmap
set_bitmap-IsBytes b i h = with_bit_at-IsBytes b i h

unset_bitmap-IsBytes : (b : Bytes) (i : ℕ) → IsBytes b → IsBytes (unset_bitmap b i)
unfolding unset_bitmap
unset_bitmap-IsBytes b i h = without_bit_at-IsBytes b i h

get_bitmap-eq : (b : Bytes) (i : ℕ) → IsBytes b → get_bitmap b i ≡ bit_at b i
unfolding get_bitmap
get_bitmap-eq b i h = flag_lem b i h

module _ (b : Bytes) (i j : ℕ) (h : IsBytes b) where
  pub get_bitmap-set_bitmap : get_bitmap (set_bitmap b i) j ≡ (if i == j then 1 else get_bitmap b j)
  unfolding set_bitmap
  get_bitmap-set_bitmap =
      rw (get_bitmap-eq (set_bitmap b i) j (set_bitmap-IsBytes b i h), get_bitmap-eq b j h)
        (bit_at-with_bit_at b i j h)

  pub get_bitmap-unset_bitmap :
      get_bitmap (unset_bitmap b i) j ≡ (if i == j then 0 else get_bitmap b j)
  unfolding unset_bitmap
  get_bitmap-unset_bitmap =
      rw (get_bitmap-eq (unset_bitmap b i) j (unset_bitmap-IsBytes b i h), get_bitmap-eq b j h)
        (bit_at-without_bit_at b i j h)

pub is_free-true : (b : Bytes) (i : ℕ) → is_free b i ≡ true → get_bitmap b i ≡ 0
unfolding is_free
is_free-true b i h = (==_iff _ _).0 h

pub is_free-false : (b : Bytes) (i : ℕ) → is_free b i ≡ false → get_bitmap b i ≡ 1
unfolding is_free get_bitmap
is_free-false b i h = ground arith
