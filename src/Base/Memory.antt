-- ===== src/Base/Memory.antt =====
-- Byte-addressed memory as a function from addresses to bytes, with 32-bit words stored in
-- little-endian order, as on the x86-64 hosts that the programs are built for.
use cs416_operating_systems.Base.Tests.{◌==◌, leb, ltb, if◌then◌else◌}
use Prim.Native.Nat.{ℕ, ◌+◌, ◌*◌, ◌/◌, ◌%◌, ◌^◌, ◌≤◌, ◌<◌}
use mathlib.Core.Path.{◌≡◌}
use mathlib.Core.Bool.{◌&&◌}
use mathlib.Core.Logic.{◌⊎◌}
use native.Mathlib.Omega.{arith}

abbrev pub Bytes : Type 0
Bytes = ℕ → ℕ

-- Every cell holds a byte.
abbrev pub IsBytes : Bytes → Type 0
IsBytes m = (a : ℕ) → m a < 256

-- `m[a] = v`
abbrev pub update {ℓ} : {A : Type ℓ} → (ℕ → A) → ℕ → A → ℕ → A
update m a v q = if q == a then v else m q

-- `memset(m + a, 0, n)`
abbrev pub clear_range : Bytes → ℕ → ℕ → Bytes
clear_range m a n q = if leb a q && ltb q (a + n) then 0 else m q

unfoldable pub load32 : Bytes → ℕ → ℕ
load32 m a = m a + 256 * m (a + 1) + 65536 * m (a + 2) + 16777216 * m (a + 3)

unfoldable pub store32 : Bytes → ℕ → ℕ → Bytes
store32 m a v q =
    if q == a
    then v % 256
    else if q == a + 1
    then v / 256 % 256
    else if q == a + 2
    then v / 65536 % 256
    else if q == a + 3
    then v / 16777216 % 256
    else m q

pub load32-store32_self : (m : Bytes) (a v : ℕ) → v < 2 ^ 32 → load32 (store32 m a v) a ≡ v
unfolding load32 store32
load32-store32_self m a v h = ground arith

-- A word that lies outside the four bytes written keeps its value.
pub load32-store32_apart :
    (m : Bytes) (a b v : ℕ) → (a + 4 ≤ b) ⊎ (b + 4 ≤ a) → load32 (store32 m a v) b ≡ load32 m b
unfolding load32 store32
load32-store32_apart m a b v h = ground arith

pub load32-clear_inside :
    (m : Bytes) (a n b : ℕ) → a ≤ b → b + 4 ≤ a + n → load32 (clear_range m a n) b ≡ 0
unfolding load32
load32-clear_inside m a n b h k = ground arith

pub load32-clear_apart :
    (m : Bytes) (a n b : ℕ) → (a + n ≤ b) ⊎ (b + 4 ≤ a) → load32 (clear_range m a n) b ≡ load32 m b
unfolding load32
load32-clear_apart m a n b h = ground arith

pub store32-IsBytes : (m : Bytes) (a v : ℕ) → IsBytes m → IsBytes (store32 m a v)
unfolding store32
store32-IsBytes m a v h q = ground (arith, h q)

pub load32-lt : (m : Bytes) (a : ℕ) → IsBytes m → load32 m a < 2 ^ 32
unfolding load32
load32-lt m a h = omega (arith, h a, h (a + 1), h (a + 2), h (a + 3))

pub clear_range-IsBytes : (m : Bytes) (a n : ℕ) → IsBytes m → IsBytes (clear_range m a n)
clear_range-IsBytes m a n h q = ground (arith, h q)

unfoldable pub load16 : Bytes → ℕ → ℕ
load16 m a = m a + 256 * m (a + 1)

unfoldable pub store16 : Bytes → ℕ → ℕ → Bytes
store16 m a v q = if q == a then v % 256 else if q == a + 1 then v / 256 % 256 else m q

pub load16-store16_self : (m : Bytes) (a v : ℕ) → load16 (store16 m a v) a ≡ v % 2 ^ 16
unfolding load16 store16
load16-store16_self m a v = ground arith

pub load16-store16_apart :
    (m : Bytes) (a b v : ℕ) → (a + 2 ≤ b) ⊎ (b + 2 ≤ a) → load16 (store16 m a v) b ≡ load16 m b
unfolding load16 store16
load16-store16_apart m a b v h = ground arith

pub load16-store32_apart :
    (m : Bytes) (a b v : ℕ) → (a + 4 ≤ b) ⊎ (b + 2 ≤ a) → load16 (store32 m a v) b ≡ load16 m b
unfolding load16 store32
load16-store32_apart m a b v h = ground arith

pub load32-store16_apart :
    (m : Bytes) (a b v : ℕ) → (a + 2 ≤ b) ⊎ (b + 4 ≤ a) → load32 (store16 m a v) b ≡ load32 m b
unfolding load32 store16
load32-store16_apart m a b v h = ground arith

pub store16-IsBytes : (m : Bytes) (a v : ℕ) → IsBytes m → IsBytes (store16 m a v)
unfolding store16
store16-IsBytes m a v h q = ground (arith, h q)

pub load16-lt : (m : Bytes) (a : ℕ) → IsBytes m → load16 m a < 2 ^ 16
unfolding load16
load16-lt m a h = omega (arith, h a, h (a + 1))
