-- ===== src/Base/Copy.antt =====
-- memcpy between memories, and the words and bytes that a copy leaves alone.
use cs416_operating_systems.Base.Tests.{leb, ltb, if◌then◌else◌}
use cs416_operating_systems.Base.Memory.{Bytes, IsBytes, load32}
use Prim.Native.Nat.{ℕ, ◌+◌, ◌-◌, ◌≤◌, ◌<◌}
use mathlib.Core.Path.{◌≡◌}
use mathlib.Core.Bool.{Bool, true, false, ◌&&◌}
use mathlib.Core.Logic.{◌⊎◌}
use native.Mathlib.Omega.{arith}

-- `memcpy(dst + d, src + a, n)`
unfoldable pub memcpy : Bytes → ℕ → Bytes → ℕ → ℕ → Bytes
memcpy dst d src a n q = if leb d q && ltb q (d + n) then src (a + (q - d)) else dst q

pub load32-memcpy_apart :
    (m : Bytes) (d : ℕ) (src : Bytes) (a n b : ℕ)
    → (d + n ≤ b) ⊎ (b + 4 ≤ d)
    → load32 (memcpy m d src a n) b ≡ load32 m b
unfolding load32 memcpy
load32-memcpy_apart m d src a n b h = ground arith

-- `x` is one of the `n` numbers from `lo` on.
abbrev pub inside : ℕ → ℕ → ℕ → Bool
inside lo n x = leb lo x && ltb x (lo + n)

pub inside-true : (lo n x : ℕ) → inside lo n x ≡ true → (lo ≤ x) × (x < lo + n)
inside-true lo n x h = ground arith

pub inside-false : (lo n x : ℕ) → inside lo n x ≡ false → (x < lo) ⊎ (lo + n ≤ x)
inside-false lo n x h = ground arith

pub memcpy-inside :
    (m : Bytes) (d : ℕ) (src : Bytes) (a n q : ℕ)
    → inside d n q ≡ true
    → memcpy m d src a n q ≡ src (a + (q - d))
unfolding memcpy
memcpy-inside m d src a n q h = rw h

pub memcpy_outside :
    (m : Bytes) (d : ℕ) (src : Bytes) (a n q : ℕ)
    → inside d n q ≡ false
    → memcpy m d src a n q ≡ m q
unfolding memcpy
memcpy_outside m d src a n q h = rw h

pub memcpy-IsBytes :
    (m : Bytes) (d : ℕ) (src : Bytes) (a n : ℕ)
    → IsBytes m
    → IsBytes src
    → IsBytes (memcpy m d src a n)
unfolding memcpy
memcpy-IsBytes m d src a n h k q = ground (arith, h q, k (a + (q - d)))

-- The `n` bytes from `a` on, as a memory of its own.
abbrev pub slice : Bytes → ℕ → ℕ → Bytes
slice m a n q = if ltb q n then m (a + q) else 0
