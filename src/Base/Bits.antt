-- ===== src/Base/Bits.antt =====
-- Single bits of a byte, by a table over all bytes and bit numbers.
use Prim.Native.Nat.{ℕ, zero, suc, ◌+◌, ◌-◌, ◌*◌, ◌/◌, ◌%◌, ◌^◌, ◌<◌, bit_and, bit_or}
use mathlib.Core.Path.{◌≡◌, refl, sym, ap}
use mathlib.Core.Bool.{Bool, true, ◌&&◌}
use mathlib.Core.Logic.{inl, inr}
use native.Mathlib.Omega.{arith}
use cs416_operating_systems.Base.Tests.{
  ◌==◌, ltb, ltb→lt, ==_iff, ==_self, ne→==, eq_or_ne, if◌then◌else◌,
}
use cs416_operating_systems.Base.Memory.{Bytes, IsBytes, update}

-- A row test that passes for the `rows` numbers from 0 on.
unfoldable pub passes : (ℕ → Bool) → ℕ → Bool
passes row zero = true
passes row (suc rows) = passes row rows && row rows

pub passes_lem : (row : ℕ → Bool) (rows i : ℕ) → i < rows → passes row rows ≡ true → row i ≡ true
unfolding passes
passes_lem row zero i lt all = absurd (omega arith)
passes_lem row (suc rows) i lt all = ground (arith, passes_lem row rows i)

-- Bit `k` of the byte `b`, with bit `k` set, and with bit `k` cleared.
abbrev pub bit_of : ℕ → ℕ → ℕ
bit_of b k = bit_and b (2 ^ k) / 2 ^ k

abbrev pub with_bit : ℕ → ℕ → ℕ
with_bit b k = bit_or b (2 ^ k) % 256

abbrev pub without_bit : ℕ → ℕ → ℕ
without_bit b k = bit_and b (255 - 2 ^ k) % 256

-- `n` packs a byte and two bit numbers.
abbrev with_row : ℕ → Bool
with_row n =
    let b = n / 64 in
    let k = n / 8 % 8 in
    let j = n % 8 in bit_of (with_bit b k) j == (if k == j then 1 else bit_of b j)

abbrev without_row : ℕ → Bool
without_row n =
    let b = n / 64 in
    let k = n / 8 % 8 in
    let j = n % 8 in bit_of (without_bit b k) j == (if k == j then 0 else bit_of b j)

with_table : passes with_row 16384 ≡ true
unfolding passes
with_table = refl

without_table : passes without_row 16384 ≡ true
unfolding passes
without_table = refl

with_row_sound :
    (n : ℕ)
    → n < 16384
    → bit_of (with_bit (n / 64) (n / 8 % 8)) (n % 8)
      ≡ (if n / 8 % 8 == n % 8 then 1 else bit_of (n / 64) (n % 8))
with_row_sound n h = (==_iff _ _).0 (passes_lem with_row 16384 n h with_table)

without_row_sound :
    (n : ℕ)
    → n < 16384
    → bit_of (without_bit (n / 64) (n / 8 % 8)) (n % 8)
      ≡ (if n / 8 % 8 == n % 8 then 0 else bit_of (n / 64) (n % 8))
without_row_sound n h = (==_iff _ _).0 (passes_lem without_row 16384 n h without_table)

module _ (b k j : ℕ) (hb : b < 256) (hk : k < 8) (hj : j < 8) where
  row_parts :
      let n = b * 64 + k * 8 + j in (n / 64 ≡ b) × (n / 8 % 8 ≡ k) × (n % 8 ≡ j) × (n < 16384)
  row_parts = (omega arith, omega arith, omega arith, omega arith)

  pub bit_of-with_bit : bit_of (with_bit b k) j ≡ (if k == j then 1 else bit_of b j)
  bit_of-with_bit = let (eb, ek, ej, lt) = row_parts in rw (eb, ek, ej) at (with_row_sound _ lt)

  pub bit_of-without_bit : bit_of (without_bit b k) j ≡ (if k == j then 0 else bit_of b j)
  bit_of-without_bit =
      let (eb, ek, ej, lt) = row_parts in rw (eb, ek, ej) at (without_row_sound _ lt)

-- The bit numbered `i` of a map of bits, eight to a byte, and its updates.
abbrev pub bit_at : Bytes → ℕ → ℕ
bit_at m i = bit_of (m (i / 8)) (i % 8)

abbrev pub with_bit_at : Bytes → ℕ → Bytes
with_bit_at m i = update m (i / 8) (with_bit (m (i / 8)) (i % 8))

abbrev pub without_bit_at : Bytes → ℕ → Bytes
without_bit_at m i = update m (i / 8) (without_bit (m (i / 8)) (i % 8))

-- Within one byte, two bit numbers agree exactly if their places in the byte do.
same_bit : (i j : ℕ) → j / 8 ≡ i / 8 → (i % 8 == j % 8) ≡ (i == j)
same_bit i j e = ground arith

module _ (m : Bytes) (i j : ℕ) (h : IsBytes m) where
  pub bit_at-with_bit_at : bit_at (with_bit_at m i) j ≡ (if i == j then 1 else bit_at m j)
  bit_at-with_bit_at = elim (eq_or_ne (j / 8) (i / 8)) [
    | inl e ↦
        rw (e, ==_self (i / 8), ← same_bit i j e)
          (bit_of-with_bit (m (i / 8)) (i % 8) (j % 8) (h (i / 8)) (omega arith) (omega arith))
    | inr n ↦ rw (ne→== _ _ n, ne→== i j (λ e. n (ap (λ (t : ℕ). t / 8) (sym e))))
  ]

  pub bit_at-without_bit_at : bit_at (without_bit_at m i) j ≡ (if i == j then 0 else bit_at m j)
  bit_at-without_bit_at = elim (eq_or_ne (j / 8) (i / 8)) [
    | inl e ↦
        rw (e, ==_self (i / 8), ← same_bit i j e)
          (bit_of-without_bit (m (i / 8)) (i % 8) (j % 8) (h (i / 8)) (omega arith) (omega arith))
    | inr n ↦ rw (ne→== _ _ n, ne→== i j (λ e. n (ap (λ (t : ℕ). t / 8) (sym e))))
  ]

pub with_bit_at-IsBytes : (m : Bytes) (i : ℕ) → IsBytes m → IsBytes (with_bit_at m i)
with_bit_at-IsBytes m i h a = ground (arith, h a)

pub without_bit_at-IsBytes : (m : Bytes) (i : ℕ) → IsBytes m → IsBytes (without_bit_at m i)
without_bit_at-IsBytes m i h a = ground (arith, h a)

bit_le_table : passes (λ n. ltb (bit_of (n / 8) (n % 8)) 2) 2048 ≡ true
unfolding passes
bit_le_table = refl

-- A bit is 0 or 1.
pub bit_at-lt : (m : Bytes) (i : ℕ) → IsBytes m → bit_at m i < 2
bit_at-lt m i h =
    let n = m (i / 8) * 8 + i % 8 in
    let e : n / 8 ≡ m (i / 8) = omega (arith, h (i / 8)) in
    let f : n % 8 ≡ i % 8 = omega arith in
    rw (e, f) at
      (ltb→lt _ _ (
        passes_lem (λ n. ltb (bit_of (n / 8) (n % 8)) 2) 2048 n (omega (arith, h (i / 8)))
          bit_le_table))

zero_bit_table : passes (λ k. bit_of 0 k == 0) 8 ≡ true
unfolding passes
zero_bit_table = refl

-- A cleared map has no bit set.
pub bit_at_zero : (i : ℕ) → bit_at (λ _. 0) i ≡ 0
bit_at_zero i =
    (==_iff _ _).0 (passes_lem (λ k. bit_of 0 k == 0) 8 (i % 8) (omega arith) zero_bit_table)

flag_table :
    passes
      (λ n. (if bit_and (n / 8) (2 ^ (n % 8)) == 0 then 0 else 1) == bit_of (n / 8) (n % 8))
      2048
    ≡ true
unfolding passes
flag_table = refl

-- Whether the masked byte is 0 tells the bit.
pub flag_lem :
    (m : Bytes) (i : ℕ)
    → IsBytes m
    → (if bit_and (m (i / 8)) (2 ^ (i % 8)) == 0 then 0 else 1) ≡ bit_at m i
flag_lem m i h =
    let n = m (i / 8) * 8 + i % 8 in
    let e : n / 8 ≡ m (i / 8) = omega (arith, h (i / 8)) in
    let f : n % 8 ≡ i % 8 = omega arith in
    rw (e, f) at ((==_iff _ _).0 (passes_lem _ 2048 n (omega (arith, h (i / 8))) flag_table))
