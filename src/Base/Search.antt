-- ===== src/Base/Search.antt =====
-- The first number of a range that passes a test: the loops that look for a free slot or for an
-- entry.
use Prim.Native.Nat.{ℕ, zero, suc, ◌+◌, ◌≤◌, ◌<◌}
use mathlib.Core.Path.{◌≡◌, refl}
use mathlib.Core.Logic.{inl, inr}
use mathlib.Core.Bool.{Bool, true, false}
use mathlib.Core.Option.{Option, none, some}
use native.Mathlib.Omega.{arith}
use cs416_operating_systems.Base.Tests.{eq_or_ne, Bool-cases}

-- `rounds` numbers from `i` on.
unfoldable pub first_slot : ℕ → ℕ → (ℕ → Bool) → Option ℕ
first_slot zero i test = none
first_slot (suc rounds) i test = elim (test i) [
  | true ↦ some i
  | false ↦ first_slot rounds (i + 1) test
]

-- The first number that passes the test, if there is one.
pub data Finds (lo hi : ℕ) (test : ℕ → Bool) (r : Option ℕ) : Type 0 where
  found :
      (k : ℕ)
      → r ≡ some k
      → lo ≤ k
      → k < hi
      → test k ≡ true
      → ((j : ℕ) → lo ≤ j → j < k → test j ≡ false)
      → Finds lo hi test r
  missing : r ≡ none → ((k : ℕ) → lo ≤ k → k < hi → test k ≡ false) → Finds lo hi test r

pub first_slot-Finds :
    (rounds i : ℕ) (test : ℕ → Bool) → Finds i (i + rounds) test (first_slot rounds i test)
unfolding first_slot
first_slot-Finds zero i test = missing refl (λ k a b. absurd (omega arith))
first_slot-Finds (suc rounds) i test = elim (Bool-cases (test i)) [
  | inl e ↦
      rw (first_slot, e)
        (found i refl (omega arith) (omega arith) e (λ j a b. absurd (omega arith)))
  | inr e ↦ rw (first_slot, e) (step (first_slot-Finds rounds (i + 1) test) e)
]
  where
    from_here :
        {hi : ℕ}
        → ((k : ℕ) → i + 1 ≤ k → k < hi → test k ≡ false)
        → test i ≡ false
        → (k : ℕ) → i ≤ k
        → k < hi
        → test k ≡ false
    from_here all f k a b = elim (eq_or_ne k i) [
      | inl q ↦ rw q f
      | inr ne ↦ all k (omega (arith, ne)) b
    ]

    step :
        {r : Option ℕ}
        → Finds (i + 1) (i + 1 + rounds) test r
        → test i ≡ false
        → Finds i (i + suc rounds) test r
    step (found k e lo hi t before) f = found k e (omega arith) (omega arith) t (from_here before f)
    step (missing e all) f = missing e (λ k a b. from_here all f k a (omega arith))

-- The search from 0 on.
pub search_lem : (rounds : ℕ) (test : ℕ → Bool) → Finds 0 rounds test (first_slot rounds 0 test)
search_lem rounds test =
    let e : 0 + rounds ≡ rounds = omega arith in rw e at (first_slot-Finds rounds 0 test)
