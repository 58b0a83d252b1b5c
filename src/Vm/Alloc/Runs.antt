-- ===== src/Vm/Alloc/Runs.antt =====
-- get_next_avail of my_vm.c: first fit over the virtual bitmap.
use cs416_operating_systems.Base.{
  ℕ, zero, suc, ◌+◌, ◌-◌, ◌*◌, ◌%◌, ◌^◌, ◌≤◌, ◌<◌, ◌≡◌, refl, inl, inr, false, Option, none, some,
  arith, eq_or_ne, Bool-cases, ◌==◌, leb, ==_iff, if◌then◌else◌,
}
use cs416_operating_systems.Base.Memory.{Bytes, IsBytes}
use cs416_operating_systems.Vm.{Vm, u32}
use cs416_operating_systems.Vm.Bitmap.{
  get_bit, set_bit, get_bit-lt, get_bit-set_bit, set_bit-IsBytes,
}
use cs416_operating_systems.Vm.Alloc.{set_run, find_run, get_next_avail}
use cs416_operating_systems.Vm.Alloc.Free.{within}

-- The `n` pages from `v` on are free.
abbrev pub IsFree : Bytes → ℕ → ℕ → Type 0
IsFree bitmap v n = (u : ℕ) → v ≤ u → u < v + n → get_bit bitmap u ≡ 0

-- One of the `n` pages from `v` on is in use.
abbrev pub IsBlocked : Bytes → ℕ → ℕ → Type 0
IsBlocked bitmap v n = (u : ℕ) × (v ≤ u) × (u < v + n) × (get_bit bitmap u ≡ 1)

-- The result of a search of `rounds` pages from `vpn` on, of which the last `free` before are free:
-- the first run of `n` free pages, or none.
data FindsRun (rounds vpn free n : ℕ) (bitmap : Bytes) (r : Option ℕ) : Type 0 where
  run :
      (v : ℕ)
      → r ≡ some v
      → vpn ≤ v + free
      → v + n ≤ vpn + rounds
      → IsFree bitmap v n
      → ((u : ℕ) → vpn ≤ u + free → u < v → IsBlocked bitmap u n)
      → FindsRun rounds vpn free n bitmap r
  no_run :
      r ≡ none
      → ((u : ℕ) → vpn ≤ u + free → u + n ≤ vpn + rounds → IsBlocked bitmap u n)
      → FindsRun rounds vpn free n bitmap r

module _ (n : ℕ) (bitmap : Bytes) (pos : 0 < n) (bytes : IsBytes bitmap) where
  -- A page in use, and then the rest of the search with no free page before it.
  step_used :
      (rounds vpn free : ℕ) (r : Option ℕ)
      → free < n
      → get_bit bitmap vpn ≡ 1
      → FindsRun rounds (vpn + 1) 0 n bitmap r
      → FindsRun (suc rounds) vpn free n bitmap r
  step_used rounds vpn free r lt used (run v e lo hi all first) =
      run v e (omega arith) (omega arith) all λ u a b. elim (Bool-cases (leb u vpn)) [
        | inl early ↦ (vpn, ground arith, ground arith, used)
        | inr late ↦ first u (ground arith) b
      ]
  step_used rounds vpn free r lt used (no_run e none_left) = no_run e λ u a b.
      elim (Bool-cases (leb u vpn)) [
        | inl early ↦ (vpn, ground arith, ground arith, used)
        | inr late ↦ none_left u (ground arith) (omega arith)
      ]

  -- A free page, and then the rest of the search with one more free page before it.
  step_free :
      (rounds vpn free : ℕ) (r : Option ℕ)
      → FindsRun rounds (vpn + 1) (free + 1) n bitmap r
      → FindsRun (suc rounds) vpn free n bitmap r
  step_free rounds vpn free r (run v e lo hi all first) =
      run v e (omega arith) (omega arith) all λ u a b. first u (omega arith) b
  step_free rounds vpn free r (no_run e none_left) =
      no_run e λ u a b. none_left u (omega arith) (omega arith)

  -- A free page at the end of a run of free pages makes it longer.
  longer :
      (vpn free : ℕ)
      → free ≤ vpn
      → IsFree bitmap (vpn - free) free
      → get_bit bitmap vpn ≡ 0
      → IsFree bitmap (vpn - free) (free + 1)
  longer vpn free le before z u a b = elim (eq_or_ne u vpn) [
    | inl e ↦ rw e z
    | inr ne ↦ before u a (omega arith)
  ]

  find_run-FindsRun :
      (rounds vpn free : ℕ)
      → free < n
      → free ≤ vpn
      → IsFree bitmap (vpn - free) free
      → FindsRun rounds vpn free n bitmap (find_run rounds vpn free n bitmap)
  unfolding find_run
  find_run-FindsRun zero vpn free lt le before = no_run refl λ u a b. absurd (omega arith)
  find_run-FindsRun (suc rounds) vpn free lt le before =
      elim (Bool-cases (get_bit bitmap vpn == 1)) [
        | inl used ↦
            let none_yet : leb n 0 ≡ false = ground arith in
            rw (used, none_yet, find_run)
              (rw used (
                step_used rounds vpn free _ lt ((==_iff _ 1).0 used) (
                  find_run-FindsRun rounds (vpn + 1) 0 pos (omega arith)
                    (λ u a b. absurd (omega arith)))))
        | inr open_page ↦ elim (Bool-cases (leb n (free + 1))) [
          | inl enough ↦
              let e : n ≡ free + 1 = ground arith in
              let z : get_bit bitmap vpn ≡ 0 = ground (arith, get_bit-lt bitmap vpn bytes) in
              rw (open_page, enough, find_run)
                (run (vpn + 1 - n) refl (omega arith) (omega arith)
                  (λ u a b. longer vpn free le before z u (omega arith) (omega arith))
                  (λ u a b. absurd (omega arith)))
          | inr more ↦
              let z : get_bit bitmap vpn ≡ 0 = ground (arith, get_bit-lt bitmap vpn bytes) in
              rw (open_page, more, find_run)
                (rw open_page (
                  step_free rounds vpn free _ (
                    find_run-FindsRun rounds (vpn + 1) (free + 1) (ground arith) (omega arith)
                      (λ u a b. longer vpn free le before z u (omega arith) (omega arith)))))
        ]
      ]

pub set_run-IsBytes : (n v : ℕ) (bitmap : Bytes) → IsBytes bitmap → IsBytes (set_run n v bitmap)
unfolding set_run
set_run-IsBytes zero v bitmap h = h
set_run-IsBytes (suc n) v bitmap h =
    set_run-IsBytes n (v + 1) (set_bit bitmap v) (set_bit-IsBytes bitmap v h)

pub get_bit-set_run :
    (n v : ℕ) (bitmap : Bytes)
    → IsBytes bitmap
    → (u : ℕ) → get_bit (set_run n v bitmap) u ≡ (if within v n u then 1 else get_bit bitmap u)
unfolding set_run
get_bit-set_run zero v bitmap h u = ground arith
get_bit-set_run (suc n) v bitmap h u = ground (
  arith,
  get_bit-set_run n (v + 1) (set_bit bitmap v) (set_bit-IsBytes bitmap v h) u,
  get_bit-set_bit bitmap v u h,
)

-- The state with the pages `v` to `v + n` marked.
abbrev pub reserving : Vm → ℕ → ℕ → Vm
reserving s v n = record s { virt_bitmap = set_run n v s.virt_bitmap }

pub data Reserves (s : Vm) (n : ℕ) (r : ℕ × Vm) : Type 0 where
  reserved :
      (v : ℕ)
      → r ≡ (v * 2 ^ 12, reserving s v n)
      → 0 < v
      → v + n ≤ s.num_virt_pages
      → IsFree s.virt_bitmap v n
      → ((u : ℕ) → 0 < u → u < v → IsBlocked s.virt_bitmap u n)
      → ((u : ℕ)
          → get_bit (reserving s v n).virt_bitmap u
            ≡ (if within v n u then 1 else get_bit s.virt_bitmap u))
      → Reserves s n r
  no_space :
      r ≡ (0, s)
      → ((u : ℕ) → 0 < u → u + n ≤ s.num_virt_pages → IsBlocked s.virt_bitmap u n)
      → Reserves s n r

-- get_next_avail of at least one page, with at most 2^20 pages of address space: it returns the
-- address of the lowest run of that many free pages above page 0, and marks exactly its pages; or
-- each such run has a page in use, and it returns NULL and changes nothing.
pub get_next_avail-Reserves :
    (s : Vm) (n : ℕ)
    → 0 < n
    → 0 < s.num_virt_pages
    → s.num_virt_pages ≤ 2 ^ 20
    → IsBytes s.virt_bitmap
    → Reserves s n (get_next_avail n s)
unfolding get_next_avail
get_next_avail-Reserves s n pos some_pages fits bytes = go _ (
    find_run-FindsRun n s.virt_bitmap pos bytes (s.num_virt_pages - 1) 1 0 pos (omega arith)
      (λ u a b. absurd (omega arith)))
  where
    go :
        (r : Option ℕ)
        → FindsRun (s.num_virt_pages - 1) 1 0 n s.virt_bitmap r
        → Reserves s n (elim r [ none ↦ (0, s) | some v ↦ (v * 2 ^ 12 % u32, reserving s v n) ])
    go r (run v e lo hi all first) =
        let small : v * 2 ^ 12 % u32 ≡ v * 2 ^ 12 = omega arith in
        rw (e, small)
          (reserved v refl (omega arith) (omega arith) all (λ u a b. first u (omega arith) b)
            (get_bit-set_run n v s.virt_bitmap bytes))
    go r (no_run e none_left) =
        rw e (no_space refl λ u a b. none_left u (omega arith) (omega arith))
