-- ===== src/Rufs/Data/Writing.antt =====
-- The loop of rufs_write of project4/code/rufs.c in a file whose blocks are allocated.
use cs416_operating_systems.Base.{
  ℕ, zero, suc, ◌+◌, ◌-◌, ◌*◌, ◌≤◌, ◌<◌, ◌≡◌, ◌≢◌, refl, inl, inr, true, false, arith, leb, ltb,
  ltb→lt, ltb→le, ne→==, Bool-cases,
}
use cs416_operating_systems.Base.Memory.{Bytes}
use cs416_operating_systems.Rufs.{block_size}
use cs416_operating_systems.Rufs.Inode
use cs416_operating_systems.Rufs.State.{Fs, done}
use cs416_operating_systems.Rufs.Data.{chunk, with_block, write_loop}
use cs416_operating_systems.Rufs.Data.Content.{
  IsFile, Wrote, nothing-Wrote, moved-Wrote, both-Wrote, block-Wrote, still-IsFile, written,
}

with_block-set :
    (fs : Fs) (n : Bytes) (i : ℕ) → Inode.direct_ptr n i ≢ 0 → with_block fs n i ≡ done n fs
unfolding with_block
with_block-set fs n i nz = rw (with_block, ne→== _ _ nz) refl

pub chunk-bounds :
    (bo left : ℕ)
    → bo < block_size
    → (chunk bo left ≤ left)
      × (bo + chunk bo left ≤ block_size)
      × (chunk bo left < left → bo + chunk bo left ≡ block_size)
chunk-bounds bo left h = ground arith

pub leb-false : (a b : ℕ) → leb a b ≡ false → b < a
leb-false a b h = ground arith

pub leb-true : (a b : ℕ) → leb a b ≡ true → a ≤ b
leb-true a b h = ground arith

-- What is left after one round begins at the next block, where the round has ended unless nothing
-- is left.
pub rest_room :
    (i bo size k blocks : ℕ)
    → bo < block_size
    → k ≤ size
    → i * block_size + bo + (size - k) ≤ blocks * block_size
    → i < blocks
    → let c = chunk bo (size - k) in
      (i + 1) * block_size + 0 + (size - (k + c)) ≤ blocks * block_size
rest_room i bo size k blocks hb hk room hi = ground arith

joined :
    (f g : Fs) (n : Bytes) (blocks i bo size k : ℕ) (buffer : Bytes)
    → bo < block_size
    → k ≤ size
    → let c = chunk bo (size - k) in
      Wrote f g n blocks ((i + 1) * block_size + 0) (size - (k + c)) (k + c) buffer
      → Wrote f g n blocks (i * block_size + bo + c) (size - (k + c)) (k + c) buffer
joined f g n blocks i bo size k buffer hb hk w =
    let c = chunk bo (size - k) in
    let (fits, whole, full) = chunk-bounds bo (size - k) hb in
    elim (Bool-cases (ltb c (size - k))) [
      | inl t ↦
          let ends = full (ltb→lt _ _ t) in
          let e : (i + 1) * block_size + 0 ≡ i * block_size + bo + c = omega (arith, ends) in
          rw e at w
      | inr t ↦
          let e : size - (k + c) ≡ 0 = omega (arith, ltb→le _ _ t, fits, hk) in
          rw e (moved-Wrote f g n blocks _ _ (k + c) buffer (rw e at w))
    ]

-- From byte `k` of the buffer on, at byte `bo` of block `i`.
pub write_loop-Wrote :
    (rounds i : ℕ) (fs : Fs) (n : Bytes) (blocks size k bo : ℕ) (buffer : Bytes)
    → i + rounds ≡ 16
    → bo < block_size
    → k ≤ size
    → i * block_size + bo + (size - k) ≤ blocks * block_size
    → IsFile fs n blocks
    → (fs' : Fs) × (write_loop rounds i fs n size k bo buffer ≡ done (size, n) fs')
      × Wrote fs fs' n blocks (i * block_size + bo) (size - k) k buffer
unfolding write_loop
write_loop-Wrote zero i fs n blocks size k bo buffer last hb hk room file =
    let e : size ≡ k = omega (arith, last, room, hk, file.few) in
    let none_left : size - k ≡ 0 = omega (arith, e) in
    (fs, rw e refl, rw none_left (nothing-Wrote fs n blocks _ k buffer))
write_loop-Wrote (suc rounds) i fs n blocks size k bo buffer last hb hk room file =
    elim (Bool-cases (leb size k)) [
      | inl t ↦
          let e : size ≡ k = omega (arith, leb-true _ _ t, hk) in
          let none_left : size - k ≡ 0 = omega (arith, e) in
          (fs, rw (write_loop, t, e) refl, rw none_left (nothing-Wrote fs n blocks _ k buffer))
      | inr t ↦
          let more = leb-false _ _ t in
          let (fits, whole, full) = chunk-bounds bo (size - k) hb in
          let c = chunk bo (size - k) in
          let hi : i < blocks = omega (arith, room, more) in
          let step = block-Wrote fs n blocks i bo c k buffer file hi whole in
          let fs1 = written fs n blocks i bo c k buffer file hi whole in
          let (fs', r, w) =
            write_loop-Wrote rounds (i + 1) fs1 n blocks size (k + c) 0 buffer (omega (arith, last))
              (omega arith) (omega (arith, fits, hk)) (rest_room i bo size k blocks hb hk room hi)
              (still-IsFile file step) in
          let sum : c + (size - (k + c)) ≡ size - k = omega (arith, fits, hk) in
          (
            fs',
            rw (write_loop, t, with_block-set fs n i (file.set i hi)) r,
            rw sum at (
                both-Wrote fs fs1 fs' n blocks (i * block_size + bo) c (size - (k + c)) k buffer
                  (omega (arith, room, fits, hk)) step
                  (joined fs1 fs' n blocks i bo size k buffer hb hk w)),
          )
    ]
