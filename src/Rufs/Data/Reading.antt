-- ===== src/Rufs/Data/Reading.antt =====
-- The loop of rufs_read of project4/code/rufs.c in a file whose blocks are allocated.
use cs416_operating_systems.Base.{
  ℕ, zero, suc, ◌+◌, ◌-◌, ◌*◌, ◌/◌, ◌%◌, ◌≤◌, ◌<◌, ◌≡◌, ◌⊎◌, refl, sym, ◌∙◌, inl, inr, true, false,
  arith, leb, ltb, ltb→lt, ltb→le, ne→==, Bool-cases,
}
use cs416_operating_systems.Base.Memory.{Bytes}
use cs416_operating_systems.Base.Copy.{memcpy, inside, memcpy-inside, memcpy_outside}
use cs416_operating_systems.Rufs.{block_size}
use cs416_operating_systems.Rufs.Device.{read_buffer}
use cs416_operating_systems.Rufs.Inode
use cs416_operating_systems.Rufs.State.{Fs}
use cs416_operating_systems.Rufs.Data.{chunk, read_loop}
use cs416_operating_systems.Rufs.Data.Content.{content, IsFile}
use cs416_operating_systems.Rufs.Data.Writing.{leb-false, leb-true, chunk-bounds, rest_room}

-- The buffer has bytes of the file from `pos` on from its position `k` up to `size`, and is
-- otherwise as it was.
pub record Reads (fs : Fs) (n : Bytes) (pos size k : ℕ) (dst : Bytes) (r : ℕ × Bytes) : Type 0 where
  pub count : r.0 ≡ size
  pub filled : (q : ℕ) → k ≤ q → q < size → r.1 q ≡ content fs n (pos + (q - k))
  pub others : (q : ℕ) → (q < k) ⊎ (size ≤ q) → r.1 q ≡ dst q

-- One round that copies `c` bytes from byte `bo` of block `i`, and those that follow it.
module _ (fs : Fs) (n : Bytes) (i bo size k : ℕ) (dst : Bytes) (hb : bo < block_size)
    (hk : k ≤ size) (r : ℕ × Bytes) where
  abbrev c : ℕ
  c = chunk bo (size - k)

  abbrev dst' : Bytes
  dst' = memcpy dst k (read_buffer (Inode.direct_ptr n i) fs.disk) bo c

  one_round :
      Reads fs n ((i + 1) * block_size + 0) size (k + c) dst' r
      → Reads fs n (i * block_size + bo) size k dst r
  one_round rest =
      let (fits, whole, full) = chunk-bounds bo (size - k) hb in
      record {
        count = rest.count;
        filled = λ q lo hi. elim (Bool-cases (ltb q (k + c))) [
          | inl t ↦
              let early : q < k + c = ltb→lt _ _ t in
              let within : inside k c q ≡ true = ground arith in
              let x = i * block_size + bo + (q - k) in
              let here : x / block_size ≡ i = omega (arith, whole, early, lo) in
              let at : x % block_size ≡ bo + (q - k) = omega (arith, whole, early, lo) in
              rest.others q (inl early)
              ∙ memcpy-inside dst k (read_buffer (Inode.direct_ptr n i) fs.disk) bo c q within
              ∙ rw (here, at) refl
          | inr t ↦
              let late = ltb→le _ _ t in
              let ends = full (omega (arith, late, hi, lo)) in
              let e : (i + 1) * block_size + 0 + (q - (k + c)) ≡ i * block_size + bo + (q - k) =
                omega (arith, ends, late) in
              rw e at (rest.filled q late hi)
        ];
        others = λ q o.
            let outside : inside k c q ≡ false = ground arith in
            rest.others q (ground arith)
            ∙ memcpy_outside dst k (read_buffer (Inode.direct_ptr n i) fs.disk) bo c q outside;
      }

pub read_loop-Reads :
    (rounds i : ℕ) (fs : Fs) (n : Bytes) (blocks size k bo : ℕ) (dst : Bytes)
    → i + rounds ≡ 16
    → bo < block_size
    → k ≤ size
    → i * block_size + bo + (size - k) ≤ blocks * block_size
    → IsFile fs n blocks
    → Reads fs n (i * block_size + bo) size k dst (read_loop rounds i fs n size k bo dst)
unfolding read_loop
read_loop-Reads zero i fs n blocks size k bo dst last hb hk room file =
    let e : size ≡ k = omega (arith, last, room, hk, file.few) in
    record { count = sym e; filled = λ q lo hi. absurd (omega (arith, e)); others = λ q o. refl }
read_loop-Reads (suc rounds) i fs n blocks size k bo dst last hb hk room file =
    elim (Bool-cases (leb size k)) [
      | inl t ↦
          let e : size ≡ k = omega (arith, leb-true _ _ t, hk) in
          rw (read_loop, t)
            (record {
              count = sym e;
              filled = λ q lo hi. absurd (omega (arith, e));
              others = λ q o. refl;
            })
      | inr t ↦
          let more = leb-false _ _ t in
          let (fits, whole, full) = chunk-bounds bo (size - k) hb in
          let hi : i < blocks = omega (arith, room, more) in
          rw (read_loop, t, ne→== _ _ (file.set i hi))
            (one_round fs n i bo size k dst hb hk _ (
              read_loop-Reads rounds (i + 1) fs n blocks size (k + chunk bo (size - k)) 0 _
                (omega (arith, last)) (omega arith) (omega (arith, fits, hk))
                (rest_room i bo size k blocks hb hk room hi) file))
    ]
