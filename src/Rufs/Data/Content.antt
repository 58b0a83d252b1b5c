-- ===== src/Rufs/Data/Content.antt =====
-- The bytes of a file of project4/code/rufs.c, and how writing part of one block changes them.
use cs416_operating_systems.Base.{
  ℕ, ◌+◌, ◌-◌, ◌*◌, ◌/◌, ◌%◌, ◌≤◌, ◌<◌, ◌≡◌, ◌≢◌, ◌⊎◌, refl, sym, ap, ◌∙◌, inl, inr, true, false,
  arith, eq_or_ne,
}
use cs416_operating_systems.Base.Memory.{Bytes}
use cs416_operating_systems.Base.Copy.{memcpy, inside, memcpy-inside, memcpy_outside}
use cs416_operating_systems.Rufs.{block_size}
use cs416_operating_systems.Rufs.Device.{place, can_read, can_write, bio_read, read_buffer}
use cs416_operating_systems.Rufs.Device.Blocks.{
  bio_read-eq, read_buffer-eq, bio_read-write_through_self, bio_read-write_through_apart,
  can_read-write_through, can_write-write_through,
}
use cs416_operating_systems.Rufs.Inode
use cs416_operating_systems.Rufs.State.{Fs, put_block}

-- Byte `x` of the file.
abbrev pub content : Fs → Bytes → ℕ → ℕ
content fs n x = read_buffer (Inode.direct_ptr n (x / block_size)) fs.disk (x % block_size)

-- A file with its first blocks allocated: they can be read and written and are all different.
pub record IsFile (fs : Fs) (n : Bytes) (blocks : ℕ) : Type 0 where
  pub few : blocks ≤ 16
  pub set : (i : ℕ) → i < blocks → Inode.direct_ptr n i ≢ 0
  pub reads : (i : ℕ) → i < blocks → can_read fs.disk (Inode.direct_ptr n i) ≡ true
  pub writes : (i : ℕ) → i < blocks → can_write fs.disk (Inode.direct_ptr n i) ≡ true
  pub distinct :
      (i j : ℕ)
      → i < blocks
      → j < blocks
      → place (Inode.direct_ptr n i) ≡ place (Inode.direct_ptr n j)
      → i ≡ j

-- The `len` bytes from `pos` on have been taken from `buffer`, from its position `k` on; nothing
-- else has changed.
pub record Wrote (fs fs' : Fs) (n : Bytes) (blocks pos len k : ℕ) (buffer : Bytes) : Type 0 where
  pub sb : fs'.sb ≡ fs.sb
  pub reads_kept : (m : ℕ) → can_read fs'.disk m ≡ can_read fs.disk m
  pub writes_kept : (m : ℕ) → can_write fs'.disk m ≡ can_write fs.disk m
  pub taken : (x : ℕ) → pos ≤ x → x < pos + len → content fs' n x ≡ buffer (k + (x - pos))
  pub kept :
      (x : ℕ)
      → x < blocks * block_size
      → (x < pos) ⊎ (pos + len ≤ x)
      → content fs' n x ≡ content fs n x
  pub apart :
      (m : ℕ)
      → ((i : ℕ) → i < blocks → place m ≢ place (Inode.direct_ptr n i))
      → bio_read m fs'.disk ≡ bio_read m fs.disk

pub nothing-Wrote :
    (fs : Fs) (n : Bytes) (blocks pos k : ℕ) (buffer : Bytes) → Wrote fs fs n blocks pos 0 k buffer
nothing-Wrote fs n blocks pos k buffer = record {
  sb = refl;
  reads_kept = λ m. refl;
  writes_kept = λ m. refl;
  taken = λ x lo hi. absurd (omega arith);
  kept = λ x h o. refl;
  apart = λ m h. refl;
}

-- Where a write of no bytes is said to stand makes no difference.
pub moved-Wrote :
    (f g : Fs) (n : Bytes) (blocks p q k : ℕ) (buffer : Bytes)
    → Wrote f g n blocks p 0 k buffer
    → Wrote f g n blocks q 0 k buffer
moved-Wrote f g n blocks p q k buffer w = record {
  sb = w.sb;
  reads_kept = w.reads_kept;
  writes_kept = w.writes_kept;
  taken = λ x lo hi. absurd (omega arith);
  kept = λ x h o. w.kept x h (omega arith);
  apart = w.apart;
}

-- Two writes, the second where the first has ended.
pub both-Wrote :
    (f g h : Fs) (n : Bytes) (blocks pos a b k : ℕ) (buffer : Bytes)
    → pos + a + b ≤ blocks * block_size
    → Wrote f g n blocks pos a k buffer
    → Wrote g h n blocks (pos + a) b (k + a) buffer
    → Wrote f h n blocks pos (a + b) k buffer
both-Wrote f g h n blocks pos a b k buffer room u v = record {
  sb = v.sb ∙ u.sb;
  reads_kept = λ m. v.reads_kept m ∙ u.reads_kept m;
  writes_kept = λ m. v.writes_kept m ∙ u.writes_kept m;
  taken = λ x lo hi. elim (le_or_lt (pos + a) x) [
    | inl late ↦
        let e : k + a + (x - (pos + a)) ≡ k + (x - pos) = omega (arith, late) in
        rw e at (v.taken x late (omega arith))
    | inr early ↦ v.kept x (omega arith) (inl early) ∙ u.taken x lo early
  ];
  kept = λ x hx o. v.kept x hx (ground arith) ∙ u.kept x hx (ground arith);
  apart = λ m hm. v.apart m hm ∙ u.apart m hm;
}
  where
    le_or_lt : (a b : ℕ) → (a ≤ b) ⊎ (b < a)
    le_or_lt a b = omega arith

pub still-IsFile :
    {f g : Fs} {n : Bytes} {blocks pos len k : ℕ} {buffer : Bytes}
    → IsFile f n blocks
    → Wrote f g n blocks pos len k buffer
    → IsFile g n blocks
still-IsFile {n = n} file w = record {
  few = file.few;
  set = file.set;
  reads = λ i h. w.reads_kept (Inode.direct_ptr n i) ∙ file.reads i h;
  writes = λ i h. w.writes_kept (Inode.direct_ptr n i) ∙ file.writes i h;
  distinct = file.distinct;
}

-- Writing part of block `i`.
module _ (fs : Fs) (n : Bytes) (blocks i bo len k : ℕ) (buffer : Bytes) (file : IsFile fs n blocks)
    (hi : i < blocks) (room : bo + len ≤ block_size) where
  abbrev pub blk : ℕ
  blk = Inode.direct_ptr n i

  abbrev pub new_block : Bytes
  new_block = memcpy (read_buffer blk fs.disk) bo buffer k len

  abbrev pub written : Fs
  written = put_block blk new_block fs

  in_block : (x : ℕ) → x / block_size ≡ i → content written n x ≡ new_block (x % block_size)
  in_block x e =
      let r =
        bio_read-write_through_self blk new_block fs.disk (file.writes i hi) (file.reads i hi) in
      rw e (ap (λ (m : Bytes). m (x % block_size)) (read_buffer-eq blk written.disk new_block r))

  in_other :
      (x : ℕ) → x < blocks * block_size → x / block_size ≢ i → content written n x ≡ content fs n x
  in_other x h ne =
      let j = x / block_size in
      let hj : j < blocks = omega (arith, h) in
      let e = bio_read-eq (Inode.direct_ptr n j) fs.disk (file.reads j hj) in
      let e' =
        bio_read-write_through_apart blk new_block fs.disk (Inode.direct_ptr n j)
          (λ q. ne (file.distinct j i hj hi q))
        ∙ e in
      ap (λ (m : Bytes). m (x % block_size))
        (read_buffer-eq _ written.disk _ e' ∙ sym (read_buffer-eq _ fs.disk _ e))

  block_taken :
      (x : ℕ)
      → i * block_size + bo ≤ x
      → x < i * block_size + bo + len
      → content written n x ≡ buffer (k + (x - (i * block_size + bo)))
  block_taken x lo hx =
      let here : x / block_size ≡ i = omega (arith, lo, hx, room) in
      let within : inside bo len (x % block_size) ≡ true = ground arith in
      let at : k + (x % block_size - bo) ≡ k + (x - (i * block_size + bo)) = omega arith in
      in_block x here
      ∙ memcpy-inside (read_buffer blk fs.disk) bo buffer k len (x % block_size) within
      ∙ ap buffer at

  block_kept :
      (x : ℕ)
      → x < blocks * block_size
      → (x < i * block_size + bo) ⊎ (i * block_size + bo + len ≤ x)
      → content written n x ≡ content fs n x
  block_kept x h o = elim (eq_or_ne (x / block_size) i) [
    | inr ne ↦ in_other x h ne
    | inl here ↦
        let without : inside bo len (x % block_size) ≡ false = ground arith in
        in_block x here
        ∙ memcpy_outside (read_buffer blk fs.disk) bo buffer k len (x % block_size) without
        ∙ rw here refl
  ]

  pub block-Wrote : Wrote fs written n blocks (i * block_size + bo) len k buffer
  block-Wrote = record {
    sb = refl;
    reads_kept = can_read-write_through blk new_block fs.disk;
    writes_kept = can_write-write_through blk new_block fs.disk;
    taken = λ x lo hx. block_taken x lo hx;
    kept = λ x h o. block_kept x h o;
    apart = λ m h. bio_read-write_through_apart blk new_block fs.disk m (h i hi);
  }
