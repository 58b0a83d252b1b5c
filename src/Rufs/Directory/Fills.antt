-- ===== src/Rufs/Directory/Fills.antt =====
-- Where dir_add of project4/code/rufs.c fills an entry that was not in use.
use cs416_operating_systems.Base.{
  ℕ, zero, suc, ◌+◌, ◌^◌, ◌≤◌, ◌<◌, ◌≡◌, ◌≢◌, refl, sym, ◌∙◌, inl, inr, true, none, some, List,
  arith, ◌==◌, ==_iff, ==→ne, eq_or_ne, Bool-cases, Option-cases,
}
use cs416_operating_systems.Base.Memory.{Bytes}
use cs416_operating_systems.Base.Search.{found, missing, search_lem}
use cs416_operating_systems.Rufs.{minus_one, ok}
use cs416_operating_systems.Rufs.Device.{place, can_read, can_write, bio_read}
use cs416_operating_systems.Rufs.Inode
use cs416_operating_systems.Rufs.Inode.{inode_size}
use cs416_operating_systems.Rufs.Dirent.{ents_per_blk}
use cs416_operating_systems.Rufs.State.{Fs, Outcome, fail}
use cs416_operating_systems.Rufs.InodeTable.{inode_block, readi}
use cs416_operating_systems.Rufs.Directory.{
  is_unused_entry, fill_entry, finish_add, add_block, add_loop,
}
use cs416_operating_systems.Rufs.Directory.Change.{some_injective}

-- A directory with the inode `n` as it stands on the disk: its blocks and the block of its inode
-- can be read and written, and the latter is none of the former.
pub record IsDirectory (fs : Fs) (n : Bytes) : Type 0 where
  pub stored : readi fs (Inode.ino n) ≡ ok n
  pub small : fs.sb.max_inum ≤ 2 ^ 16
  pub inode_write : can_write fs.disk (inode_block fs.sb (Inode.ino n)) ≡ true
  pub block_read :
      (i : ℕ) → i < 16 → Inode.direct_ptr n i ≢ 0 → can_read fs.disk (Inode.direct_ptr n i) ≡ true
  pub block_write :
      (i : ℕ) → i < 16 → Inode.direct_ptr n i ≢ 0 → can_write fs.disk (Inode.direct_ptr n i) ≡ true
  pub apart :
      (i : ℕ)
      → i < 16
      → Inode.direct_ptr n i ≢ 0
      → place (Inode.direct_ptr n i) ≢ place (inode_block fs.sb (Inode.ino n))

-- Entry `j` of block `i`, which reads as `b`, is not in use.
pub record Unused (fs : Fs) (n : Bytes) (i j : ℕ) (b : Bytes) : Type 0 where
  pub in_use : Inode.direct_ptr n i ≢ 0
  pub block : bio_read (Inode.direct_ptr n i) fs.disk ≡ some b
  pub in_block : j < ents_per_blk
  pub free : is_unused_entry b j ≡ true

-- Where the loop of dir_add fills an entry, if it does.
pub data Fills (fs : Fs) (time : ℕ) (n : Bytes) (f_ino : ℕ) (fname : List ℕ) (lo hi : ℕ)
    (r : Outcome (Unit {0})) : Type 0 where
  fills :
      (i j : ℕ) (b : Bytes)
      → lo ≤ i
      → i < hi
      → Unused fs n i j b
      → r ≡ finish_add fs time n (Inode.direct_ptr n i) (fill_entry b j f_ino fname)
      → Fills fs time n f_ino fname lo hi r
  packed :
      ((i j : ℕ) (b : Bytes) → lo ≤ i → i < hi → ¬ Unused fs n i j b)
      → r ≡ add_block fs time n f_ino fname
      → Fills fs time n f_ino fname lo hi r
  broken :
      (i : ℕ)
      → lo ≤ i
      → i < hi
      → Inode.direct_ptr n i ≢ 0
      → bio_read (Inode.direct_ptr n i) fs.disk ≡ none
      → r ≡ fail minus_one fs
      → Fills fs time n f_ino fname lo hi r

module _ (fs : Fs) (time : ℕ) (n : Bytes) (f_ino : ℕ) (fname : List ℕ) where
  later :
      (i hi : ℕ) {r : Outcome (Unit {0})}
      → ((j : ℕ) (b : Bytes) → ¬ Unused fs n i j b)
      → Fills fs time n f_ino fname (i + 1) hi r
      → Fills fs time n f_ino fname i hi r
  later i hi skip (fills k j b lo lt u e) = fills k j b (omega arith) lt u e
  later i hi skip (packed all e) =
      packed
        (λ k j b lo lt u. elim (eq_or_ne k i) [
          | inl q ↦ skip j b (rw q at u)
          | inr ne ↦ all k j b (omega (arith, ne)) lt u
        ])
        e
  later i hi skip (broken k lo lt nz bad e) = broken k (omega arith) lt nz bad e

  pub add_loop-Fills :
      (rounds i : ℕ)
      → Fills fs time n f_ino fname i (i + rounds) (add_loop rounds i fs time n f_ino fname)
  unfolding add_loop
  add_loop-Fills zero i = packed (λ k j b lo lt u. absurd (omega arith)) refl
  add_loop-Fills (suc rounds) i =
      let shift : i + 1 + rounds ≡ i + suc rounds = omega arith in
      let rest = rw shift at (add_loop-Fills rounds (i + 1)) in
      elim (Bool-cases (Inode.direct_ptr n i == 0)) [
        | inl z ↦ rw (add_loop, z) (later i _ (λ j b u. u.in_use ((==_iff _ _).0 z)) rest)
        | inr z ↦ elim (Option-cases (bio_read (Inode.direct_ptr n i) fs.disk)) [
          | inl e ↦ rw (add_loop, z, e) (broken i (omega arith) (omega arith) (==→ne _ _ z) e refl)
          | inr (b, e) ↦ elim (search_lem ents_per_blk (is_unused_entry b)) [
            | found j r lo lt t before ↦
                rw (add_loop, z, e, r)
                  (fills i j b (omega arith) (omega arith)
                    (record { in_use = ==→ne _ _ z; block = e; in_block = lt; free = t }) refl)
            | missing r all ↦
                rw (add_loop, z, e, r)
                  (later i _
                    (λ j c u. cc (
                      all j (omega arith) u.in_block,
                      rw (some_injective (sym u.block ∙ e)) at u.free,
                    ))
                    rest)
          ]
        ]
      ]
