-- ===== src/Rufs/Directory/Find.antt =====
-- What dir_find of project4/code/rufs.c returns, by the entries of the directory's blocks.
use cs416_operating_systems.Base.{
  ℕ, zero, suc, ◌+◌, ◌≤◌, ◌<◌, ◌≡◌, ◌≢◌, refl, inl, inr, true, false, none, some, List, arith,
  le→ltb, length, ◌==◌, ==_iff, ==→ne, eq_or_ne, Bool-cases, Option-cases,
}
use cs416_operating_systems.Base.Memory.{Bytes}
use cs416_operating_systems.Base.Search.{found, missing, search_lem}
use cs416_operating_systems.Rufs.{eio, enonet, Result, ok, err}
use cs416_operating_systems.Rufs.Device.{bio_read}
use cs416_operating_systems.Rufs.Inode
use cs416_operating_systems.Rufs.Dirent
use cs416_operating_systems.Rufs.Dirent.{ents_per_blk}
use cs416_operating_systems.Rufs.State.{Fs}
use cs416_operating_systems.Rufs.InodeTable.{readi}
use cs416_operating_systems.Rufs.InodeTable.Roundtrip.{readi-valid}
use cs416_operating_systems.Rufs.Directory.{is_match, find_loop, dir_find}

-- Entry `j` of block `i` of the directory, which reads as `b`, is in use and has the name.
pub record Named (fs : Fs) (dir_inode : Bytes) (fname : List ℕ) (i j : ℕ) (b : Bytes) : Type 0 where
  pub in_use : Inode.direct_ptr dir_inode i ≢ 0
  pub block : bio_read (Inode.direct_ptr dir_inode i) fs.disk ≡ some b
  pub in_block : j < ents_per_blk
  pub match : is_match b fname j ≡ true

-- The blocks from `lo` up to `hi` are readable, and no entry of theirs has the name.
abbrev pub Lacks : Fs → Bytes → List ℕ → ℕ → ℕ → Type 0
Lacks fs dir_inode fname lo hi =
    (i : ℕ)
    → lo ≤ i
    → i < hi
    → Inode.direct_ptr dir_inode i ≢ 0
    → (b : Bytes) × (bio_read (Inode.direct_ptr dir_inode i) fs.disk ≡ some b)
      × ((j : ℕ) → j < ents_per_blk → is_match b fname j ≡ false)

-- A search of the blocks from `lo` up to `hi`.
pub data DirFinds (fs : Fs) (dir_inode : Bytes) (fname : List ℕ) (lo hi : ℕ) (r : Result Bytes)
    : Type 0 where
  present :
      (i j : ℕ) (b : Bytes)
      → lo ≤ i
      → i < hi
      → Named fs dir_inode fname i j b
      → Lacks fs dir_inode fname lo i
      → ((k : ℕ) → k < j → is_match b fname k ≡ false)
      → r ≡ ok (Dirent.entry b j)
      → DirFinds fs dir_inode fname lo hi r
  absent : Lacks fs dir_inode fname lo hi → r ≡ err enonet → DirFinds fs dir_inode fname lo hi r
  unreadable :
      (i : ℕ)
      → lo ≤ i
      → i < hi
      → Inode.direct_ptr dir_inode i ≢ 0
      → bio_read (Inode.direct_ptr dir_inode i) fs.disk ≡ none
      → Lacks fs dir_inode fname lo i
      → r ≡ err eio
      → DirFinds fs dir_inode fname lo hi r

module _ (fs : Fs) (n : Bytes) (fname : List ℕ) where
  -- Block `i` lacks the name.
  abbrev Skips : ℕ → Type 0
  Skips i =
      Inode.direct_ptr n i ≢ 0
      → (b : Bytes) × (bio_read (Inode.direct_ptr n i) fs.disk ≡ some b)
        × ((j : ℕ) → j < ents_per_blk → is_match b fname j ≡ false)

  extend : (i hi : ℕ) → Skips i → Lacks fs n fname (i + 1) hi → Lacks fs n fname i hi
  extend i hi skip lacks k lo lt nz = elim (eq_or_ne k i) [
    | inl e ↦ rw e (skip (rw e at nz))
    | inr ne ↦ lacks k (omega (arith, ne)) lt nz
  ]

  later :
      (i hi : ℕ) {r : Result Bytes}
      → Skips i
      → DirFinds fs n fname (i + 1) hi r
      → DirFinds fs n fname i hi r
  later i hi skip (present k j b lo lt named lacks before e) =
      present k j b (omega arith) lt named (extend i k skip lacks) before e
  later i hi skip (absent lacks e) = absent (extend i hi skip lacks) e
  later i hi skip (unreadable k lo lt nz bad lacks e) =
      unreadable k (omega arith) lt nz bad (extend i k skip lacks) e

  none_before : (i : ℕ) → Lacks fs n fname i i
  none_before i k lo lt nz = absurd (omega arith)

  pub find_loop-DirFinds :
      (rounds i : ℕ) → DirFinds fs n fname i (i + rounds) (find_loop rounds i fs n fname)
  unfolding find_loop
  find_loop-DirFinds zero i = absent (λ k lo lt nz. absurd (omega arith)) refl
  find_loop-DirFinds (suc rounds) i =
      let shift : i + 1 + rounds ≡ i + suc rounds = omega arith in
      let rest = rw shift at (find_loop-DirFinds rounds (i + 1)) in
      elim (Bool-cases (Inode.direct_ptr n i == 0)) [
        | inl z ↦ rw (find_loop, z) (later i _ (λ nz. absurd (nz ((==_iff _ _).0 z))) rest)
        | inr z ↦ elim (Option-cases (bio_read (Inode.direct_ptr n i) fs.disk)) [
          | inl e ↦
              rw (find_loop, z, e)
                (unreadable i (omega arith) (omega arith) (==→ne _ _ z) e (none_before i) refl)
          | inr (b, e) ↦ elim (search_lem ents_per_blk (is_match b fname)) [
            | found j r lo lt t before ↦
                rw (find_loop, z, e, r)
                  (present i j b (omega arith) (omega arith)
                    (record { in_use = ==→ne _ _ z; block = e; in_block = lt; match = t })
                    (none_before i) (λ k h. before k (omega arith) h) refl)
            | missing r all ↦
                rw (find_loop, z, e, r)
                  (later i _ (λ nz. (b, e, λ j h. all j (omega arith) h)) rest)
          ]
        ]
      ]

pub dir_find-eq :
    (fs : Fs) (ino : ℕ) (dir_inode : Bytes) (fname : List ℕ)
    → length fname ≤ 208
    → readi fs ino ≡ ok dir_inode
    → dir_find fs ino fname ≡ find_loop 16 0 fs dir_inode fname
unfolding dir_find
dir_find-eq fs ino n fname short e =
    let valid = readi-valid fs ino n e in rw (dir_find, le→ltb _ _ short, e, valid) refl

-- dir_find in a directory whose inode can be read, of a name of at most 208 characters: it returns
-- the first entry in use that has the name; if there is none and all blocks can be read, -ENONET;
-- and -EIO if a block before the entry cannot be read.
pub dir_find-DirFinds :
    (fs : Fs) (ino : ℕ) (dir_inode : Bytes) (fname : List ℕ)
    → length fname ≤ 208
    → readi fs ino ≡ ok dir_inode
    → DirFinds fs dir_inode fname 0 16 (dir_find fs ino fname)
dir_find-DirFinds fs ino n fname short e =
    rw (dir_find-eq fs ino n fname short e) (find_loop-DirFinds fs n fname 16 0)

-- A name that dir_find reports as missing.
pub dir_find-Lacks :
    (fs : Fs) (ino : ℕ) (dir_inode : Bytes) (fname : List ℕ)
    → length fname ≤ 208
    → readi fs ino ≡ ok dir_inode
    → dir_find fs ino fname ≡ err enonet
    → Lacks fs dir_inode fname 0 16
dir_find-Lacks fs ino n fname short e missed = elim (dir_find-DirFinds fs ino n fname short e) [
  | present i j b lo lt named lacks before r ↦ absurd (cc (missed, r))
  | absent lacks r ↦ lacks
  | unreadable i lo lt nz bad lacks r ↦ absurd (cc (missed, r))
]
