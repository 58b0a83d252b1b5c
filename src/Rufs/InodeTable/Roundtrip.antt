-- ===== src/Rufs/InodeTable/Roundtrip.antt =====
-- What readi of project4/code/rufs.c returns after writei.
use cs416_operating_systems.Base.{
  ℕ, ◌+◌, ◌/◌, ◌%◌, ◌^◌, ◌≤◌, ◌<◌, ◌≡◌, ◌≢◌, ◌⊎◌, refl, sym, ◌∙◌, inl, inr, true, false, none, some,
  arith, ltb, lt→ltb, ltb→lt, ◌==◌, ne→==, eq_or_ne, Bool-cases, Option-cases, if◌then◌else◌,
}
use cs416_operating_systems.Base.Memory.{Bytes, load16}
use cs416_operating_systems.Base.Copy.{memcpy, slice}
use cs416_operating_systems.Rufs.{ok, err, enoent, eio}
use cs416_operating_systems.Rufs.Device.{place, can_read, can_write, bio_read}
use cs416_operating_systems.Rufs.Device.Blocks.{
  bio_write-eq, write_through-eq, bio_read-eq, bio_read-some, bio_read-write_through_self,
  bio_read-write_through_apart, can_read-write_through, can_write-write_through,
}
use cs416_operating_systems.Rufs.Inode
use cs416_operating_systems.Rufs.Inode.{inode_size}
use cs416_operating_systems.Rufs.State.{Fs, done, put_block}
use cs416_operating_systems.Rufs.InodeTable.{inode_block, inode_offset, readi, writei, put_inode}

-- A slice of a block after a copy of `n` bytes to `d`.
slice-memcpy_self :
    (b : Bytes) (d : ℕ) (m : Bytes) (n : ℕ) → slice (memcpy b d m 0 n) d n ≡ slice m 0 n
unfolding memcpy
slice-memcpy_self b d m n = λ i q. cell q i
  where
    cell : (q : ℕ) → slice (memcpy b d m 0 n) d n q ≡ slice m 0 n q
    cell q = ground arith

slice-memcpy_apart :
    (b : Bytes) (d e : ℕ) (m : Bytes) (n : ℕ)
    → (d + n ≤ e) ⊎ (e + n ≤ d)
    → slice (memcpy b d m 0 n) e n ≡ slice b e n
unfolding memcpy
slice-memcpy_apart b d e m n h = λ i q. cell q i
  where
    cell : (q : ℕ) → slice (memcpy b d m 0 n) e n q ≡ slice b e n q
    cell q = ground arith

-- Two inodes lie in different blocks or in different parts of one.
place-inode_block :
    (first a b : ℕ)
    → a < 4096
    → b < 4096
    → place ((first + a) % 2 ^ 32) ≡ place ((first + b) % 2 ^ 32)
    → a ≡ b
place-inode_block first a b ha hb e = omega arith

readi-eq :
    (fs : Fs) (ino : ℕ) (b : Bytes)
    → ino < fs.sb.max_inum
    → bio_read (inode_block fs.sb ino) fs.disk ≡ some b
    → readi fs ino ≡ (
        let inode = slice b (inode_offset ino) inode_size in
        if Inode.valid inode == 0 then err enoent else ok inode)
unfolding readi
readi-eq fs ino b lt e = rw (readi, lt→ltb _ _ lt, e) refl

pub writei-eq :
    (fs : Fs) (ino : ℕ) (inode b : Bytes)
    → ino < fs.sb.max_inum
    → bio_read (inode_block fs.sb ino) fs.disk ≡ some b
    → can_write fs.disk (inode_block fs.sb ino) ≡ true
    → writei fs ino inode
      ≡ done tt
          (put_block (inode_block fs.sb ino) (memcpy b (inode_offset ino) inode 0 inode_size) fs)
unfolding writei
writei-eq fs ino inode b lt e w =
    let n = inode_block fs.sb ino in
    let b' = memcpy b (inode_offset ino) inode 0 inode_size in
    rw (writei, lt→ltb _ _ lt, e, bio_write-eq n b' fs.disk w, write_through-eq n b' fs.disk w) refl

readi_beyond : (fs : Fs) (ino : ℕ) → ltb ino fs.sb.max_inum ≡ false → readi fs ino ≡ err enoent
unfolding readi
readi_beyond fs ino h = rw (readi, h) refl

readi_bad :
    (fs : Fs) (ino : ℕ)
    → ino < fs.sb.max_inum
    → bio_read (inode_block fs.sb ino) fs.disk ≡ none
    → readi fs ino ≡ err eio
unfolding readi
readi_bad fs ino lt e = rw (readi, lt→ltb _ _ lt, e) refl

ok_injective : {a b : Bytes} → ok a ≡ ok b → a ≡ b
ok_injective h = cc

-- An inode that readi returns is valid, and stands in the table.
pub readi-ok :
    (fs : Fs) (ino : ℕ) (n : Bytes)
    → readi fs ino ≡ ok n
    → (ino < fs.sb.max_inum)
      × ((Inode.valid n == 0) ≡ false)
      × ((b : Bytes) × (bio_read (inode_block fs.sb ino) fs.disk ≡ some b))
readi-ok fs ino n e = elim (Bool-cases (ltb ino fs.sb.max_inum)) [
  | inr t ↦ absurd (cc (e, readi_beyond fs ino t))
  | inl t ↦ elim (Option-cases (bio_read (inode_block fs.sb ino) fs.disk)) [
    | inl bad ↦ absurd (cc (e, readi_bad fs ino (ltb→lt _ _ t) bad))
    | inr (b, eb) ↦
        let q = readi-eq fs ino b (ltb→lt _ _ t) eb in
        elim (Bool-cases (Inode.valid (slice b (inode_offset ino) inode_size) == 0)) [
          | inl z ↦ absurd (cc (e, rw z at q))
          | inr z ↦ (ltb→lt _ _ t, rw (ok_injective (sym (rw z at q) ∙ e)) at z, (b, eb))
        ]
  ]
]

pub readi-valid :
    (fs : Fs) (ino : ℕ) (n : Bytes) → readi fs ino ≡ ok n → (Inode.valid n == 0) ≡ false
readi-valid fs ino n e = let (lt, valid, block) = readi-ok fs ino n e in valid

-- readi looks at the superblock and at one block.
pub readi_same :
    (fs fs' : Fs) (ino : ℕ)
    → fs'.sb ≡ fs.sb
    → bio_read (inode_block fs.sb ino) fs'.disk ≡ bio_read (inode_block fs.sb ino) fs.disk
    → readi fs' ino ≡ readi fs ino
unfolding readi
readi_same fs fs' ino same e = rw (same, e) refl

load16-slice : (m : Bytes) (a n : ℕ) → a + 2 ≤ n → load16 (slice m 0 n) a ≡ load16 m a
unfolding load16
load16-slice m a n h = ground arith

module _ (fs : Fs) (ino : ℕ) (inode b : Bytes) (lt : ino < fs.sb.max_inum)
    (e : bio_read (inode_block fs.sb ino) fs.disk ≡ some b)
    (w : can_write fs.disk (inode_block fs.sb ino) ≡ true) where
  abbrev written : Bytes
  written = memcpy b (inode_offset ino) inode 0 inode_size

  abbrev stored : Fs
  stored = put_block (inode_block fs.sb ino) written fs

  rereads : bio_read (inode_block fs.sb ino) stored.disk ≡ some written
  rereads =
      bio_read-write_through_self (inode_block fs.sb ino) written fs.disk w
        (bio_read-some (inode_block fs.sb ino) fs.disk b e).0

  readi_self : Inode.valid inode ≢ 0 → readi stored ino ≡ ok (slice inode 0 inode_size)
  readi_self nz =
      rw
        (
          readi-eq stored ino written lt rereads,
          slice-memcpy_self b (inode_offset ino) inode inode_size,
          load16-slice inode 2 inode_size (omega arith),
          ne→== _ _ nz,
        )
        refl

  readi_apart :
      (other : ℕ)
      → ino < 2 ^ 16
      → other < 2 ^ 16
      → other ≢ ino
      → readi stored other ≡ readi fs other
  readi_apart other hi ho ne = elim (eq_or_ne (other / 16) (ino / 16)) [
    | inl s ↦ elim (Bool-cases (ltb other fs.sb.max_inum)) [
      | inl t ↦
          rw
            (
              readi-eq stored other written (ltb→lt _ _ t) (rw s rereads),
              readi-eq fs other b (ltb→lt _ _ t) (rw s e),
              slice-memcpy_apart b (inode_offset ino) (inode_offset other) inode inode_size
                  (omega (arith, s, ne)),
            )
            refl
      | inr t ↦ readi_beyond stored other t ∙ sym (readi_beyond fs other t)
    ]
    | inr d ↦ readi_same fs stored other refl (
        bio_read-write_through_apart _ written fs.disk _
          (λ p. d (place-inode_block fs.sb.i_start_blk _ _ (omega arith) (omega arith) p)))
  ]

-- writei of a valid inode whose block can be read and written: it succeeds, readi then returns the
-- bytes of the inode, and what it returns for every other inode has not changed.
pub readi-writei :
    (fs : Fs) (ino : ℕ) (inode : Bytes)
    → ino < fs.sb.max_inum
    → fs.sb.max_inum ≤ 2 ^ 16
    → can_read fs.disk (inode_block fs.sb ino) ≡ true
    → can_write fs.disk (inode_block fs.sb ino) ≡ true
    → Inode.valid inode ≢ 0
    → let fs' = put_inode fs ino inode in
      (writei fs ino inode ≡ done tt fs')
      × (readi fs' ino ≡ ok (slice inode 0 inode_size))
      × ((other : ℕ) → other < 2 ^ 16 → other ≢ ino → readi fs' other ≡ readi fs other)
readi-writei fs ino inode lt small r w nz =
    let e = bio_read-eq (inode_block fs.sb ino) fs.disk r in
    rw (writei-eq fs ino inode _ lt e w) (
      refl,
      readi_self fs ino inode _ lt e w nz,
      λ other ho ne. readi_apart fs ino inode _ lt e w other (omega arith) ho ne,
    )

-- The blocks other than that of the inode.
module _ (fs : Fs) (ino : ℕ) (inode b : Bytes) (lt : ino < fs.sb.max_inum)
    (e : bio_read (inode_block fs.sb ino) fs.disk ≡ some b)
    (w : can_write fs.disk (inode_block fs.sb ino) ≡ true) (m : ℕ) where
  pub bio_read-put_inode :
      place m ≢ place (inode_block fs.sb ino)
      → bio_read m (put_inode fs ino inode).disk ≡ bio_read m fs.disk
  bio_read-put_inode ne =
      rw (writei-eq fs ino inode b lt e w) (bio_read-write_through_apart _ _ fs.disk m ne)

  pub can_read-put_inode : can_read (put_inode fs ino inode).disk m ≡ can_read fs.disk m
  can_read-put_inode = rw (writei-eq fs ino inode b lt e w) (can_read-write_through _ _ fs.disk m)

  pub can_write-put_inode : can_write (put_inode fs ino inode).disk m ≡ can_write fs.disk m
  can_write-put_inode = rw (writei-eq fs ino inode b lt e w) (can_write-write_through _ _ fs.disk m)
