-- ===== src/Rufs/Data/Roundtrip.antt =====
-- rufs_read of project4/code/rufs.c returns what rufs_write has written.
use cs416_operating_systems.Base.{
  ℕ, ◌+◌, ◌-◌, ◌*◌, ◌/◌, ◌%◌, ◌^◌, ◌≤◌, ◌<◌, ◌≡◌, ◌≢◌, refl, sym, ap, ◌∙◌, inl, inr, true, false,
  arith, leb, ltb, ltb→le, ==→ne, Bool-cases,
}
use cs416_operating_systems.Base.Memory.{Bytes, load16}
use cs416_operating_systems.Base.Copy.{slice}
use cs416_operating_systems.Rufs.{ok, block_size}
use cs416_operating_systems.Rufs.Device.{place, can_read, can_write}
use cs416_operating_systems.Rufs.Device.Blocks.{bio_read-eq, bio_read-some, read_buffer-eq}
use cs416_operating_systems.Rufs.Inode
use cs416_operating_systems.Rufs.Inode.{inode_size}
use cs416_operating_systems.Rufs.Inode.Fields.{
  load32-slice, load32-set_st_mtime, load16-set_st_mtime, load32-set_st_size, load16-set_st_size,
  load32-set_size, load16-set_size, size-set_size,
}
use cs416_operating_systems.Rufs.State.{Fs, done}
use cs416_operating_systems.Rufs.InodeTable.{inode_block, readi, put_inode}
use cs416_operating_systems.Rufs.InodeTable.Roundtrip.{
  readi-ok, readi-writei, bio_read-put_inode, can_read-put_inode, can_write-put_inode,
}
use cs416_operating_systems.Rufs.Data.{resize, grow, write_file, read_file}
use cs416_operating_systems.Rufs.Data.Content.{content, IsFile, Wrote}
use cs416_operating_systems.Rufs.Data.Writing.{write_loop-Wrote}
use cs416_operating_systems.Rufs.Data.Reading.{Reads, read_loop-Reads}

-- The inode that rufs_write writes.
abbrev grown : Bytes → ℕ → ℕ → Bytes
grown n end time = Inode.set_st_mtime (grow n end) time

module _ (n : Bytes) (end time : ℕ) where
  grown-load16 : (a : ℕ) → a ≤ 2 → load16 (grown n end time) a ≡ load16 n a
  unfolding grow resize
  grown-load16 a h = load16-set_st_mtime _ time a h ∙ elim (Bool-cases (ltb (Inode.size n) end)) [
    | inl t ↦ rw (grow, t) (load16-set_st_size _ _ a h ∙ load16-set_size n end a h)
    | inr t ↦ rw (grow, t) refl
  ]

  grown-direct_ptr : (k : ℕ) → k < 16 → Inode.direct_ptr (grown n end time) k ≡ Inode.direct_ptr n k
  unfolding grow resize
  grown-direct_ptr k h =
      load32-set_st_mtime _ time (16 + 4 * k) (omega (arith, h))
      ∙ elim (Bool-cases (ltb (Inode.size n) end)) [
        | inl t ↦
            rw (grow, t)
              (load32-set_st_size _ _ (16 + 4 * k) (omega (arith, h))
                ∙ load32-set_size n end (16 + 4 * k) (omega arith))
        | inr t ↦ rw (grow, t) refl
      ]

  grown-size : end < 2 ^ 32 → end ≤ Inode.size (grown n end time)
  unfolding grow resize
  grown-size h =
      rw (load32-set_st_mtime (grow n end) time 4 (omega arith))
        (elim (Bool-cases (ltb (Inode.size n) end)) [
          | inl t ↦
              rw
                (
                  grow,
                  t,
                  load32-set_st_size (Inode.set_size n end) _ 4 (omega arith),
                  size-set_size n end h,
                )
                (omega arith)
          | inr t ↦ rw (grow, t) (ltb→le _ _ t)
        ])

-- A write of `size` bytes inside the allocated blocks, and a read of them.
module _ (time : ℕ) (fs : Fs) (n : Bytes) (blocks size offset : ℕ) (buffer : Bytes)
    (stored : readi fs (Inode.ino n) ≡ ok n) (small : fs.sb.max_inum ≤ 2 ^ 16)
    (inode_write : can_write fs.disk (inode_block fs.sb (Inode.ino n)) ≡ true)
    (file : IsFile fs n blocks)
    (apart : (i : ℕ)
      → i < blocks
      → place (Inode.direct_ptr n i) ≢ place (inode_block fs.sb (Inode.ino n)))
    (room : offset + size ≤ blocks * block_size) where
  abbrev n2 : Bytes
  n2 = grown n (offset + size) time

  abbrev n3 : Bytes
  n3 = slice n2 0 inode_size

  pointer : (k : ℕ) → k < 16 → Inode.direct_ptr n3 k ≡ Inode.direct_ptr n k
  pointer k h =
      load32-slice n2 (16 + 4 * k) inode_size (omega (arith, h))
      ∙ grown-direct_ptr n (offset + size) time k h

  -- After the loop has left the state `f1`.
  module _ (f1 : Fs) (w : Wrote fs f1 n blocks offset size 0 buffer) where
    abbrev f2 : Fs
    f2 = put_inode f1 (Inode.ino n) n2

    abbrev iblk : ℕ
    iblk = inode_block fs.sb (Inode.ino n)

    table : Inode.ino n < f1.sb.max_inum
    table = rw w.sb (readi-ok fs (Inode.ino n) n stored).0

    read1 : can_read f1.disk (inode_block f1.sb (Inode.ino n)) ≡ true
    read1 =
        let (t, v, (b, e)) = readi-ok fs (Inode.ino n) n stored in
        rw w.sb (w.reads_kept iblk ∙ (bio_read-some iblk fs.disk b e).0)

    write1 : can_write f1.disk (inode_block f1.sb (Inode.ino n)) ≡ true
    write1 = rw w.sb (w.writes_kept iblk ∙ inode_write)

    stored2 : readi f2 (Inode.ino n) ≡ ok n3
    stored2 =
        let (t, v, block) = readi-ok fs (Inode.ino n) n stored in
        let (q, back, others) =
          readi-writei f1 (Inode.ino n) n2 table (rw w.sb small) read1 write1
            (rw (grown-load16 n (offset + size) time 2 (omega arith)) (==→ne _ _ v)) in
        back

    file2 : IsFile f2 n3 blocks
    file2 =
        let e = bio_read-eq (inode_block f1.sb (Inode.ino n)) f1.disk read1 in
        let near : (i : ℕ) → i < blocks → i < 16 = λ i h. omega (arith, h, file.few) in
        record {
          few = file.few;
          set = λ i h. rw (pointer i (near i h)) (file.set i h);
          reads = λ i h. rw (pointer i (near i h)) (
              can_read-put_inode f1 (Inode.ino n) n2 _ table e write1 (Inode.direct_ptr n i)
              ∙ w.reads_kept (Inode.direct_ptr n i)
              ∙ file.reads i h);
          writes = λ i h. rw (pointer i (near i h)) (
              can_write-put_inode f1 (Inode.ino n) n2 _ table e write1 (Inode.direct_ptr n i)
              ∙ w.writes_kept (Inode.direct_ptr n i)
              ∙ file.writes i h);
          distinct = λ i j hi hj q.
              file.distinct i j hi hj (rw (pointer i (near i hi), pointer j (near j hj)) at q);
        }

    content2 : (x : ℕ) → x < blocks * block_size → content f2 n3 x ≡ content f1 n x
    content2 x h =
        let i = x / block_size in
        let hi : i < blocks = omega (arith, h) in
        let p = Inode.direct_ptr n i in
        let e = bio_read-eq (inode_block f1.sb (Inode.ino n)) f1.disk read1 in
        let r = bio_read-eq p f1.disk (w.reads_kept p ∙ file.reads i hi) in
        let ne = rw (sym w.sb) at (apart i hi) in
        let r' = bio_read-put_inode f1 (Inode.ino n) n2 _ table e write1 p ne ∙ r in
        rw (pointer i (omega (arith, hi, file.few))) (
          ap (λ (m : Bytes). m (x % block_size))
            (read_buffer-eq p f2.disk _ r' ∙ sym (read_buffer-eq p f1.disk _ r)))

    size3 : offset + size ≤ Inode.size n3
    size3 =
        rw (load32-slice n2 4 inode_size (omega arith))
          (grown-size n (offset + size) time (omega (arith, room, file.few)))

    -- The read.
    rereads :
        (dst : Bytes) → 0 < size → Reads f2 n3 offset size 0 dst (read_file f2 n3 size offset dst)
    unfolding read_file
    rereads dst some_byte =
        let longer : leb (Inode.size n3) offset ≡ false = ground (arith, size3) in
        let within : ltb (Inode.size n3) ((offset + size) % 2 ^ 64) ≡ false =
          ground (arith, size3) in
        let at : offset / block_size * block_size + offset % block_size ≡ offset = omega arith in
        rw (read_file, longer, within)
          (rw at at (
            read_loop-Reads (16 - offset / block_size) (offset / block_size) f2 n3 blocks size 0
              (offset % block_size) dst (omega (arith, room, file.few)) (omega arith) (omega arith)
              (omega (arith, room)) file2))

-- The loop begins at the offset.
begins :
    {fs f1 : Fs} {n : Bytes} {blocks : ℕ} (size offset : ℕ) {buffer : Bytes}
    → Wrote fs f1 n blocks
        (offset / block_size * block_size + offset % block_size)
        (size - 0)
        0
        buffer
    → Wrote fs f1 n blocks offset size 0 buffer
begins size offset w =
    let start : offset / block_size * block_size + offset % block_size ≡ offset = omega arith in
    let whole : size - 0 ≡ size = omega arith in rw (start, whole) at w

-- write_file of at least one byte inside the blocks that a file has, and then read_file of as many
-- from the same offset, with the inode that readi now returns: both report all bytes, and the
-- buffer that is read into holds what was written.
pub read_file-write_file :
    (time : ℕ) (fs : Fs) (n : Bytes) (blocks size offset : ℕ) (buffer dst : Bytes)
    → readi fs (Inode.ino n) ≡ ok n
    → fs.sb.max_inum ≤ 2 ^ 16
    → can_write fs.disk (inode_block fs.sb (Inode.ino n)) ≡ true
    → IsFile fs n blocks
    → ((i : ℕ)
        → i < blocks
        → place (Inode.direct_ptr n i) ≢ place (inode_block fs.sb (Inode.ino n)))
    → 0 < size
    → offset + size ≤ blocks * block_size
    → (fs' : Fs) × (n' : Bytes) × (write_file time fs n size offset buffer ≡ done size fs')
      × (readi fs' (Inode.ino n) ≡ ok n')
      × ((read_file fs' n' size offset dst).0 ≡ size)
      × ((q : ℕ) → q < size → (read_file fs' n' size offset dst).1 q ≡ buffer q)
unfolding write_file
read_file-write_file time fs n blocks size offset buffer dst stored small iw file apart some_byte
      room =
    let (f1, r, w0) =
      write_loop-Wrote (16 - offset / block_size) (offset / block_size) fs n blocks size 0
        (offset % block_size) buffer (omega (arith, room, file.few)) (omega arith) (omega arith)
        (omega (arith, room)) file in
    let w = begins size offset w0 in
    let number = grown-load16 n (offset + size) time 0 (omega arith) in
    let back =
      rereads time fs n blocks size offset buffer stored small iw file apart room f1 w dst
        some_byte in
    (
      f2 time fs n blocks size offset buffer stored small iw file apart room f1 w,
      n3 time fs n blocks size offset buffer stored small iw file apart room,
      rw (write_file, r, number) refl,
      stored2 time fs n blocks size offset buffer stored small iw file apart room f1 w,
      back.count,
      λ q h.
          back.filled q (omega arith) h
          ∙ content2 time fs n blocks size offset buffer stored small iw file apart room f1 w
              (offset + (q - 0)) (omega (arith, h, room))
          ∙ w.taken (offset + (q - 0)) (omega arith) (omega (arith, h))
          ∙ ap buffer (omega arith),
    )
