-- ===== src/Rufs/Device/Blocks.antt =====
-- What bio_read of project4/code/block.c returns after bio_write.
use cs416_operating_systems.Base.{
  ℕ, ◌≡◌, ◌≢◌, refl, inl, inr, true, false, some, ne→==, ==_self, Bool-cases,
}
use cs416_operating_systems.Base.Memory.{Bytes, IsBytes, update}
use cs416_operating_systems.Rufs.Device.{
  Disk, place, can_read, can_write, bio_read, read_buffer, bio_write, write_through,
}

-- Every cell of every block holds a byte.
abbrev pub IsDisk : Disk → Type 0
IsDisk d = (n : ℕ) → IsBytes (d.blocks n)

pub bio_read-eq :
    (n : ℕ) (d : Disk) → can_read d n ≡ true → bio_read n d ≡ some (d.blocks (place n))
unfolding bio_read
bio_read-eq n d r = rw r

pub bio_read_place : (m n : ℕ) (d : Disk) → place m ≡ place n → bio_read m d ≡ bio_read n d
unfolding bio_read can_read
bio_read_place m n d e = rw e refl

-- A read that succeeds.
module _ (n : ℕ) (d : Disk) (b : Bytes) (e : bio_read n d ≡ some b) where
  pub bio_read-some : (can_read d n ≡ true) × (d.blocks (place n) ≡ b)
  unfolding bio_read
  bio_read-some = elim (Bool-cases (can_read d n)) [
    | inl r ↦ (r, cc (rw r at e))
    | inr r ↦ absurd (cc (rw r at e))
  ]

  pub bio_read-IsBytes : IsDisk d → IsBytes b
  bio_read-IsBytes h = rw bio_read-some.1 at (h (place n))

  pub read_buffer-eq : read_buffer n d ≡ b
  unfolding read_buffer
  read_buffer-eq = rw (read_buffer, e) refl

-- A block that can be written is, and reads of other blocks are as before.
module _ (n : ℕ) (b : Bytes) (d : Disk) where
  pub bio_write-eq :
      can_write d n ≡ true
      → bio_write n b d ≡ some (record d { blocks = update d.blocks (place n) b })
  unfolding bio_write
  bio_write-eq h = rw h

  pub write_through-eq :
      can_write d n ≡ true → write_through n b d ≡ record d { blocks = update d.blocks (place n) b }
  unfolding write_through
  write_through-eq h = rw (write_through, bio_write-eq h) refl

  unwritten : can_write d n ≡ false → write_through n b d ≡ d
  unfolding write_through bio_write
  unwritten e = rw (write_through, bio_write, e) refl

  pub can_read-write_through : (m : ℕ) → can_read (write_through n b d) m ≡ can_read d m
  unfolding can_read
  can_read-write_through m = elim (Bool-cases (can_write d n)) [
    | inl e ↦ rw (write_through-eq e) refl
    | inr e ↦ rw (unwritten e) refl
  ]

  pub can_write-write_through : (m : ℕ) → can_write (write_through n b d) m ≡ can_write d m
  unfolding can_write
  can_write-write_through m = elim (Bool-cases (can_write d n)) [
    | inl e ↦ rw (write_through-eq e) refl
    | inr e ↦ rw (unwritten e) refl
  ]

  -- A written block reads back.
  pub bio_read-write_through_self :
      can_write d n ≡ true → can_read d n ≡ true → bio_read n (write_through n b d) ≡ some b
  unfolding bio_read
  bio_read-write_through_self w r =
      rw (can_read-write_through n, r, write_through-eq w, ==_self (place n)) refl

  pub bio_read-write_through_apart :
      (m : ℕ) → place m ≢ place n → bio_read m (write_through n b d) ≡ bio_read m d
  unfolding bio_read
  bio_read-write_through_apart m ne = elim (Bool-cases (can_write d n)) [
    | inl e ↦ rw (can_read-write_through m, write_through-eq e, ne→== (place m) (place n) ne) refl
    | inr e ↦ rw (unwritten e) refl
  ]
