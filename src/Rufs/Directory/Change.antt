-- ===== src/Rufs/Directory/Change.antt =====
-- A directory of project4/code/rufs.c before and after an entry has been filled: what dir_find
-- returns for the new name and for the others.
use cs416_operating_systems.Base.{
  ℕ, zero, suc, ◌+◌, ◌%◌, ◌^◌, ◌≤◌, ◌<◌, ◌≡◌, ◌≢◌, refl, sym, ap, ◌∙◌, inl, inr, true, false,
  Option, none, some, List, arith, length, ne→==, eq_or_ne,
}
use cs416_operating_systems.Base.Memory.{Bytes, load16}
use cs416_operating_systems.Base.Search.{first_slot, found, missing, search_lem}
use cs416_operating_systems.Rufs.{Result, ok}
use cs416_operating_systems.Rufs.Device.{bio_read}
use cs416_operating_systems.Rufs.Inode
use cs416_operating_systems.Rufs.Dirent
use cs416_operating_systems.Rufs.Dirent.{ents_per_blk}
use cs416_operating_systems.Rufs.State.{Fs}
use cs416_operating_systems.Rufs.Directory.{is_match, is_unused_entry, fill_entry, find_loop}
use cs416_operating_systems.Rufs.Directory.Find.{
  Lacks, present, absent, unreadable, find_loop-DirFinds,
}
use cs416_operating_systems.Rufs.Directory.Same.{find_loop_kept}
use cs416_operating_systems.Rufs.Directory.Fill.{
  filled-match, filled-match_ne, filled-match_other, filled-entry_other, filled_number,
  is_unused_entry-match,
}

-- The `i`-th block of the directory with the inode `n` in the state `fs`.
abbrev block : Fs → Bytes → ℕ → Option Bytes
block fs n i = bio_read (Inode.direct_ptr n i) fs.disk

-- What has become of block `i`: nothing; an unused entry is filled; or a new block has its first
-- entry filled.
pub data Slot (fs fs' : Fs) (n n' : Bytes) (f_ino : ℕ) (fname : List ℕ) (i : ℕ) : Type 0 where
  kept :
      Inode.direct_ptr n' i ≡ Inode.direct_ptr n i
      → (Inode.direct_ptr n i ≢ 0 → block fs' n' i ≡ block fs n i)
      → Slot fs fs' n n' f_ino fname i
  entry :
      (b : Bytes) (j : ℕ)
      → Inode.direct_ptr n i ≢ 0
      → Inode.direct_ptr n' i ≢ 0
      → block fs n i ≡ some b
      → j < ents_per_blk
      → is_unused_entry b j ≡ true
      → block fs' n' i ≡ some (fill_entry b j f_ino fname)
      → Slot fs fs' n n' f_ino fname i
  fresh :
      Inode.direct_ptr n i ≡ 0
      → Inode.direct_ptr n' i ≢ 0
      → block fs' n' i ≡ some (fill_entry (λ _. 0) 0 f_ino fname)
      → Slot fs fs' n n' f_ino fname i

pub some_injective : {a b : Bytes} → some a ≡ some b → a ≡ b
some_injective h = cc

zeros_unused : is_unused_entry (λ _. 0) 0 ≡ true
unfolding is_unused_entry load16
zeros_unused = refl

zeros-match : (g : List ℕ) (j : ℕ) → is_match (λ _. 0) g j ≡ false
unfolding is_match load16
zeros-match g j = refl

module _ (fs fs' : Fs) (n n' : Bytes) (f_ino : ℕ) (fname : List ℕ) (short : length fname ≤ 208)
    (slots : (i : ℕ) → i < 16 → Slot fs fs' n n' f_ino fname i) where
  -- Names other than the new one.
  module _ (g : List ℕ) (hg : length g ≤ 208) (ne : g ≢ fname) where
    -- The matches in a block with a filled entry are those of the block before.
    same_matches :
        (b : Bytes) (j : ℕ)
        → is_unused_entry b j ≡ true
        → (k : ℕ) → is_match (fill_entry b j f_ino fname) g k ≡ is_match b g k
    same_matches b j unused k = elim (eq_or_ne k j) [
      | inl e ↦
          rw e (
            filled-match_ne b j f_ino fname short g hg ne
            ∙ sym (is_unused_entry-match b g j unused))
      | inr other ↦ filled-match_other b j f_ino fname short k other g hg
    ]

    same_search :
        (b : Bytes) (j : ℕ)
        → is_unused_entry b j ≡ true
        → first_slot ents_per_blk 0 (is_match (fill_entry b j f_ino fname) g)
          ≡ first_slot ents_per_blk 0 (is_match b g)
    same_search b j unused = ap (first_slot ents_per_blk 0) (λ i k. same_matches b j unused k i)

    -- An entry that matches another name is not the one filled, and reads as before.
    same_entry :
        (b : Bytes) (j k : ℕ)
        → is_unused_entry b j ≡ true
        → is_match b g k ≡ true
        → Dirent.entry (fill_entry b j f_ino fname) k ≡ Dirent.entry b k
    same_entry b j k unused t =
        filled-entry_other b j f_ino fname short k
          (λ e. absurd (cc (t, rw (sym e) at (is_unused_entry-match b g j unused))))

    abbrev loop : Fs → Bytes → ℕ → ℕ → Result Bytes
    loop s m rounds i = find_loop rounds i s m g

    -- One round on a block with a filled entry, and on a new block.
    round_filled :
        (rounds i : ℕ) (b : Bytes) (j : ℕ)
        → Inode.direct_ptr n i ≢ 0
        → Inode.direct_ptr n' i ≢ 0
        → block fs n i ≡ some b
        → is_unused_entry b j ≡ true
        → block fs' n' i ≡ some (fill_entry b j f_ino fname)
        → loop fs' n' rounds (i + 1) ≡ loop fs n rounds (i + 1)
        → loop fs' n' (suc rounds) i ≡ loop fs n (suc rounds) i
    unfolding find_loop
    round_filled rounds i b j nz nz' e unused e' rest =
        elim (search_lem ents_per_blk (is_match b g)) [
          | found k r lo lt t before ↦
              rw
                (
                  find_loop,
                  ne→== _ _ nz,
                  ne→== _ _ nz',
                  e,
                  e',
                  same_search b j unused,
                  r,
                  same_entry b j k unused t,
                )
                refl
          | missing r all ↦
              rw (find_loop, ne→== _ _ nz, ne→== _ _ nz', e, e', same_search b j unused, r) rest
        ]

    round_fresh :
        (rounds i : ℕ)
        → Inode.direct_ptr n i ≡ 0
        → Inode.direct_ptr n' i ≢ 0
        → block fs' n' i ≡ some (fill_entry (λ _. 0) 0 f_ino fname)
        → loop fs' n' rounds (i + 1) ≡ loop fs n rounds (i + 1)
        → loop fs' n' (suc rounds) i ≡ loop fs n (suc rounds) i
    unfolding find_loop
    round_fresh rounds i z nz' e' rest = elim (search_lem ents_per_blk (is_match (λ _. 0) g)) [
      | found k r lo lt t before ↦ absurd (cc (t, zeros-match g k))
      | missing r all ↦
          rw (find_loop, z, ne→== _ _ nz', e', same_search (λ _. 0) 0 zeros_unused, r) rest
    ]

    -- The two loops agree on block `i` if they agree on what follows.
    pub find_loop_others :
        (rounds i : ℕ) → i + rounds ≤ 16 → find_loop rounds i fs' n' g ≡ find_loop rounds i fs n g
    unfolding find_loop
    find_loop_others zero i h = refl
    find_loop_others (suc rounds) i h =
        let rest = find_loop_others rounds (i + 1) (omega arith) in
        elim (slots i (omega arith)) [
          | kept p same ↦ find_loop_kept fs fs' n n' g rounds i p same rest
          | entry b j nz nz' e lt unused e' ↦ round_filled rounds i b j nz nz' e unused e' rest
          | fresh z nz' e' ↦ round_fresh rounds i z nz' e' rest
        ]

  -- The new name, which no entry had: a search that succeeds finds it.
  module _ (lacks : Lacks fs n fname 0 16) where
    entry_is_new :
        (i k : ℕ) (b' : Bytes)
        → i < 16
        → Inode.direct_ptr n' i ≢ 0
        → block fs' n' i ≡ some b'
        → k < ents_per_blk
        → is_match b' fname k ≡ true
        → Dirent.ino (Dirent.entry b' k) 0 ≡ f_ino % 2 ^ 16
    entry_is_new i k b' hi nz e' hk t = elim (slots i hi) [
      | kept p same ↦
          let nz0 = rw p at nz in
          let (b, e, clear) = lacks i (omega arith) hi nz0 in
          let q : b' ≡ b = some_injective (sym e' ∙ same nz0 ∙ e) in
          absurd (cc (rw q at t, clear k hk))
      | entry b j nz0 nz' e lt unused f ↦
          let (c, ec, clear) = lacks i (omega arith) hi nz0 in
          let q : b' ≡ fill_entry b j f_ino fname = some_injective (sym e' ∙ f) in
          let same : b ≡ c = some_injective (sym e ∙ ec) in
          elim (eq_or_ne k j) [
            | inl kj ↦ rw (q, kj) (filled_number b j f_ino fname short)
            | inr ne ↦ absurd (
                cc (
                  rw q at t,
                  filled-match_other b j f_ino fname short k ne fname short,
                  rw (sym same) at (clear k hk),
                ))
          ]
      | fresh z nz' f ↦
          let q : b' ≡ fill_entry (λ _. 0) 0 f_ino fname = some_injective (sym e' ∙ f) in
          elim (eq_or_ne k 0) [
            | inl kj ↦ rw (q, kj) (filled_number (λ _. 0) 0 f_ino fname short)
            | inr ne ↦ absurd (
                cc (
                  rw q at t,
                  filled-match_other (λ _. 0) 0 f_ino fname short k ne fname short,
                  zeros-match fname k,
                ))
          ]
    ]

    pub find_loop_new :
        (i j : ℕ) (b : Bytes)
        → i < 16
        → j < ents_per_blk
        → Inode.direct_ptr n' i ≢ 0
        → block fs' n' i ≡ some (fill_entry b j f_ino fname)
        → ((k : ℕ) → k < 16 → Inode.direct_ptr n' k ≢ 0 → block fs' n' k ≢ none)
        → (dirent : Bytes) × (find_loop 16 0 fs' n' fname ≡ ok dirent)
          × (Dirent.ino dirent 0 ≡ f_ino % 2 ^ 16)
    find_loop_new i j b hi hj nz e readable = elim (find_loop-DirFinds fs' n' fname 16 0) [
      | present x y c lo lt named before none_before r ↦ (
        Dirent.entry c y,
        r,
        entry_is_new x y c (omega (arith, lt)) named.in_use named.block named.in_block named.match,
      )
      | absent clear r ↦
          let (c, ec, no_match) = clear i (omega arith) (omega (arith, hi)) nz in
          let q : c ≡ fill_entry b j f_ino fname = some_injective (sym ec ∙ e) in
          absurd (cc (rw q at (no_match j hj), filled-match b j f_ino fname short))
      | unreadable x lo lt nzx bad before r ↦ absurd (readable x (omega (arith, lt)) nzx bad)
    ]
