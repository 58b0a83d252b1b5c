-- ===== src/Rufs/Directory/Fill.antt =====
-- The directory block of project4/code/rufs.c in which dir_add has filled an entry.
use cs416_operating_systems.Base.{
  ℕ, ◌+◌, ◌%◌, ◌^◌, ◌≤◌, ◌<◌, ◌≡◌, ◌≢◌, ◌⊎◌, refl, sym, ◌∙◌, inl, inr, true, false, List, [], ◌∷◌,
  arith, ltb, ltb→lt, length, ne→==, ==_self, eq_or_ne, Bool-cases,
}
use cs416_operating_systems.Base.Memory.{
  Bytes, update, load16, store16, load16-store16_self, load16-store16_apart,
}
use cs416_operating_systems.Base.Copy.{slice}
use cs416_operating_systems.Rufs.Dirent
use cs416_operating_systems.Rufs.Dirent.{dirent_size, store_name, has_name}
use cs416_operating_systems.Rufs.Directory.{is_match, is_unused_entry, fill_entry}

store_name_outside :
    (b : Bytes) (a : ℕ) (name : List ℕ) (q : ℕ)
    → (q < a) ⊎ (a + length name ≤ q)
    → store_name b a name q ≡ b q
unfolding store_name
store_name_outside b a [] q h = refl
store_name_outside b a (c ∷ name) q h =
    store_name_outside (update b a c) (a + 1) name q (ground arith)
    ∙ rw (ne→== q a (ground arith)) refl

has_name-store_name :
    (b : Bytes) (a : ℕ) (name : List ℕ) → has_name (store_name b a name) a name ≡ true
unfolding has_name store_name
has_name-store_name b a [] = refl
has_name-store_name b a (c ∷ name) =
    rw (store_name_outside (update b a c) (a + 1) name a (inl (omega arith)), ==_self a, ==_self c)
      (has_name-store_name (update b a c) (a + 1) name)

load16-store_name :
    (b : Bytes) (a : ℕ) (name : List ℕ) (q : ℕ)
    → (q + 2 ≤ a) ⊎ (a + length name ≤ q)
    → load16 (store_name b a name) q ≡ load16 b q
unfolding load16
load16-store_name b a name q h =
    rw
      (
        store_name_outside b a name q (ground arith),
        store_name_outside b a name (q + 1) (ground arith),
      )
      refl

has_name_same :
    (b m : Bytes) (a : ℕ) (name : List ℕ)
    → ((q : ℕ) → a ≤ q → q < a + length name → b q ≡ m q)
    → has_name b a name ≡ has_name m a name
unfolding has_name
has_name_same b m a [] same = refl
has_name_same b m a (c ∷ name) same =
    rw
      (
        same a (omega arith) (omega arith),
        has_name_same b m (a + 1) name (λ q lo hi. same q (omega arith) (omega arith)),
      )
      refl

load16-slice : (m : Bytes) (a n : ℕ) → 2 ≤ n → load16 (slice m a n) 0 ≡ load16 m a
unfolding load16
load16-slice m a n h = ground arith

-- A name is at most one string.
has_name_unique :
    (b : Bytes) (a : ℕ) (x y : List ℕ)
    → length x ≡ length y
    → has_name b a x ≡ true
    → has_name b a y ≡ true
    → x ≡ y
unfolding has_name
has_name_unique b a [] [] e hx hy = refl
has_name_unique b a [] (d ∷ y) e hx hy = absurd (omega (arith, e))
has_name_unique b a (c ∷ x) [] e hx hy = absurd (omega (arith, e))
has_name_unique b a (c ∷ x) (d ∷ y) e hx hy = ground (arith, has_name_unique b (a + 1) x y)

module _ (b : Bytes) (j f_ino : ℕ) (fname : List ℕ) (short : length fname ≤ 208) where
  abbrev filled : Bytes
  filled = fill_entry b j f_ino fname

  -- The cells of the other entries.
  filled_outside : (q : ℕ) → (q < Dirent.at j) ⊎ (Dirent.at j + dirent_size ≤ q) → filled q ≡ b q
  unfolding fill_entry store16
  filled_outside q h = store_name_outside _ (Dirent.at j + 4) fname q (ground arith) ∙ ground arith

  filled-valid : Dirent.valid filled (Dirent.at j) ≡ 1
  unfolding fill_entry
  filled-valid =
      rw
        (
          load16-store_name _ (Dirent.at j + 4) fname (Dirent.at j + 2) (inl (omega arith)),
          load16-store16_apart _ (Dirent.at j + 212) (Dirent.at j + 2) (length fname)
              (inr (omega arith)),
          load16-store16_apart _ (Dirent.at j) (Dirent.at j + 2) f_ino (inl (omega arith)),
        )
        (load16-store16_self b (Dirent.at j + 2) 1)

  filled-ino : Dirent.ino filled (Dirent.at j) ≡ f_ino % 2 ^ 16
  unfolding fill_entry
  filled-ino =
      rw
        (
          load16-store_name _ (Dirent.at j + 4) fname (Dirent.at j) (inl (omega arith)),
          load16-store16_apart _ (Dirent.at j + 212) (Dirent.at j) (length fname)
              (inr (omega arith)),
        )
        (load16-store16_self _ (Dirent.at j) f_ino)

  filled-len : Dirent.len filled (Dirent.at j) ≡ length fname % 2 ^ 16
  unfolding fill_entry
  filled-len =
      rw
        (load16-store_name _ (Dirent.at j + 4) fname (Dirent.at j + 212)
          (inr (omega (arith, short))))
        (load16-store16_self _ (Dirent.at j + 212) (length fname))

  filled-has_name : has_name filled (Dirent.at j + 4) fname ≡ true
  unfolding fill_entry
  filled-has_name = has_name-store_name _ (Dirent.at j + 4) fname

  -- The entry has the name, and no other one.
  pub filled-match : is_match filled fname j ≡ true
  unfolding is_match
  filled-match =
      rw (filled-valid, filled-len, filled-has_name, ==_self (length fname % 2 ^ 16)) refl

  pub filled-match_ne : (g : List ℕ) → length g ≤ 208 → g ≢ fname → is_match filled g j ≡ false
  unfolding is_match
  filled-match_ne g hg ne =
      rw (filled-valid, filled-len)
        (elim (eq_or_ne (length fname) (length g)) [
          | inl e ↦ elim (Bool-cases (has_name filled (Dirent.at j + 4) g)) [
            | inl t ↦
                absurd
                  (ne (has_name_unique filled (Dirent.at j + 4) g fname (sym e) t filled-has_name))
            | inr f ↦ rw f (ground arith)
          ]
          | inr d ↦
              rw (ne→== (length fname % 2 ^ 16) (length g % 2 ^ 16) (omega (arith, d, hg, short)))
                refl
        ])

  -- The fields of the other entries.
  module _ (k : ℕ) (ne : k ≢ j) where
    filled-load16 :
        (o : ℕ) → o + 2 ≤ dirent_size → load16 filled (Dirent.at k + o) ≡ load16 b (Dirent.at k + o)
    unfolding load16
    filled-load16 o h =
        rw
          (
            filled_outside (Dirent.at k + o) (omega (arith, ne)),
            filled_outside (Dirent.at k + o + 1) (omega (arith, ne)),
          )
          refl

    pub filled-match_other : (g : List ℕ) → length g ≤ 208 → is_match filled g k ≡ is_match b g k
    unfolding is_match
    filled-match_other g hg =
        rw
          (
            filled-load16 2 (omega arith),
            filled-load16 212 (omega arith),
            has_name_same filled b (Dirent.at k + 4) g
                (λ q lo hi. filled_outside q (omega (arith, ne, hg, lo, hi))),
          )
          refl

    pub filled-entry_other : Dirent.entry filled k ≡ Dirent.entry b k
    filled-entry_other = λ i q. cell q i
      where
        cell : (q : ℕ) → Dirent.entry filled k q ≡ Dirent.entry b k q
        cell q = elim (Bool-cases (ltb q dirent_size)) [
          | inl t ↦
              rw t (filled_outside (Dirent.at k + q) (omega (arith, ne, ltb→lt q dirent_size t)))
          | inr f ↦ rw f refl
        ]

  pub filled_number : Dirent.ino (Dirent.entry filled j) 0 ≡ f_ino % 2 ^ 16
  filled_number = load16-slice filled (Dirent.at j) dirent_size (omega arith) ∙ filled-ino

-- An entry that is not in use matches no name.
pub is_unused_entry-match :
    (b : Bytes) (g : List ℕ) (j : ℕ) → is_unused_entry b j ≡ true → is_match b g j ≡ false
unfolding is_match is_unused_entry
is_unused_entry-match b g j h = rw h refl
