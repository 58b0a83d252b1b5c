-- ===== src/Rufs/Dirent.antt =====
-- `struct dirent` of project4/code/rufs.h: the entries of a directory block, as bytes of the block.
use cs416_operating_systems.Base.{ℕ, ◌+◌, ◌*◌, Bool, true, ◌&&◌, List, [], ◌∷◌, ◌==◌}
use cs416_operating_systems.Base.Memory.{Bytes, load16, store16, update}
use cs416_operating_systems.Base.Copy.{slice}

-- `sizeof(struct dirent)`, and the entries of a block.
abbrev pub dirent_size : ℕ
dirent_size = 214

abbrev pub ents_per_blk : ℕ
ents_per_blk = 19

-- The fields of the entry that begins at `a`.
abbrev pub ino : Bytes → ℕ → ℕ
ino b a = load16 b a

abbrev pub valid : Bytes → ℕ → ℕ
valid b a = load16 b (a + 2)

abbrev pub len : Bytes → ℕ → ℕ
len b a = load16 b (a + 212)

-- `&tab[j]`
abbrev pub at : ℕ → ℕ
at j = dirent_size * j

-- `*dirent = tab[j]`
abbrev pub entry : Bytes → ℕ → Bytes
entry b j = slice b (at j) dirent_size

abbrev pub set_ino : Bytes → ℕ → ℕ → Bytes
set_ino b a ino = store16 b a ino

abbrev pub set_valid : Bytes → ℕ → ℕ → Bytes
set_valid b a valid = store16 b (a + 2) valid

abbrev pub set_len : Bytes → ℕ → ℕ → Bytes
set_len b a len = store16 b (a + 212) len

-- `memcpy(b + a, name, name_len)` of a C string, the list of its characters.
unfoldable pub store_name : Bytes → ℕ → List ℕ → Bytes
store_name b a [] = b
store_name b a (c ∷ name) = store_name (update b a c) (a + 1) name

-- `strncmp(b + a, name, name_len) == 0`; no character of a C string is 0.
unfoldable pub has_name : Bytes → ℕ → List ℕ → Bool
has_name b a [] = true
has_name b a (c ∷ name) = b a == c && has_name b (a + 1) name
