-- ===== src/Rufs/Path.antt =====
-- get_node_by_path of project4/code/rufs.c, and dirname and basename of the C library. A path is
-- the list of its characters.
pub mod Names
pub mod Tokens
pub mod Resolve
pub mod Parent
pub mod Lookup
use cs416_operating_systems.Base.{
  ℕ, zero, suc, Bool, true, false, ◌&&◌, Option, none, some, List, [], ◌∷◌, length, take, ◌==◌,
  if◌then◌else◌,
}
use cs416_operating_systems.Base.Memory.{Bytes}
use cs416_operating_systems.Rufs.{minus_one, Result, ok, err, or_fail, is_dir}
use cs416_operating_systems.Rufs.Inode
use cs416_operating_systems.Rufs.Dirent
use cs416_operating_systems.Rufs.State.{Fs}
use cs416_operating_systems.Rufs.InodeTable.{readi}
use cs416_operating_systems.Rufs.Directory.{dir_find}
use cs416_operating_systems.Rufs.Path.Names.{slash, drop_slashes, strtok, Token, finished, token}

-- The loop over the tokens of `p`, which shrinks in each round: its length is fuel enough.
unfoldable pub walk : ℕ → Fs → Bytes → List ℕ → Result Bytes
walk zero fs cur p = ok cur
walk (suc fuel) fs cur p = elim (strtok p) [
  | finished ↦ ok cur
  | token name rest ↦
      if is_dir (Inode.st_mode cur)
      then or_fail (dir_find fs (Inode.ino cur) name) minus_one (λ dent.
        or_fail (readi fs (Dirent.ino dent 0)) minus_one (λ next. walk fuel fs next rest))
      else err minus_one
]

-- `strcmp(path, "/") == 0`
unfoldable pub is_root : List ℕ → Bool
is_root (c ∷ []) = c == slash
is_root _ = false

-- `p++` past a first slash.
unfoldable pub skip_first : List ℕ → List ℕ
skip_first [] = []
skip_first (c ∷ p) = if c == slash then p else c ∷ p

-- `path_copy` holds PATH_MAX - 1 characters.
unfoldable pub get_node_by_path : Fs → List ℕ → ℕ → Result Bytes
get_node_by_path fs path ino =
    if is_root path
    then or_fail (readi fs ino) minus_one (λ inode. ok inode)
    else or_fail (readi fs ino) minus_one
        (λ cur. let p = skip_first (take 4095 path) in walk (length p) fs cur p)
