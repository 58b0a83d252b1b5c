-- ===== src/Rufs/Path/Resolve.antt =====
-- get_node_by_path of project4/code/rufs.c against the resolution of a list of names.
use cs416_operating_systems.Base.{
  ℕ, zero, suc, ◌≤◌, ◌≡◌, refl, ap, ◌∙◌, inl, inr, true, List, [], ◌∷◌, arith, length, take, ◌==◌,
  ==_iff, Bool-cases, if◌then◌else◌,
}
use cs416_operating_systems.Base.Memory.{Bytes}
use cs416_operating_systems.Rufs.{minus_one, Result, ok, err, or_fail, is_dir}
use cs416_operating_systems.Rufs.Inode
use cs416_operating_systems.Rufs.Dirent
use cs416_operating_systems.Rufs.State.{Fs}
use cs416_operating_systems.Rufs.InodeTable.{readi}
use cs416_operating_systems.Rufs.Directory.{dir_find}
use cs416_operating_systems.Rufs.Path.{walk, is_root, skip_first, get_node_by_path}
use cs416_operating_systems.Rufs.Path.Names.{slash}
use cs416_operating_systems.Rufs.Path.Tokens.{components, names_from, no_name, a_name, strtok-Cuts}

-- One name after the other is looked up, each in the directory that the last has led to.
unfoldable pub resolve : Fs → Bytes → List (List ℕ) → Result Bytes
resolve fs cur [] = ok cur
resolve fs cur (name ∷ names) =
    if is_dir (Inode.st_mode cur)
    then or_fail (dir_find fs (Inode.ino cur) name) minus_one
        (λ dent. or_fail (readi fs (Dirent.ino dent 0)) minus_one (λ next. resolve fs next names))
    else err minus_one

-- The loop of get_node_by_path ends: with as many rounds as the text has characters, or more, it
-- returns what the names in the text resolve to.
pub walk-resolve :
    (fuel : ℕ) (fs : Fs) (cur : Bytes) (p : List ℕ)
    → length p ≤ fuel
    → walk fuel fs cur p ≡ resolve fs cur (components p)
unfolding walk resolve
walk-resolve zero fs cur p h = elim (strtok-Cuts p) [
  | no_name e r ↦ rw e refl
  | a_name name rest e lt r ↦ absurd (omega (arith, h, lt))
]
walk-resolve (suc fuel) fs cur p h = elim (strtok-Cuts p) [
  | no_name e r ↦ rw (walk, r, e) refl
  | a_name name rest e lt r ↦
      rw (walk, r, e)
        (ap
          (λ (f : Bytes → Result Bytes).
            if is_dir (Inode.st_mode cur)
            then or_fail (dir_find fs (Inode.ino cur) name) minus_one
                (λ dent. or_fail (readi fs (Dirent.ino dent 0)) minus_one f)
            else err minus_one)
          (λ i next. walk-resolve fuel fs next rest (omega (arith, h, lt)) i))
]

components-skip_first : (p : List ℕ) → components (skip_first p) ≡ components p
unfolding components names_from skip_first
components-skip_first [] = refl
components-skip_first (c ∷ p) = elim (Bool-cases (c == slash)) [
  | inl e ↦ rw (skip_first, e) refl
  | inr e ↦ rw (skip_first, e, e) refl
]

components_root : components (slash ∷ []) ≡ []
unfolding components names_from
components_root = refl

is_root-true : (p : List ℕ) → is_root p ≡ true → p ≡ slash ∷ []
unfolding is_root
is_root-true [] e = cc
is_root-true (c ∷ []) e = ap (λ x. x ∷ []) ((==_iff c slash).0 e)
is_root-true (c ∷ d ∷ p) e = cc

-- get_node_by_path, for every path: it reads the inode it starts from and resolves the names in the
-- first 4095 characters of the path, in order; -1 is its only error.
pub get_node_by_path-resolve :
    (fs : Fs) (path : List ℕ) (ino : ℕ)
    → get_node_by_path fs path ino
      ≡ or_fail (readi fs ino) minus_one (λ cur. resolve fs cur (components (take 4095 path)))
unfolding get_node_by_path resolve
get_node_by_path-resolve fs path ino = elim (Bool-cases (is_root path)) [
  | inl e ↦ rw (get_node_by_path, e, is_root-true path e, components_root) refl
  | inr e ↦
      rw (get_node_by_path, e)
        (ap (or_fail (readi fs ino) minus_one) (λ i cur.
          (walk-resolve (length (skip_first (take 4095 path))) fs cur (skip_first (take 4095 path))
                (omega arith)
              ∙ ap (resolve fs cur) (components-skip_first (take 4095 path)))
            i))
]
