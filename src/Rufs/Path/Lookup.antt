-- ===== src/Rufs/Path/Lookup.antt =====
-- get_node_by_path of project4/code/rufs.c by way of the parent, as rufs_create and rufs_mkdir go.
use cs416_operating_systems.Base.{
  ℕ, zero, suc, ◌≤◌, ◌≡◌, ◌≢◌, refl, sym, ap, ◌∙◌, inl, inr, List, [], ◌∷◌, ◌++◌, take, length,
  arith, Bool-cases, if◌then◌else◌,
}
use cs416_operating_systems.Base.Memory.{Bytes}
use cs416_operating_systems.Rufs.{minus_one, Result, ok, err, or_fail, is_dir}
use cs416_operating_systems.Rufs.Inode
use cs416_operating_systems.Rufs.Dirent
use cs416_operating_systems.Rufs.State.{Fs}
use cs416_operating_systems.Rufs.InodeTable.{readi}
use cs416_operating_systems.Rufs.Directory.{dir_find}
use cs416_operating_systems.Rufs.Path.{get_node_by_path}
use cs416_operating_systems.Rufs.Path.Names.{slash, dirname, basename}
use cs416_operating_systems.Rufs.Path.Tokens.{components}
use cs416_operating_systems.Rufs.Path.Resolve.{resolve, get_node_by_path-resolve}
use cs416_operating_systems.Rufs.Path.Parent.{components-dirname-basename}

-- One name more to resolve.
resolve-append :
    (fs : Fs) (cur : Bytes) (names : List (List ℕ)) (name : List ℕ)
    → resolve fs cur (names ++ name ∷ [])
      ≡ or_fail (resolve fs cur names) minus_one (λ dir. resolve fs dir (name ∷ []))
unfolding resolve
resolve-append fs cur [] name = refl
resolve-append fs cur (n ∷ names) name = elim (Bool-cases (is_dir (Inode.st_mode cur))) [
  | inl d ↦
      rw (resolve, d) (found (λ c. resolve-append fs c names name) (dir_find fs (Inode.ino cur) n))
  | inr d ↦ rw (resolve, d) refl
]
  where
    next :
        ((i : Bytes)
          → resolve fs i (names ++ name ∷ [])
            ≡ or_fail (resolve fs i names) minus_one (λ dir. resolve fs dir (name ∷ [])))
        → (r : Result Bytes)
        → or_fail r minus_one (λ i. resolve fs i (names ++ name ∷ []))
          ≡ or_fail
              (or_fail r minus_one (λ i. resolve fs i names))
              minus_one
              (λ dir. resolve fs dir (name ∷ []))
    next more (ok i) = more i
    next more (err e) = refl

    found :
        ((i : Bytes)
          → resolve fs i (names ++ name ∷ [])
            ≡ or_fail (resolve fs i names) minus_one (λ dir. resolve fs dir (name ∷ [])))
        → (r : Result Bytes)
        → or_fail r minus_one (λ dent.
          or_fail (readi fs (Dirent.ino dent 0)) minus_one (λ i. resolve fs i (names ++ name ∷ [])))
          ≡ or_fail
              (or_fail r minus_one (λ dent.
                or_fail (readi fs (Dirent.ino dent 0)) minus_one (λ i. resolve fs i names)))
              minus_one
              (λ dir. resolve fs dir (name ∷ []))
    found more (ok dent) = next more (readi fs (Dirent.ino dent 0))
    found more (err e) = refl

take_all : (n : ℕ) (p : List ℕ) → length p ≤ n → take n p ≡ p
take_all zero [] h = refl
take_all zero (c ∷ p) h = absurd (omega (arith, h))
take_all (suc n) [] h = refl
take_all (suc n) (c ∷ p) h = ap (λ t. c ∷ t) (take_all n p (omega (arith, h)))

-- get_node_by_path of an absolute path that has a name in it, from any inode, where neither the path
-- nor its dirname is longer than 4095: it resolves the dirname to an inode, and the basename is
-- looked up in the directory with that inode by dir_find; the inode that the entry names is the
-- result, and -1 where one of these steps fails or the inode is not that of a directory.
pub get_node_by_path-dirname :
    (fs : Fs) (p : List ℕ) (ino : ℕ)
    → components (slash ∷ p) ≢ []
    → length (slash ∷ p) ≤ 4095
    → length (dirname (slash ∷ p)) ≤ 4095
    → get_node_by_path fs (slash ∷ p) ino
      ≡ or_fail (get_node_by_path fs (dirname (slash ∷ p)) ino) minus_one (λ dir.
        if is_dir (Inode.st_mode dir)
        then or_fail
            (dir_find fs (Inode.ino dir) (basename (slash ∷ p)))
            minus_one
            (λ dent. or_fail (readi fs (Dirent.ino dent 0)) minus_one ok)
        else err minus_one)
unfolding resolve
get_node_by_path-dirname fs p ino some_name short short' =
    get_node_by_path-resolve fs (slash ∷ p) ino
    ∙ whole (readi fs ino)
    ∙ ap (λ r. or_fail r minus_one last) (sym parent)
  where
    last : Bytes → Result Bytes
    last dir = resolve fs dir (basename (slash ∷ p) ∷ [])

    parent :
        get_node_by_path fs (dirname (slash ∷ p)) ino
        ≡ or_fail
            (readi fs ino)
            minus_one
            (λ cur. resolve fs cur (components (dirname (slash ∷ p))))
    parent =
        rw (take_all 4095 (dirname (slash ∷ p)) short') at
          (get_node_by_path-resolve fs (dirname (slash ∷ p)) ino)

    whole :
        (r : Result Bytes)
        → or_fail r minus_one (λ cur. resolve fs cur (components (take 4095 (slash ∷ p))))
          ≡ or_fail
              (or_fail r minus_one (λ cur. resolve fs cur (components (dirname (slash ∷ p)))))
              minus_one
              last
    whole (ok cur) =
        ap (λ t. resolve fs cur (components t)) (take_all 4095 (slash ∷ p) short)
        ∙ ap (resolve fs cur) (components-dirname-basename p some_name)
        ∙ resolve-append fs cur (components (dirname (slash ∷ p))) (basename (slash ∷ p))
    whole (err e) = refl
