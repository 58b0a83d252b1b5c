-- ===== src/Rufs/Path/Names.antt =====
-- The functions of the C library that project4/code/rufs.c uses on paths: strtok with the
-- delimiter "/", dirname and basename.
use cs416_operating_systems.Base.{ℕ, List, [], ◌∷◌, reverse, ◌==◌, if◌then◌else◌}

abbrev pub slash : ℕ
slash = 47

abbrev pub dot : ℕ
dot = 46

unfoldable pub drop_slashes : List ℕ → List ℕ
drop_slashes [] = []
drop_slashes (c ∷ p) = if c == slash then drop_slashes p else c ∷ p

-- The characters before the first slash, and those from it on.
unfoldable pub before_slash : List ℕ → List ℕ
before_slash [] = []
before_slash (c ∷ p) = if c == slash then [] else c ∷ before_slash p

unfoldable pub from_slash : List ℕ → List ℕ
from_slash [] = []
from_slash (c ∷ p) = if c == slash then c ∷ p else from_slash p

-- What follows the slash that ends a token, which strtok overwrites.
unfoldable pub past_slash : List ℕ → List ℕ
past_slash [] = []
past_slash (c ∷ p) = p

-- A token and the text that the next call goes on with; or NULL.
pub data Token : Type 0 where
  finished : Token
  token : List ℕ → List ℕ → Token

unfoldable pub first_token : List ℕ → Token
first_token [] = finished
first_token (c ∷ p) = token (before_slash (c ∷ p)) (past_slash (from_slash (c ∷ p)))

unfoldable pub strtok : List ℕ → Token
strtok p = first_token (drop_slashes p)

-- The last component of a path, whose characters come last one first.
unfoldable pub last_name : List ℕ → List ℕ → List ℕ
last_name [] [] = dot ∷ []
last_name (c ∷ path) [] = slash ∷ []
last_name path (c ∷ p) = reverse (before_slash (c ∷ p))

unfoldable pub basename : List ℕ → List ℕ
basename path = last_name path (drop_slashes (reverse path))

-- What stands before the last component of a path, whose characters come last one first; all of
-- a path of slashes.
unfoldable pub before_name : List ℕ → List ℕ → List ℕ
before_name path [] = path
before_name path (c ∷ p) = from_slash (c ∷ p)

unfoldable pub parent_of : List ℕ → List ℕ → List ℕ
parent_of [] q = dot ∷ []
parent_of (c ∷ p) [] = slash ∷ []
parent_of (c ∷ p) (d ∷ q) = reverse (d ∷ q)

-- For paths that do not begin with two slashes, as those of FUSE.
unfoldable pub dirname : List ℕ → List ℕ
dirname path =
    let p = before_name (reverse path) (drop_slashes (reverse path)) in parent_of p (drop_slashes p)
