-- ===== src/Rufs/Path/Parent.antt =====
-- dirname and basename, as project4/code/rufs.c uses them, against the names in a path.
use cs416_operating_systems.Base.{
  ℕ, ◌≡◌, ◌≢◌, ◌⊎◌, refl, sym, ap, ◌∙◌, inl, inr, false, List, [], ◌∷◌, ◌++◌, append-nil,
  append_assoc, reverse, reverse_cons, reverse-append, reverse_twice, ◌==◌, ==_iff, Bool-cases,
}
use cs416_operating_systems.Rufs.Path.Names.{
  slash, drop_slashes, before_slash, from_slash, last_name, basename, before_name, parent_of,
  dirname,
}
use cs416_operating_systems.Rufs.Path.Tokens.{add, names_from, components, drop_slashes-head}

-- A slash between two texts parts their names.
names_from-append :
    (x name y : List ℕ) → names_from name (x ++ slash ∷ y) ≡ names_from name x ++ names_from [] y
unfolding names_from
names_from-append [] [] y = refl
names_from-append [] (c ∷ name) y = refl
names_from-append (c ∷ x) name y = elim (Bool-cases (c == slash)) [
  | inl e ↦
      elim name
        as (λ w. names_from w (c ∷ x ++ slash ∷ y) ≡ names_from w (c ∷ x) ++ names_from [] y) [
          | [] ↦ rw (names_from, e) (names_from-append x [] y)
          | d ∷ w ↦ rw (names_from, e) (ap (λ t. (d ∷ w) ∷ t) (names_from-append x [] y))
        ]
  | inr e ↦ rw (names_from, e) (names_from-append x (name ++ c ∷ []) y)
]

components-append : (x y : List ℕ) → components (x ++ slash ∷ y) ≡ components x ++ components y
unfolding components
components-append x y = names_from-append x [] y

-- Slashes at the end, which come first in the reverse, make no difference.
components-reverse : (r : List ℕ) → components (reverse (drop_slashes r)) ≡ components (reverse r)
unfolding drop_slashes components names_from
components-reverse [] = refl
components-reverse (c ∷ r) = elim (Bool-cases (c == slash)) [
  | inl e ↦
      let q : c ≡ slash = (==_iff _ _).0 e in
      rw (drop_slashes, e, q)
        (components-reverse r
          ∙ sym (
              ap components (reverse_cons slash r)
              ∙ components-append (reverse r) []
              ∙ append-nil (components (reverse r))))
  | inr e ↦ rw (drop_slashes, e) refl
]

-- A text without a slash.
abbrev Plain : List ℕ → Type 0
Plain [] = Unit {0}
Plain (c ∷ p) = ((c == slash) ≡ false) × Plain p

before_slash-Plain : (p : List ℕ) → Plain (before_slash p)
unfolding before_slash
before_slash-Plain [] = tt
before_slash-Plain (c ∷ p) = elim (Bool-cases (c == slash)) [
  | inl e ↦ rw (before_slash, e) tt
  | inr e ↦ rw (before_slash, e) (e, before_slash-Plain p)
]

append-Plain : (x y : List ℕ) → Plain x → Plain y → Plain (x ++ y)
append-Plain [] y hx hy = hy
append-Plain (c ∷ x) y (e, hx) hy = (e, append-Plain x y hx hy)

reverse-Plain : (p : List ℕ) → Plain p → Plain (reverse p)
reverse-Plain [] h = tt
reverse-Plain (c ∷ p) (e, h) =
    rw (reverse_cons c p) (append-Plain (reverse p) (c ∷ []) (reverse-Plain p h) (e, tt))

names_from-Plain : (p name : List ℕ) → Plain p → names_from name p ≡ add (name ++ p) []
unfolding names_from
names_from-Plain [] name h = rw (append-nil name) refl
names_from-Plain (c ∷ p) name (e, h) =
    rw (names_from, e, ← append_assoc name (c ∷ []) p) (names_from-Plain p (name ++ c ∷ []) h)

reverse_ne_nil : (c : ℕ) (p : List ℕ) → (d : ℕ) × (q : List ℕ) × (reverse (c ∷ p) ≡ d ∷ q)
reverse_ne_nil c p = rw (reverse_cons c p) (first (reverse p))
  where
    first : (x : List ℕ) → (d : ℕ) × (q : List ℕ) × (x ++ c ∷ [] ≡ d ∷ q)
    first [] = (c, [], refl)
    first (d ∷ x) = (d, x ++ c ∷ [], refl)

-- A name alone.
components_name :
    (c : ℕ) (p : List ℕ) → Plain (c ∷ p) → components (reverse (c ∷ p)) ≡ reverse (c ∷ p) ∷ []
unfolding components
components_name c p h =
    let (d, q, e) = reverse_ne_nil c p in
    names_from-Plain (reverse (c ∷ p)) [] (reverse-Plain (c ∷ p) h) ∙ rw e refl

cut_at_slash : (p : List ℕ) → before_slash p ++ from_slash p ≡ p
unfolding before_slash from_slash
cut_at_slash [] = refl
cut_at_slash (c ∷ p) = elim (Bool-cases (c == slash)) [
  | inl e ↦ rw (before_slash, from_slash, e) refl
  | inr e ↦ rw (before_slash, from_slash, e, cut_at_slash p) refl
]

-- The reverse of an absolute path ends in a slash, also behind its first slashes.
dropped_ends :
    (s : List ℕ)
    → (drop_slashes (s ++ slash ∷ []) ≡ [])
      ⊎ ((t : List ℕ) × (drop_slashes (s ++ slash ∷ []) ≡ t ++ slash ∷ []))
unfolding drop_slashes
dropped_ends [] = inl refl
dropped_ends (c ∷ s) = elim (Bool-cases (c == slash)) [
  | inl e ↦ rw (drop_slashes, e) (dropped_ends s)
  | inr e ↦ rw (drop_slashes, e) (inr (c ∷ s, refl))
]

from_slash_ends : (t : List ℕ) → (z : List ℕ) × (from_slash (t ++ slash ∷ []) ≡ slash ∷ z)
unfolding from_slash
from_slash_ends [] = ([], refl)
from_slash_ends (c ∷ t) = elim (Bool-cases (c == slash)) [
  | inl e ↦ rw (from_slash, e, (==_iff _ _).0 e) (t ++ slash ∷ [], refl)
  | inr e ↦ rw (from_slash, e) (from_slash_ends t)
]

-- The names before the last one, from the reverse of the path from the slash on.
components-parent_of :
    (z : List ℕ)
    → components (parent_of (slash ∷ z) (drop_slashes (slash ∷ z)))
      ≡ components (reverse (drop_slashes z))
unfolding parent_of drop_slashes components names_from
components-parent_of z =
    elim (drop_slashes z) as (λ q. components (parent_of (slash ∷ z) q) ≡ components (reverse q)) [
      | [] ↦ refl
      | d ∷ q ↦ refl
    ]

last_component :
    (c : ℕ) (q : List ℕ)
    → (c == slash) ≡ false
    → components (reverse (before_slash (c ∷ q))) ≡ reverse (before_slash (c ∷ q)) ∷ []
unfolding before_slash
last_component c q e =
    rw (before_slash, e) (components_name c (before_slash q) (e, before_slash-Plain q))

List-cases : (x : List ℕ) → (x ≡ []) ⊎ ((c : ℕ) × (q : List ℕ) × (x ≡ c ∷ q))
List-cases [] = inl refl
List-cases (c ∷ q) = inr (c, q, refl)

no_names : (p : List ℕ) → drop_slashes (reverse (slash ∷ p)) ≡ [] → components (slash ∷ p) ≡ []
unfolding components names_from
no_names p e =
    ap components (sym (reverse_twice (slash ∷ p)))
    ∙ sym (components-reverse (reverse (slash ∷ p)))
    ∙ ap (λ t. components (reverse t)) e

parted :
    (p : List ℕ) (c : ℕ) (q : List ℕ)
    → drop_slashes (reverse (slash ∷ p)) ≡ c ∷ q
    → (z : List ℕ) × (from_slash (c ∷ q) ≡ slash ∷ z)
parted p c q e = elim (dropped_ends (reverse p)) [
  | inl none_left ↦ absurd (cc (e, reverse_cons slash p, none_left))
  | inr (t, et) ↦
      let ends : c ∷ q ≡ t ++ slash ∷ [] = sym e ∙ ap drop_slashes (reverse_cons slash p) ∙ et in
      rw ends (from_slash_ends t)
]

-- The reverse of a path behind its first slashes: the last name, and from the slash on the rest.
module _ (p : List ℕ) (c : ℕ) (q z : List ℕ) (e : drop_slashes (reverse (slash ∷ p)) ≡ c ∷ q)
    (ez : from_slash (c ∷ q) ≡ slash ∷ z) where
  basename-eq : basename (slash ∷ p) ≡ reverse (before_slash (c ∷ q))
  unfolding basename last_name
  basename-eq = rw e refl

  components-dirname : components (dirname (slash ∷ p)) ≡ components (reverse z)
  unfolding dirname before_name
  components-dirname = rw (e, ez) (components-parent_of z ∙ components-reverse z)

  components_parts :
      components (slash ∷ p) ≡ components (reverse z) ++ reverse (before_slash (c ∷ q)) ∷ []
  components_parts =
      let plain = drop_slashes-head (reverse (slash ∷ p)) c q e in
      let whole : before_slash (c ∷ q) ++ slash ∷ z ≡ c ∷ q = rw ez at (cut_at_slash (c ∷ q)) in
      let turned : reverse (c ∷ q) ≡ reverse z ++ slash ∷ reverse (before_slash (c ∷ q)) =
        ap reverse (sym whole)
        ∙ reverse-append (before_slash (c ∷ q)) (slash ∷ z)
        ∙ ap (λ t. t ++ reverse (before_slash (c ∷ q))) (reverse_cons slash z)
        ∙ append_assoc (reverse z) (slash ∷ []) (reverse (before_slash (c ∷ q))) in
      ap components (sym (reverse_twice (slash ∷ p)))
      ∙ sym (components-reverse (reverse (slash ∷ p)))
      ∙ ap (λ t. components (reverse t)) e
      ∙ ap components turned
      ∙ components-append (reverse z) (reverse (before_slash (c ∷ q)))
      ∙ ap (λ t. components (reverse z) ++ t) (last_component c q plain)

-- The names of an absolute path that has a name in it are those of its dirname, and then its
-- basename.
pub components-dirname-basename :
    (p : List ℕ)
    → components (slash ∷ p) ≢ []
    → components (slash ∷ p) ≡ components (dirname (slash ∷ p)) ++ basename (slash ∷ p) ∷ []
components-dirname-basename p some_name = elim (List-cases (drop_slashes (reverse (slash ∷ p)))) [
  | inl e ↦ absurd (some_name (no_names p e))
  | inr (c, q, e) ↦
      let (z, ez) = parted p c q e in
      components_parts p c q z e ez
      ∙ rw (components-dirname p c q z e ez, basename-eq p c q z e ez) refl
]
