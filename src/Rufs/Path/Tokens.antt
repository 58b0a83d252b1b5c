-- ===== src/Rufs/Path/Tokens.antt =====
-- strtok, as project4/code/rufs.c calls it, against a description of the names in a path.
use cs416_operating_systems.Base.{
  ℕ, ◌≤◌, ◌<◌, ◌≡◌, refl, sym, ap, ◌∙◌, inl, inr, false, List, [], ◌∷◌, ◌++◌, arith, length,
  append-nil, append_assoc, ◌==◌, Bool-cases, if◌then◌else◌,
}
use cs416_operating_systems.Rufs.Path.Names.{
  slash, drop_slashes, before_slash, from_slash, past_slash, Token, finished, token, first_token,
  strtok,
}

-- A name in front of others, unless it is empty.
abbrev pub add : List ℕ → List (List ℕ) → List (List ℕ)
add [] names = names
add (c ∷ name) names = (c ∷ name) ∷ names

-- The names in a text whose part before it ends in `name`.
unfoldable pub names_from : List ℕ → List ℕ → List (List ℕ)
names_from name [] = add name []
names_from name (c ∷ p) =
    if c == slash then add name (names_from [] p) else names_from (name ++ c ∷ []) p

-- The names in a path: what stands between slashes and is not empty.
unfoldable pub components : List ℕ → List (List ℕ)
unfolding names_from
components p = names_from [] p

components-drop_slashes : (p : List ℕ) → components (drop_slashes p) ≡ components p
unfolding components names_from drop_slashes
components-drop_slashes [] = refl
components-drop_slashes (c ∷ p) = elim (Bool-cases (c == slash)) [
  | inl e ↦ rw (drop_slashes, e) (components-drop_slashes p)
  | inr e ↦ rw (drop_slashes, e, e) refl
]

-- The text up to the next slash completes the name.
names_from-eq :
    (p name : List ℕ)
    → names_from name p ≡ add (name ++ before_slash p) (names_from [] (past_slash (from_slash p)))
unfolding names_from before_slash from_slash past_slash
names_from-eq [] name = rw (append-nil name) refl
names_from-eq (c ∷ p) name = elim (Bool-cases (c == slash)) [
  | inl e ↦ rw (names_from, before_slash, from_slash, e, append-nil name) refl
  | inr e ↦
      rw (names_from, before_slash, from_slash, e, ← append_assoc name (c ∷ []) (before_slash p))
        (names_from-eq p (name ++ c ∷ []))
]

-- What strtok makes of a text.
pub data Cuts (p : List ℕ) (t : Token) : Type 0 where
  no_name : components p ≡ [] → t ≡ finished → Cuts p t
  a_name :
      (name rest : List ℕ)
      → components p ≡ name ∷ components rest
      → length rest < length p
      → t ≡ token name rest
      → Cuts p t

length-drop_slashes : (p : List ℕ) → length (drop_slashes p) ≤ length p
unfolding drop_slashes
length-drop_slashes [] = omega arith
length-drop_slashes (c ∷ p) = ground (arith, length-drop_slashes p)

length_past : (p : List ℕ) → length (past_slash (from_slash p)) ≤ length p
unfolding past_slash from_slash
length_past [] = omega arith
length_past (c ∷ p) = ground (arith, length_past p)

length_past_cons : (c : ℕ) (p : List ℕ) → length (past_slash (from_slash (c ∷ p))) < length (c ∷ p)
unfolding past_slash from_slash
length_past_cons c p = ground (arith, length_past p)

-- A text from which the slashes have been dropped does not begin with one.
pub drop_slashes-head :
    (p : List ℕ) (c : ℕ) (q : List ℕ) → drop_slashes p ≡ c ∷ q → (c == slash) ≡ false
unfolding drop_slashes
drop_slashes-head [] c q e = cc
drop_slashes-head (d ∷ p) c q e = elim (Bool-cases (d == slash)) [
  | inl s ↦ drop_slashes-head p c q (rw s at e)
  | inr s ↦ cc (rw s at e)
]

cut :
    (p : List ℕ) (c : ℕ) (q : List ℕ)
    → drop_slashes p ≡ c ∷ q
    → components p ≡ before_slash (c ∷ q) ∷ components (past_slash (from_slash (c ∷ q)))
unfolding components before_slash
cut p c q e =
    let plain = drop_slashes-head p c q e in
    sym (components-drop_slashes p)
    ∙ ap components e
    ∙ names_from-eq (c ∷ q) []
    ∙ rw (before_slash, plain) refl

pub strtok-Cuts : (p : List ℕ) → Cuts p (strtok p)
unfolding strtok first_token components
strtok-Cuts p =
    elim (drop_slashes p) as (λ q. drop_slashes p ≡ q → Cuts p (first_token q)) [
      | [] ↦ λ e. no_name (sym (components-drop_slashes p) ∙ rw e refl) refl
      | c ∷ q ↦ λ e.
          a_name (before_slash (c ∷ q)) (past_slash (from_slash (c ∷ q))) (cut p c q e)
            (omega
              (arith, length_past_cons c q, length-drop_slashes p, rw e at (length-drop_slashes p)))
            refl
    ]
      refl
