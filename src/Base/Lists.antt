-- ===== src/Base/Lists.antt =====
-- Lists with native lengths.
use Prim.Native.Nat.{ℕ, zero, suc}
use mathlib.Core.Path.{◌≡◌, refl}
use mathlib.Core.List.{List, [], ◌∷◌, ◌++◌}

module _ {ℓ} {A : Type ℓ} where
  abbrev pub length : List A → ℕ
  length [] = 0
  length (x ∷ xs) = suc (length xs)

  abbrev pub take : ℕ → List A → List A
  take zero xs = []
  take (suc n) [] = []
  take (suc n) (x ∷ xs) = x ∷ take n xs

  -- The reverse of the first list before the second.
  abbrev pub reverse_onto : List A → List A → List A
  reverse_onto [] ys = ys
  reverse_onto (x ∷ xs) ys = reverse_onto xs (x ∷ ys)

  abbrev pub reverse : List A → List A
  reverse xs = reverse_onto xs []

  pub append-nil : (xs : List A) → xs ++ [] ≡ xs
  append-nil [] = refl
  append-nil (x ∷ xs) = rw (append-nil xs) refl

  pub append_assoc : (xs ys zs : List A) → (xs ++ ys) ++ zs ≡ xs ++ (ys ++ zs)
  append_assoc [] ys zs = refl
  append_assoc (x ∷ xs) ys zs = rw (append_assoc xs ys zs) refl

  reverse_onto-eq : (xs ys : List A) → reverse_onto xs ys ≡ reverse xs ++ ys
  reverse_onto-eq [] ys = refl
  reverse_onto-eq (x ∷ xs) ys =
      rw
        (
          reverse_onto-eq xs (x ∷ ys),
          reverse_onto-eq xs (x ∷ []),
          append_assoc (reverse xs) (x ∷ []) ys,
        )
        refl

  pub reverse_cons : (x : A) (xs : List A) → reverse (x ∷ xs) ≡ reverse xs ++ x ∷ []
  reverse_cons x xs = reverse_onto-eq xs (x ∷ [])

  pub reverse-append : (xs ys : List A) → reverse (xs ++ ys) ≡ reverse ys ++ reverse xs
  reverse-append [] ys = rw (append-nil (reverse ys)) refl
  reverse-append (x ∷ xs) ys =
      rw
        (
          reverse_cons x (xs ++ ys),
          reverse_cons x xs,
          reverse-append xs ys,
          append_assoc (reverse ys) (reverse xs) (x ∷ []),
        )
        refl

  pub reverse_twice : (xs : List A) → reverse (reverse xs) ≡ xs
  reverse_twice [] = refl
  reverse_twice (x ∷ xs) =
      rw (reverse_cons x xs, reverse-append (reverse xs) (x ∷ []), reverse_twice xs) refl
