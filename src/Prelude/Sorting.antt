-- ===== src/Prelude/Sorting.antt =====
-- ORDER BY, sort.Strings: a stable insertion sort by a test of the order.
use mathlib.Core.Path.{◌≡◌, refl, ◌∙◌}
use mathlib.Core.Bool.{Bool, true, false, ◌||◌}
use mathlib.Core.List.{List, [], ◌∷◌}
use native.Mathlib.Omega.{arith}
use oakberryio.Prelude.Tests.{if◌then◌else◌, ltb}
use oakberryio.Prelude.Lists.{any}
use oakberryio.Prelude.Texts.{Text}

module _ {ℓ} {A : Type ℓ} (le : A → A → Bool) where
  unfoldable pub insert : A → List A → List A
  insert x [] = x ∷ []
  insert x (y ∷ ys) = let rest = insert x ys in if le x y then x ∷ y ∷ ys else y ∷ rest

  unfoldable pub sort : List A → List A
  unfolding insert
  sort [] = []
  sort (x ∷ xs) = insert x (sort xs)

module _ {ℓ} {A : Type ℓ} (p : A → Bool) (le : A → A → Bool) where
  any-insert : (x : A) (xs : List A) → any p (insert le x xs) ≡ (p x || any p xs)
  unfolding any insert
  any-insert x [] = refl
  any-insert x (y ∷ ys) = ground (arith, any-insert x ys)

  pub any-sort : (xs : List A) → any p (sort le xs) ≡ any p xs
  unfolding any sort
  any-sort [] = refl
  any-sort (x ∷ xs) = any-insert x (sort le xs) ∙ ground (arith, any-sort xs)

-- Bytewise order, as Go and SQLite's BINARY collation compare.
unfoldable pub le_text : Text → Text → Bool
le_text [] ys = true
le_text (x ∷ xs) [] = false
le_text (x ∷ xs) (y ∷ ys) =
    let rest = le_text xs ys in if ltb x y then true else if ltb y x then false else rest
