-- ===== src/Prelude/Dict.antt =====
-- Go's map[string]T as its entries. The program's results do not depend on their order.
use mathlib.Core.Path.{◌≡◌, ◌∙◌, refl, subst}
use mathlib.Core.Bool.{Bool, true, false, ◌||◌}
use mathlib.Core.Option.{Option, none, some}
use mathlib.Core.List.{List, [], ◌∷◌}
use mathlib.Core.Logic.{inl, inr}
use native.Mathlib.Omega.{arith}
use oakberryio.Prelude.Tests.{if◌then◌else◌, Bool-cases}
use oakberryio.Prelude.Texts.{Text}
use oakberryio.Prelude.Equality.{◌==◌, ==_iff, text_eq}

abbrev pub Dict {ℓ} : Type ℓ → Type ℓ
Dict V = List (Text × V)

module _ {ℓ} {V : Type ℓ} where
  unfoldable pub lookup : Text → Dict V → Option V
  lookup k [] = none
  lookup k ((j, v) ∷ d) = let rest = lookup k d in if j == k then some v else rest

  -- d[k] = v
  unfoldable pub insert : Text → V → Dict V → Dict V
  insert k v [] = (k, v) ∷ []
  insert k v ((j, w) ∷ d) = let rest = insert k v d in if j == k then (k, v) ∷ d else (j, w) ∷ rest

  -- delete(d, k)
  unfoldable pub delete : Text → Dict V → Dict V
  delete k [] = []
  delete k ((j, w) ∷ d) = let rest = delete k d in if j == k then rest else (j, w) ∷ rest

  -- for k, v := range e { d[k] = v }
  unfoldable pub insert_all : Dict V → Dict V → Dict V
  insert_all [] d = d
  insert_all ((k, v) ∷ e) d = insert_all e (insert k v d)

  unfoldable pub keys : Dict V → List Text
  keys [] = []
  keys ((k, v) ∷ d) = k ∷ keys d

  pub lookup-insert :
      (j k : Text) (v : V) (d : Dict V)
      → lookup j (insert k v d) ≡ (if k == j then some v else lookup j d)
  unfolding lookup insert
  lookup-insert j k v [] = refl
  lookup-insert j k v ((i, w) ∷ d) = ground (arith, lookup-insert j k v d)

  pub lookup-delete :
      (j k : Text) (d : Dict V) → lookup j (delete k d) ≡ (if k == j then none else lookup j d)
  unfolding lookup delete
  lookup-delete j k [] = ground arith
  lookup-delete j k ((i, w) ∷ d) = ground (arith, lookup-delete j k d)

unfoldable pub mem : Text → List Text → Bool
mem k [] = false
mem k (j ∷ js) = j == k || mem k js

pub mem-keys {ℓ} :
    {V : Type ℓ} (k : Text) (d : Dict V)
    → mem k (keys d) ≡ elim (lookup k d) [ none ↦ false | some _ ↦ true ]
unfolding mem keys lookup
mem-keys k [] = refl
mem-keys k ((j, v) ∷ d) = ground (arith, mem-keys k d)

-- No key of the dictionary is there twice, as in a Go map.
abbrev pub Unique {ℓ} : {V : Type ℓ} → Dict V → Type 0
Unique [] = Unit
Unique ((k, v) ∷ d) = (mem k (keys d) ≡ false) × Unique d

insert_all-absent :
    (e d : Dict Text) (k : Text) → mem k (keys e) ≡ false → lookup k (insert_all e d) ≡ lookup k d
unfolding insert_all mem keys
insert_all-absent [] d k h = refl
insert_all-absent ((j, v) ∷ e) d k h =
    insert_all-absent e (insert j v d) k (ground arith) ∙ ground (arith, lookup-insert k j v d)

pub insert_all-lookup :
    (e d : Dict Text) (k : Text)
    → Unique e
    → lookup k (insert_all e d) ≡ elim (lookup k e) [ none ↦ lookup k d | some v ↦ some v ]
unfolding insert_all lookup
insert_all-lookup [] d k h = refl
insert_all-lookup ((j, v) ∷ e) d k (fresh_key, h) = elim (Bool-cases (j == k)) [
  | inl here ↦
      let same = (==_iff j k).0 here in
      rw here (
        insert_all-absent e (insert j v d) k
          (subst (λ (x : Text). mem x (keys e) ≡ false) same fresh_key)
        ∙ lookup-insert k j v d
        ∙ rw here refl)
  | inr other ↦
      rw other (insert_all-lookup e (insert j v d) k h ∙ ground (arith, lookup-insert k j v d))
]
