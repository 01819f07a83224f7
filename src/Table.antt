-- ===== src/Table.antt =====
-- Rows of a SQL table under a column: the WHERE column = ? of SELECT, UPDATE and DELETE, and the
-- uniqueness that PRIMARY KEY and UNIQUE keep.
pub mod Laws
use oakberryio.Prelude.{
  Bool, ◌≡◌, true, false, ◌||◌, Option, none, some, List, [], ◌∷◌, Eq, ◌==◌, if◌then◌else◌,
}

module _ {ℓ κ} {A : Type ℓ} {K : Type κ} ⦃e : Eq K⦄ (key : A → K) where
  -- a row with this value is there
  unfoldable pub has : K → List A → Bool
  has k [] = false
  has k (x ∷ xs) = key x == k || has k xs

  -- SELECT ... WHERE column = ?, the first row
  unfoldable pub find_by : K → List A → Option A
  find_by k [] = none
  find_by k (x ∷ xs) = let rest = find_by k xs in if key x == k then some x else rest

  -- SELECT ... WHERE column = ?
  unfoldable pub select_by : K → List A → List A
  select_by k [] = []
  select_by k (x ∷ xs) = let rest = select_by k xs in if key x == k then x ∷ rest else rest

  -- DELETE ... WHERE column = ?
  unfoldable pub delete_by : K → List A → List A
  delete_by k [] = []
  delete_by k (x ∷ xs) = let rest = delete_by k xs in if key x == k then rest else x ∷ rest

  -- UPDATE ... WHERE column = ?
  unfoldable pub update_by : K → (A → A) → List A → List A
  update_by k f [] = []
  update_by k f (x ∷ xs) = (if key x == k then f x else x) ∷ update_by k f xs

  -- PRIMARY KEY or UNIQUE on the column
  abbrev pub Distinct : List A → Type 0
  Distinct [] = Unit
  Distinct (x ∷ xs) = (has (key x) xs ≡ false) × Distinct xs
