-- ===== src/Table/Laws.antt =====
-- Laws of the selections of Table.
use oakberryio.Prelude.{
  ◌≡◌, refl, true, false, none, some, List, [], ◌∷◌, ◌++◌, Eq, ◌==◌, if◌then◌else◌, arith, Bool,
  All, any, map, ◌&&◌, Bool-cases, ==_iff, inl, inr,
}
use oakberryio.Table.{has, find_by, select_by, delete_by, update_by, Distinct}

module _ {ℓ κ} {A : Type ℓ} {K : Type κ} ⦃e : Eq K⦄ (key : A → K) where
  pub any-select_by :
      (k : K) (q : A → Bool) (xs : List A)
      → any q (select_by key k xs) ≡ any (λ x. key x == k && q x) xs
  unfolding any select_by
  any-select_by k q [] = refl
  any-select_by k q (x ∷ xs) = ground (arith, any-select_by k q xs)

  pub has-find_by :
      (k : K) (xs : List A)
      → has key k xs ≡ elim (find_by key k xs) [ none ↦ false | some _ ↦ true ]
  unfolding has find_by
  has-find_by k [] = refl
  has-find_by k (x ∷ xs) = ground (arith, has-find_by k xs)

  pub key-find_by : (k : K) (xs : List A) {x : A} → find_by key k xs ≡ some x → key x ≡ k
  unfolding find_by
  key-find_by k [] h = cc
  key-find_by k (y ∷ xs) {x} h = ground (arith, key-find_by k xs {x = x})

  pub find_by-delete_by :
      (k j : K) (xs : List A)
      → find_by key k (delete_by key j xs) ≡ (if k == j then none else find_by key k xs)
  unfolding find_by delete_by
  find_by-delete_by k j [] = ground arith
  find_by-delete_by k j (x ∷ xs) = ground (arith, find_by-delete_by k j xs)

  pub has-delete_by :
      (k j : K) (xs : List A)
      → has key k (delete_by key j xs) ≡ (if k == j then false else has key k xs)
  unfolding has delete_by
  has-delete_by k j [] = ground arith
  has-delete_by k j (x ∷ xs) = ground (arith, has-delete_by k j xs)

  pub Distinct-delete_by :
      (j : K) (xs : List A) → Distinct key xs → Distinct key (delete_by key j xs)
  unfolding delete_by
  Distinct-delete_by j [] h = tt
  Distinct-delete_by j (x ∷ xs) h =
      ground (arith, Distinct-delete_by j xs, has-delete_by (key x) j xs)

  pub delete_by_absent : (j : K) (xs : List A) → has key j xs ≡ false → delete_by key j xs ≡ xs
  unfolding has delete_by
  delete_by_absent j [] h = refl
  delete_by_absent j (x ∷ xs) h = ground (arith, delete_by_absent j xs)

  pub update_by_absent :
      (j : K) (f : A → A) (xs : List A) → has key j xs ≡ false → update_by key j f xs ≡ xs
  unfolding has update_by
  update_by_absent j f [] h = refl
  update_by_absent j f (x ∷ xs) h = ground (arith, update_by_absent j f xs)

module _ {ℓ κ} {A : Type ℓ} {K : Type κ} ⦃e : Eq K⦄ (key : A → K) (f : A → A)
    (same : (x : A) → key (f x) ≡ key x) where
  pub find_by-update_by :
      (k j : K) (xs : List A)
      → find_by key k (update_by key j f xs) ≡ (
          if k == j
          then (elim (find_by key k xs) [ none ↦ none | some x ↦ some (f x) ])
          else find_by key k xs)
  unfolding find_by update_by
  find_by-update_by k j [] = ground arith
  find_by-update_by k j (x ∷ xs) = ground (arith, find_by-update_by k j xs, same x)

  pub has-update_by : (k j : K) (xs : List A) → has key k (update_by key j f xs) ≡ has key k xs
  unfolding has update_by
  has-update_by k j [] = refl
  has-update_by k j (x ∷ xs) = ground (arith, has-update_by k j xs, same x)

  pub map-update_by : (j : K) (xs : List A) → map key (update_by key j f xs) ≡ map key xs
  unfolding update_by
  map-update_by j [] = refl
  map-update_by j (x ∷ xs) = ground (arith, map-update_by j xs, same x)

  pub Distinct-update_by :
      (j : K) (xs : List A) → Distinct key xs → Distinct key (update_by key j f xs)
  unfolding update_by
  Distinct-update_by j [] h = tt
  Distinct-update_by j (x ∷ xs) h = ground (
    arith,
    Distinct-update_by j xs,
    has-update_by (key x) j xs,
    has-update_by (key (f x)) j xs,
    same x,
  )

module _ {ℓ κ} {A : Type ℓ} where
  pub All-imp {μ} :
      {P : A → Type κ} {Q : A → Type μ} (xs : List A) → ((x : A) → P x → Q x) → All P xs → All Q xs
  All-imp [] f h = tt
  All-imp (x ∷ xs) f (p, h) = (f x p, All-imp xs f h)

  pub All-append : (P : A → Type κ) (xs ys : List A) → All P xs → All P ys → All P (xs ++ ys)
  All-append P [] ys h k = k
  All-append P (x ∷ xs) ys (p, h) k = (p, All-append P xs ys h k)

  pub All-zip {μ ν} :
      {P : A → Type κ} {Q : A → Type μ} {R : A → Type ν} (xs : List A)
      → ((x : A) → P x → Q x → R x)
      → All P xs
      → All Q xs
      → All R xs
  All-zip [] f h k = tt
  All-zip (x ∷ xs) f (p, h) (q, k) = (f x p q, All-zip xs f h k)

module _ {ℓ κ μ} {A : Type ℓ} {K : Type κ} ⦃e : Eq K⦄ (key : A → K) where
  pub All-delete_by : (P : A → Type μ) (j : K) (xs : List A) → All P xs → All P (delete_by key j xs)
  unfolding delete_by
  All-delete_by P j [] h = tt
  All-delete_by P j (x ∷ xs) (p, h) = elim (Bool-cases (key x == j)) [
    | inl gone ↦ rw gone (All-delete_by P j xs h)
    | inr stays ↦ rw stays (p, All-delete_by P j xs h)
  ]

  pub All-update_by :
      (P : A → Type μ) (j : K) (f : A → A) (xs : List A)
      → ((x : A) → P x → P (f x))
      → All P xs
      → All P (update_by key j f xs)
  unfolding update_by
  All-update_by P j f [] g h = tt
  All-update_by P j f (x ∷ xs) g (p, h) = elim (Bool-cases (key x == j)) [
    | inl here ↦ rw here (g x p, All-update_by P j f xs g h)
    | inr other ↦ rw other (p, All-update_by P j f xs g h)
  ]

module _ {ℓ κ} {A : Type ℓ} {K : Type κ} ⦃e : Eq K⦄ (key : A → K) where
  -- The rows of a table that has no row with the value have other values.
  pub All-ne_of_absent :
      (k : K) (xs : List A) → has key k xs ≡ false → All (λ x. (key x == k) ≡ false) xs
  unfolding has
  All-ne_of_absent k [] h = tt
  All-ne_of_absent k (x ∷ xs) h = (ground arith, All-ne_of_absent k xs (ground arith))

  pub All-deleted : (k : K) (xs : List A) → All (λ x. (key x == k) ≡ false) (delete_by key k xs)
  unfolding delete_by
  All-deleted k [] = tt
  All-deleted k (x ∷ xs) = elim (Bool-cases (key x == k)) [
    | inl here ↦ rw here (All-deleted k xs)
    | inr other ↦ rw other (other, All-deleted k xs)
  ]

  pub All-select_by :
      (P : A → Type 0) (k : K) (xs : List A)
      → All P xs
      → All (λ x. (key x ≡ k) × P x) (select_by key k xs)
  unfolding select_by
  All-select_by P k [] h = tt
  All-select_by P k (x ∷ xs) (p, h) = elim (Bool-cases (key x == k)) [
    | inl here ↦ rw here (((==_iff (key x) k).0 here, p), All-select_by P k xs h)
    | inr other ↦ rw other (All-select_by P k xs h)
  ]

module _ {ℓ κ μ} {A : Type ℓ} {K : Type κ} {L : Type μ} ⦃e : Eq K⦄ ⦃f : Eq L⦄ (key : A → K)
    (other : A → L) where
  has-delete_other :
      (k : K) (j : L) (xs : List A)
      → has key k xs ≡ false
      → has key k (delete_by other j xs) ≡ false
  unfolding has delete_by
  has-delete_other k j [] h = refl
  has-delete_other k j (x ∷ xs) h = ground (arith, has-delete_other k j xs)

  -- Deleting by one column keeps another unique.
  pub Distinct-delete_other :
      (j : L) (xs : List A) → Distinct key xs → Distinct key (delete_by other j xs)
  unfolding delete_by
  Distinct-delete_other j [] h = tt
  Distinct-delete_other j (x ∷ xs) h =
      ground (arith, Distinct-delete_other j xs, has-delete_other (key x) j xs)

module _ {ℓ κ μ} {A : Type ℓ} {K : Type κ} {L : Type μ} ⦃e : Eq K⦄ ⦃g : Eq L⦄ (key : A → K)
    (other : A → L) (f : A → A) (same : (x : A) → key (f x) ≡ key x) where
  has-update_other :
      (k : K) (j : L) (xs : List A) → has key k (update_by other j f xs) ≡ has key k xs
  unfolding has update_by
  has-update_other k j [] = refl
  has-update_other k j (x ∷ xs) = ground (arith, has-update_other k j xs, same x)

  -- An update by one column that leaves another keeps the other unique.
  pub Distinct-update_other :
      (j : L) (xs : List A) → Distinct key xs → Distinct key (update_by other j f xs)
  unfolding update_by
  Distinct-update_other j [] h = tt
  Distinct-update_other j (x ∷ xs) h = ground (
    arith,
    Distinct-update_other j xs,
    has-update_other (key x) j xs,
    has-update_other (key (f x)) j xs,
    same x,
  )
