-- ===== src/Text/Decimal.antt =====
-- strconv.Itoa and fmt's %d on numbers that are not negative, and the digit loop of strconv.Atoi.
use Prim.Native.Nat.{◌*◌}
use oakberryio.Prelude.{
  ℕ, zero, suc, ◌+◌, ◌-◌, ◌/◌, ◌%◌, ◌≤◌, ◌<◌, ◌≡◌, refl, Bool, ◌&&◌, Option, none, some, [], ◌∷◌,
  ◌++◌, arith, ltb, leb, if◌then◌else◌, Text, ltb→lt, Bool-cases, inl, inr, ap,
}

-- The digits of `n`, the last of them on the last round; the first argument is fuel.
digits : ℕ → ℕ → Text
digits zero n = []
digits (suc f) n =
    let rest = digits f (n / 10) in if ltb n 10 then (48 + n) ∷ [] else rest ++ (48 + n % 10) ∷ []

unfoldable pub itoa : ℕ → Text
unfolding digits
itoa n = digits (suc n) n

digits_fuel : (f g n : ℕ) → n < f → n < g → digits f n ≡ digits g n
unfolding digits
digits_fuel zero g n h k = elim h [ ]
digits_fuel (suc f) zero n h k = elim k [ ]
digits_fuel (suc f) (suc g) n h k = elim (Bool-cases (ltb n 10)) [
  | inl small ↦ rw small
  | inr large ↦ rw large (
      ap (λ (s : Text). s ++ (48 + n % 10) ∷ [])
        (digits_fuel f g (n / 10) (ground arith) (ground arith)))
]

pub itoa_step :
    (n : ℕ) → itoa n ≡ (if ltb n 10 then (48 + n) ∷ [] else itoa (n / 10) ++ (48 + n % 10) ∷ [])
unfolding itoa
itoa_step n = elim (Bool-cases (ltb n 10)) [
  | inl small ↦ rw small
  | inr large ↦ rw large (
      ap (λ (s : Text). s ++ (48 + n % 10) ∷ [])
        (digits_fuel n (suc (n / 10)) (n / 10) (ground arith) (omega arith)))
]

unfoldable pub is_digit : ℕ → Bool
is_digit c = leb 48 c && leb c 57

-- The numeral that a text of digits goes on from `acc`; `none` at any other byte.
unfoldable pub read_digits : ℕ → Text → Option ℕ
unfolding is_digit
read_digits acc [] = some acc
read_digits acc (c ∷ s) =
    let rest = read_digits (acc * 10 + (c - 48)) s in if is_digit c then rest else none

itoa_runs : itoa 8080 ≡ 56 ∷ 48 ∷ 56 ∷ 48 ∷ []
unfolding itoa
itoa_runs = refl

read_digits-append :
    (acc : ℕ) (xs ys : Text)
    → read_digits acc (xs ++ ys)
      ≡ elim (read_digits acc xs) [ none ↦ none | some v ↦ read_digits v ys ]
unfolding read_digits
read_digits-append acc [] ys = refl
read_digits-append acc (c ∷ xs) ys = ground (arith, read_digits-append (acc * 10 + (c - 48)) xs ys)

pub itoa_small : (n : ℕ) → n < 10 → itoa n ≡ (48 + n) ∷ []
itoa_small n h = rw itoa_step (ground arith)

pub itoa_large : (n : ℕ) → 10 ≤ n → itoa n ≡ itoa (n / 10) ++ (48 + n % 10) ∷ []
itoa_large n h = rw itoa_step (ground arith)

-- What `itoa` writes reads back.
read_digits-itoa_below : (f n : ℕ) → n < f → read_digits 0 (itoa n) ≡ some n
unfolding read_digits
read_digits-itoa_below zero n h = elim h [ ]
read_digits-itoa_below (suc f) n h = elim (Bool-cases (ltb n 10)) [
  | inl small ↦ rw (itoa_small n (ltb→lt n 10 small)) (ground arith)
  | inr large ↦
      rw (itoa_large n (ground arith))
        (rw (read_digits-append, read_digits-itoa_below f (n / 10) (ground arith)) (ground arith))
]

pub read_digits-itoa : (n : ℕ) → read_digits 0 (itoa n) ≡ some n
read_digits-itoa n = read_digits-itoa_below (suc n) n (omega arith)
