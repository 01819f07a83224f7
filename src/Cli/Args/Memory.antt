-- ===== src/Cli/Args/Memory.antt =====
-- What ParseMemoryMB of internal/cli/memory.go reads back, and where it overflows.
use oakberryio.Prelude.{
  ℕ, ◌+◌, ◌-◌, ◌*◌, ◌<◌, ◌≤◌, Bool, true, false, ◌≡◌, ◌≢◌, refl, none, some, [], ◌∷◌, ◌++◌, arith,
  Text, t, ltb, ◌==◌, nat_eq, text_eq, if◌then◌else◌, Bool-cases, ==_iff, ==_refl, ltb→lt, sym,
  subst, ◌∙◌, ◌/◌, ◌%◌, inl, inr,
}
use oakberryio.Prelude.Int.{pos, negsuc}
use oakberryio.Prelude.Results.{ok}
use oakberryio.Text.Decimal.{itoa, is_digit, read_digits, read_digits-itoa, itoa_small, itoa_large}
use oakberryio.Text.Trim.{trim_space, trim_left, trim_right, is_space, to_lower, cut_suffix}
use oakberryio.Deploy.ReleaseCommand.{read_number, atoi}
use oakberryio.Cli.Args.{atoi_signed, times_int64, unit_of, scaled, parse_memory_mb}

-- digits only
unfoldable all_digits : Text → Bool
all_digits [] = true
all_digits (c ∷ s) = let rest = all_digits s in if is_digit c then rest else false

all_digits-read : (acc : ℕ) (s : Text) (n : ℕ) → read_digits acc s ≡ some n → all_digits s ≡ true
unfolding read_digits all_digits
all_digits-read acc [] n h = refl
all_digits-read acc (c ∷ s) n h = ground (arith, all_digits-read (acc * 10 + (c - 48)) s n)

trim_right-append :
    (s : Text) (c : ℕ) (r : Text)
    → trim_right (c ∷ r) ≡ c ∷ r
    → trim_right (s ++ c ∷ r) ≡ s ++ c ∷ r
unfolding trim_right
trim_right-append [] c r h = h
trim_right-append (d ∷ []) c r h = rw h refl
trim_right-append (d ∷ e ∷ s) c r h = rw (trim_right-append (e ∷ s) c r h) refl

to_lower-digits : (s r : Text) → all_digits s ≡ true → to_lower (s ++ r) ≡ s ++ to_lower r
unfolding to_lower all_digits is_digit
to_lower-digits [] r h = refl
to_lower-digits (c ∷ s) r h = ground (arith, to_lower-digits s r)

-- A digit does not begin the suffix.
suffix-digit :
    (x c : ℕ) (y s : Text) → is_digit x ≡ false → is_digit c ≡ true → (x ∷ y == c ∷ s) ≡ false
suffix-digit x c y s hx hc = elim (Bool-cases (x ∷ y == c ∷ s)) [
  | inl e ↦ let same = (==_iff (x ∷ y) (c ∷ s)).0 e in ground arith
  | inr e ↦ e
]

module _ (x : ℕ) (y : Text) (hx : is_digit x ≡ false) where
  cut_suffix-some : (s : Text) → all_digits s ≡ true → cut_suffix (x ∷ y) (s ++ x ∷ y) ≡ some s
  unfolding cut_suffix all_digits
  cut_suffix-some [] h = rw (==_refl (x ∷ y)) refl
  cut_suffix-some (c ∷ s) h = ground (arith, suffix-digit x c y (s ++ x ∷ y) hx, cut_suffix-some s)

  cut_suffix-none :
      (s r : Text)
      → all_digits s ≡ true
      → cut_suffix (x ∷ y) r ≡ none
      → cut_suffix (x ∷ y) (s ++ r) ≡ none
  unfolding cut_suffix all_digits
  cut_suffix-none [] r h k = k
  cut_suffix-none (c ∷ s) r h k =
      ground (arith, suffix-digit x c y (s ++ r) hx, cut_suffix-none s r)

-- A number as Itoa writes it: a first digit, and digits.
record IsNumeral (n : ℕ) (c : ℕ) (s : Text) : Type 0 where
  written : itoa n ≡ c ∷ s
  first : is_digit c ≡ true
  more : all_digits (c ∷ s) ≡ true
  reads : read_digits 0 (c ∷ s) ≡ some n

append-ne-nil : (xs : Text) (y : ℕ) → xs ++ y ∷ [] ≢ []
append-ne-nil [] y h = cc
append-ne-nil (x ∷ xs) y h = cc

itoa-ne-nil : (n : ℕ) → itoa n ≢ []
itoa-ne-nil n h = elim (Bool-cases (ltb n 10)) [
  | inl small ↦ let e = itoa_small n (ltb→lt n 10 small) in cc
  | inr large ↦ append-ne-nil (itoa (n / 10)) (48 + n % 10) (sym (itoa_large n (ground arith)) ∙ h)
]

IsNumeral-of : (n : ℕ) (s : Text) → itoa n ≡ s → s ≢ [] → (c : ℕ) × (r : Text) × IsNumeral n c r
unfolding all_digits
IsNumeral-of n [] e ne = absurd (ne refl)
IsNumeral-of n (c ∷ r) e ne =
    let reads : read_digits 0 (c ∷ r) ≡ some n =
      subst (λ s. read_digits 0 s ≡ some n) e (read_digits-itoa n) in
    let all = all_digits-read 0 (c ∷ r) n reads in
    (c, r, record { written = e; first = ground arith; more = all; reads = reads })

itoa-IsNumeral : (n : ℕ) → (c : ℕ) × (s : Text) × IsNumeral n c s
itoa-IsNumeral n = IsNumeral-of n (itoa n) refl (itoa-ne-nil n)

module _ {n c : ℕ} {s : Text} (d : IsNumeral n c s) where
  atoi_signed-itoa : n ≤ 9223372036854775807 → atoi_signed (c ∷ s) ≡ some (pos n)
  unfolding atoi_signed atoi read_number is_digit
  atoi_signed-itoa h = let first = d.first in let e = d.reads in ground arith

  numeral-trim_left : (r : Text) → trim_left (c ∷ s ++ r) ≡ c ∷ s ++ r
  unfolding trim_left is_digit is_space
  numeral-trim_left r = let first = d.first in ground arith

  -- The numeral and a suffix in small letters are left as they are.
  lower-trim :
      (x y : ℕ)
      → is_space y ≡ false
      → to_lower (x ∷ y ∷ []) ≡ x ∷ y ∷ []
      → to_lower (trim_space (c ∷ s ++ x ∷ y ∷ [])) ≡ c ∷ s ++ x ∷ y ∷ []
  unfolding trim_space
  lower-trim x y hy hl = rw (numeral-trim_left (x ∷ y ∷ [])) (
      rw (trim_right-append (c ∷ s) x (y ∷ []) (unfold trim_right in ground arith))
        (rw (to_lower-digits (c ∷ s) (x ∷ y ∷ []) d.more) (rw hl refl)))

  unit_of-gb : unit_of (c ∷ s ++ t "gb") ≡ (c ∷ s, 1024)
  unfolding unit_of
  unit_of-gb =
      rw (cut_suffix-some b'g' (b'b' ∷ []) (unfold is_digit in refl) (c ∷ s) d.more, unit_of) refl

  unit_of-mb : unit_of (c ∷ s ++ t "mb") ≡ (c ∷ s, 1)
  unfolding unit_of
  unit_of-mb =
      rw
        (
          cut_suffix-none b'g' (b'b' ∷ []) (unfold is_digit in refl) (c ∷ s) (t "mb") d.more
              (unfold cut_suffix text_eq in refl),
          unit_of,
        )
        (rw (cut_suffix-some b'm' (b'b' ∷ []) (unfold is_digit in refl) (c ∷ s) d.more) refl)

  parse_numeral :
      (x : ℕ) (multiplier : ℕ)
      → unit_of (c ∷ s ++ x ∷ b'b' ∷ []) ≡ (c ∷ s, multiplier)
      → to_lower (x ∷ b'b' ∷ []) ≡ x ∷ b'b' ∷ []
      → 0 < n
      → n ≤ 9223372036854775807
      → parse_memory_mb (c ∷ s ++ x ∷ b'b' ∷ []) ≡ ok (times_int64 n multiplier)
  unfolding parse_memory_mb scaled
  parse_numeral x multiplier unit lower pos_n fits =
      let trimmed = lower-trim x b'b' (unfold is_space in ground arith) lower in
      rw trimmed (rw unit (rw (atoi_signed-itoa fits) (ground arith)))

pub parse_memory_mb-gb :
    (n : ℕ)
    → 0 < n
    → n ≤ 9223372036854775807
    → parse_memory_mb (itoa n ++ t "gb") ≡ ok (times_int64 n 1024)
parse_memory_mb-gb n h k =
    let (c, s, d) = itoa-IsNumeral n in
    rw d.written (parse_numeral d b'g' 1024 (unit_of-gb d) (unfold to_lower in refl) h k)

pub parse_memory_mb-mb :
    (n : ℕ)
    → 0 < n
    → n ≤ 9223372036854775807
    → parse_memory_mb (itoa n ++ t "mb") ≡ ok (times_int64 n 1)
parse_memory_mb-mb n h k =
    let (c, s, d) = itoa-IsNumeral n in
    rw d.written (parse_numeral d b'm' 1 (unit_of-mb d) (unfold to_lower in refl) h k)

-- Sizes "<n>gb" and "<n>mb" with a positive n below 2^53 are read as n * 1024 and n megabytes.
pub parse_memory_mb-itoa :
    (n : ℕ)
    → 0 < n
    → n < 9007199254740992
    → (parse_memory_mb (itoa n ++ t "gb") ≡ ok (pos (n * 1024)))
      × (parse_memory_mb (itoa n ++ t "mb") ≡ ok (pos n))
unfolding times_int64
parse_memory_mb-itoa n h k = (
  parse_memory_mb-gb n h (omega arith) ∙ ground arith,
  parse_memory_mb-mb n h (omega arith) ∙ ground arith,
)

-- From 2^53 up to 2^54 gigabytes the product leaves the range of an int, and a negative size is
-- returned as valid.
pub parse_memory_mb-overflows :
    (n : ℕ)
    → 9007199254740992 ≤ n
    → n < 18014398509481984
    → (v : ℕ) × (parse_memory_mb (itoa n ++ t "gb") ≡ ok (negsuc v))
unfolding times_int64
parse_memory_mb-overflows n h k = (
  18446744073709551615 - n * 1024,
  parse_memory_mb-gb n (omega arith) (omega arith) ∙ ground arith,
)
