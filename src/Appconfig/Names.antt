-- ===== src/Appconfig/Names.antt =====
-- The names that ValidName of internal/appconfig/appconfig.go accepts.
use oakberryio.Prelude.{
  ◌≡◌, ℕ, zero, suc, ◌+◌, ◌≤◌, true, false, [], ◌∷◌, Text, arith, All, ◌==◌, nat_eq, length,
}
use oakberryio.Appconfig.{is_alnum, is_label_byte, name_tail, valid_name}

-- What a name has to be in order to stand in a path, a host name and a glob pattern.
pub record IsSegment (s : Text) : Type 0 where
  pub not_empty : 1 ≤ length s
  pub short : length s ≤ 32
  pub no_slash : All (λ c. (c == b'/') ≡ false) s
  pub no_dot : All (λ c. (c == b'.') ≡ false) s
  pub no_star : All (λ c. (c == b'*') ≡ false) s

module _ (b : ℕ) (other : (c : ℕ) → is_label_byte c ≡ true → (c == b) ≡ false) where
  tail_without : (n : ℕ) (s : Text) → name_tail n s ≡ true → All (λ c. (c == b) ≡ false) s
  unfolding name_tail is_label_byte
  tail_without n [] h = tt
  tail_without n (c ∷ []) h = (other c (ground arith), tt)
  tail_without zero (c ∷ d ∷ s) h = cc h
  tail_without (suc n) (c ∷ d ∷ s) h =
      (other c (ground arith), tail_without n (d ∷ s) (ground arith))

  name_without : (s : Text) → valid_name s ≡ true → All (λ c. (c == b) ≡ false) s
  unfolding valid_name is_label_byte
  name_without [] h = tt
  name_without (c ∷ s) h = (other c (ground arith), tail_without 30 s (ground arith))

tail_short : (n : ℕ) (s : Text) → name_tail n s ≡ true → length s ≤ n + 1
unfolding name_tail
tail_short n [] h = omega arith
tail_short n (c ∷ []) h = omega arith
tail_short zero (c ∷ d ∷ s) h = cc h
tail_short (suc n) (c ∷ d ∷ s) h = let shorter = tail_short n (d ∷ s) (ground arith) in omega arith

name_length : (s : Text) → valid_name s ≡ true → (1 ≤ length s) × (length s ≤ 32)
unfolding valid_name
name_length [] h = cc h
name_length (c ∷ s) h = let short = tail_short 30 s (ground arith) in (omega arith, omega arith)

-- A name that ValidName accepts has 1 to 32 bytes, none of them '/', '.' or '*'.
pub valid_name-IsSegment : (s : Text) → valid_name s ≡ true → IsSegment s
unfolding is_label_byte is_alnum
valid_name-IsSegment s h = record {
  not_empty = (name_length s h).0;
  short = (name_length s h).1;
  no_slash = name_without b'/' (λ c p. ground arith) s h;
  no_dot = name_without b'.' (λ c p. ground arith) s h;
  no_star = name_without b'*' (λ c p. ground arith) s h;
}
