-- ===== src/Deploy/ReleaseCommand/Marker.antt =====
-- The exit status that oak-init prints on the console, as runReleaseCommand reads it back.
use oakberryio.Prelude.{
  ℕ, ◌≤◌, ◌≡◌, ◌∙◌, ap, refl, arith, true, false, ◌⊎◌, inl, inr, none, some, List, [], ◌∷◌, ◌++◌,
  Text, All, ◌==◌, nat_eq, if◌then◌else◌, Bool-cases, ltb, ◌+◌, ◌-◌, ◌*◌, ◌/◌, ◌%◌,
}
use oakberryio.Prelude.Int.{pos}
use oakberryio.Text.Decimal.{itoa, itoa_step, is_digit, read_digits, read_digits-itoa}
use oakberryio.Paths.{split_on}
use oakberryio.Deploy.GuestEnv.{has_prefix}
use oakberryio.Deploy.ReleaseCommand.{
  marker, max_int, after_last, last_marker, int_prefix, read_number, atoi, last_child_exit_status,
}

abbrev IsDigits : Text → Type 0
IsDigits s = All (λ c. is_digit c ≡ true) s

read_digits-IsDigits : (acc : ℕ) (s : Text) {v : ℕ} → read_digits acc s ≡ some v → IsDigits s
unfolding read_digits
read_digits-IsDigits acc [] h = tt
read_digits-IsDigits acc (c ∷ s) {v} h = elim (Bool-cases (is_digit c)) [
  | inl d ↦ (d, read_digits-IsDigits (acc * 10 + (c - 48)) s {v = v} (ground arith))
  | inr n ↦ ground arith
]

int_prefix_digits : (s : Text) → IsDigits s → int_prefix s ≡ s
unfolding int_prefix
int_prefix_digits [] h = refl
int_prefix_digits (c ∷ s) (d, h) = ground (arith, int_prefix_digits s h)

-- No digit begins the marker.
after_last_digits : (s : Text) → IsDigits s → after_last marker s ≡ none
unfolding after_last has_prefix is_digit
after_last_digits [] h = refl
after_last_digits (c ∷ s) (d, h) = ground (arith, after_last_digits s h)

after_last-marker : (s : Text) → IsDigits s → after_last marker (marker ++ s) ≡ some s
unfolding after_last has_prefix nat_eq
after_last-marker s h = rw (after_last_digits s h) refl

split_line :
    (s : Text) → All (λ c. (c == b'\n') ≡ false) s → split_on b'\n' (s ++ b'\n' ∷ []) ≡ s ∷ [] ∷ []
unfolding split_on
split_line [] h = ground arith
split_line (c ∷ s) (n, h) = rw (split_line s h, n) refl

-- The lines end in one that has the marker before `ds`.
Marked : Text → List Text → Type 0
Marked ds [] = Unit → false ≡ true
Marked ds (p ∷ ps) =
    (last_marker ps ≡ some ds) ⊎ ((last_marker ps ≡ none) × (after_last marker p ≡ some ds))

module _ (ds : Text) where
  Marked-last_marker : (ls : List Text) → Marked ds ls → last_marker ls ≡ some ds
  unfolding Marked last_marker
  Marked-last_marker [] h = cc (h tt)
  Marked-last_marker (p ∷ ps) (inl e) = rw e refl
  Marked-last_marker (p ∷ ps) (inr (n, e)) = rw (n, e) refl

  Marked-cons :
      (c : ℕ) (ls : List Text)
      → Marked ds ls
      → Marked ds (elim ls [ [] ↦ [] | p ∷ ps ↦ if c == b'\n' then [] ∷ p ∷ ps else (c ∷ p) ∷ ps ])
  unfolding Marked last_marker after_last
  Marked-cons c [] h = h
  Marked-cons c (p ∷ ps) h = elim (Bool-cases (c == b'\n')) [
    | inl nl ↦ rw nl (inl (Marked-last_marker (p ∷ ps) h))
    | inr n ↦ rw n (elim h [ inl e ↦ inl e | inr (clear, e) ↦ inr (clear, rw e refl) ])
  ]

  -- More output before it changes nothing.
  Marked-split_on :
      (out z : Text) → Marked ds (split_on b'\n' z) → Marked ds (split_on b'\n' (out ++ z))
  unfolding split_on
  Marked-split_on [] z h = h
  Marked-split_on (c ∷ out) z h = Marked-cons c _ (Marked-split_on out z h)

atoi_digits :
    (c : ℕ) (s : Text) (n : ℕ)
    → IsDigits (c ∷ s)
    → n ≤ max_int
    → read_digits 0 (c ∷ s) ≡ some n
    → atoi (c ∷ s) ≡ some (pos n)
unfolding atoi read_number is_digit
atoi_digits c s n d small e = ground arith

snoc_ne : (s : Text) (c : ℕ) → s ++ c ∷ [] ≡ [] → false ≡ true
snoc_ne [] c h = cc h
snoc_ne (x ∷ s) c h = cc h

itoa_ne : (n : ℕ) → itoa n ≡ [] → false ≡ true
itoa_ne n h = elim (Bool-cases (ltb n 10)) [
  | inl small ↦ ground (arith, itoa_step n)
  | inr large ↦ snoc_ne (itoa (n / 10)) (48 + n % 10) (ground (arith, itoa_step n))
]

atoi-itoa : (n : ℕ) → n ≤ max_int → atoi (itoa n) ≡ some (pos n)
atoi-itoa n small = go (itoa n) (read_digits-itoa n) (itoa_ne n)
  where
    go : (s : Text) → read_digits 0 s ≡ some n → (s ≡ [] → false ≡ true) → atoi s ≡ some (pos n)
    go [] e ne = cc (ne refl)
    go (c ∷ s) e ne = atoi_digits c s n (read_digits-IsDigits 0 (c ∷ s) {v = n} e) small e

All-append : (P : ℕ → Type 0) (xs ys : Text) → All P xs → All P ys → All P (xs ++ ys)
All-append P [] ys h k = k
All-append P (x ∷ xs) ys (p, h) k = (p, All-append P xs ys h k)

NoNewline : Text → Type 0
NoNewline s = All (λ c. (c == b'\n') ≡ false) s

digits_NoNewline : (s : Text) → IsDigits s → NoNewline s
unfolding NoNewline is_digit
digits_NoNewline [] h = tt
digits_NoNewline (c ∷ s) (d, h) = (ground arith, digits_NoNewline s h)

marker-NoNewline : NoNewline marker
unfolding NoNewline
marker-NoNewline = ground arith

last_line :
    (s : Text) → IsDigits s → split_on b'\n' (marker ++ (s ++ b'\n' ∷ [])) ≡ (marker ++ s) ∷ [] ∷ []
unfolding NoNewline
last_line s d =
    split_line (marker ++ s) (All-append _ marker s marker-NoNewline (digits_NoNewline s d))

-- oak-init's last line on the console, after whatever the guest wrote before it
abbrev pub printed : Text → ℕ → Text
printed out n = out ++ (marker ++ (itoa n ++ b'\n' ∷ []))

marked :
    (n : ℕ)
    → IsDigits (itoa n)
    → Marked (itoa n) (split_on b'\n' (marker ++ (itoa n ++ b'\n' ∷ [])))
unfolding Marked last_marker after_last
marked n d = rw (last_line (itoa n) d) (inr (refl, after_last-marker (itoa n) d))

read_log :
    (log rest : Text)
    → last_marker (split_on b'\n' log) ≡ some rest
    → last_child_exit_status log ≡ atoi (int_prefix rest)
unfolding last_child_exit_status
read_log log rest e = rw (e, last_child_exit_status) refl

-- An exit status from 0 to 2^63 - 1 that oak-init prints is the one that lastChildExitStatus reads,
-- whatever the guest wrote before it on the same console.
pub last_child_exit_status-printed :
    (out : Text) (n : ℕ) → n ≤ max_int → last_child_exit_status (printed out n) ≡ some (pos n)
last_child_exit_status-printed out n small =
    let d = read_digits-IsDigits 0 (itoa n) {v = n} (read_digits-itoa n) in
    let found =
      Marked-last_marker (itoa n) _
        (Marked-split_on (itoa n) out (marker ++ (itoa n ++ b'\n' ∷ [])) (marked n d)) in
    read_log (printed out n) (itoa n) found
    ∙ ap atoi (int_prefix_digits (itoa n) d)
    ∙ atoi-itoa n small
