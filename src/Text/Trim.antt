-- ===== src/Text/Trim.antt =====
-- What package strings is used for: white space, prefixes, suffixes and case. Texts are read as ASCII;
-- white space beyond it is taken for letters.
use oakberryio.Prelude.{
  ℕ, ◌+◌, Bool, ◌&&◌, ◌||◌, ◌≡◌, refl, Option, none, some, List, [], ◌∷◌, ◌++◌, map, arith, Text, t,
  ◌==◌, nat_eq, text_eq, leb, if◌then◌else◌,
}

unfoldable pub is_space : ℕ → Bool
is_space c = c == 32 || leb 9 c && leb c 13

unfoldable pub trim_left : Text → Text
trim_left [] = []
trim_left (c ∷ s) = let rest = trim_left s in if is_space c then rest else c ∷ s

-- `s` without the white space at its end
unfoldable pub trim_right : Text → Text
trim_right [] = []
trim_right (c ∷ s) = elim (trim_right s) [
  | [] ↦ if is_space c then [] else c ∷ []
  | d ∷ r ↦ c ∷ d ∷ r
]

unfoldable pub trim_space : Text → Text
unfolding trim_left trim_right is_space
trim_space s = trim_right (trim_left s)

-- strings.TrimRight(s, "/")
unfoldable pub trim_slashes : Text → Text
trim_slashes [] = []
trim_slashes (c ∷ s) = elim (trim_slashes s) [
  | [] ↦ if c == b'/' then [] else c ∷ []
  | d ∷ r ↦ c ∷ d ∷ r
]

unfoldable pub to_lower : Text → Text
to_lower = map (λ c. if leb b'A' c && leb c b'Z' then c + 32 else c)

unfoldable pub cut_prefix : Text → Text → Option Text
cut_prefix [] s = some s
cut_prefix (c ∷ p) [] = none
cut_prefix (c ∷ p) (d ∷ s) = let rest = cut_prefix p s in if c == d then rest else none

-- What stands before the suffix, where there is one.
unfoldable pub cut_suffix : Text → Text → Option Text
cut_suffix p [] = if p == [] then some [] else none
cut_suffix p (c ∷ s) =
    if p == c ∷ s
    then some []
    else elim (cut_suffix p s) [ none ↦ none | some front ↦ some (c ∷ front) ]

-- strings.Fields: the pieces between runs of white space.
push_field : Text → List Text → List Text
push_field [] fs = fs
push_field (c ∷ s) fs = (c ∷ s) ∷ fs

-- The field that is open at the front, and the fields after it.
split_fields : Text → Text × List Text
unfolding push_field is_space
split_fields [] = ([], [])
split_fields (c ∷ s) =
    let (open_field, rest) = split_fields s in
    if is_space c then ([], push_field open_field rest) else (c ∷ open_field, rest)

unfoldable pub fields : Text → List Text
unfolding split_fields push_field is_space
fields s = let (open_field, rest) = split_fields s in push_field open_field rest

pub cut_prefix-append : (p s : Text) → cut_prefix p (p ++ s) ≡ some s
unfolding cut_prefix
cut_prefix-append [] s = refl
cut_prefix-append (c ∷ p) s = ground (arith, cut_prefix-append p s)

runs :
    (fields (t "  cpu  12 ") ≡ t "cpu" ∷ t "12" ∷ [])
    × (trim_space (t " a b ") ≡ t "a b")
    × (cut_suffix (t "gb") (t "12gb") ≡ some (t "12"))
    × (to_lower (t "2GB") ≡ t "2gb")
    × (trim_slashes (t "http://x//") ≡ t "http://x")
unfolding fields trim_space cut_suffix to_lower trim_slashes nat_eq text_eq
runs = (refl, refl, refl, refl, refl)
