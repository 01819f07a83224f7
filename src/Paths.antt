-- ===== src/Paths.antt =====
-- path.Clean, path.Join and their filepath forms on Linux, which the program builds its paths with.
use oakberryio.Prelude.{
  ℕ, Bool, false, ◌≡◌, refl, List, [], ◌∷◌, ◌++◌, Text, t, ◌==◌, nat_eq, text_eq, if◌then◌else◌,
}

-- The pieces between slashes.
unfoldable pub split_on : ℕ → Text → List Text
split_on sep [] = [] ∷ []
split_on sep (c ∷ s) = elim (split_on sep s) [
  | [] ↦ []
  | p ∷ ps ↦ if c == sep then [] ∷ p ∷ ps else (c ∷ p) ∷ ps
]

unfoldable pub join_with : Text → List Text → Text
join_with sep [] = []
join_with sep (p ∷ []) = p
join_with sep (p ∷ q ∷ ps) = p ++ (sep ++ join_with sep (q ∷ ps))

-- The pieces that are kept, the last first: "" and "." go, ".." takes one back.
unfoldable pub push_piece : Bool → List Text → Text → List Text
push_piece rooted [] p =
    if p == t ""
    then []
    else if p == t "."
    then []
    else if p == t ".."
    then if rooted then [] else p ∷ []
    else p ∷ []
push_piece rooted (q ∷ qs) p =
    if p == t ""
    then q ∷ qs
    else if p == t "."
    then q ∷ qs
    else if p == t ".."
    then if q == t ".." then p ∷ q ∷ qs else qs
    else p ∷ q ∷ qs

unfoldable pub push_pieces : Bool → List Text → List Text → List Text
push_pieces rooted kept [] = kept
push_pieces rooted kept (p ∷ ps) = push_pieces rooted (push_piece rooted kept p) ps

unfoldable pub reverse_onto : List Text → List Text → List Text
reverse_onto [] ys = ys
reverse_onto (x ∷ xs) ys = reverse_onto xs (x ∷ ys)

unfoldable pub is_abs : Text → Bool
is_abs [] = false
is_abs (c ∷ s) = c == b'/'

-- path.Clean
unfoldable pub clean : Text → Text
clean s =
    let kept = reverse_onto (push_pieces (is_abs s) [] (split_on b'/' s)) [] in
    let body = join_with (t "/") kept in
    if is_abs s then b'/' ∷ body else if body == t "" then t "." else body

-- path.Join of two elements
unfoldable pub join : Text → Text → Text
join a b =
    if a == t ""
    then if b == t "" then t "" else clean b
    else if b == t ""
    then clean a
    else clean (a ++ b'/' ∷ b)

cleans :
    (clean (t "/a/b/../c//./d/") ≡ t "/a/c/d")
    × (clean (t "../x/..") ≡ t "..")
    × (clean (t "/..") ≡ t "/")
    × (clean (t "") ≡ t ".")
    × (join (t "/run/oak/") (t "../x.sock") ≡ t "/run/x.sock")
unfolding clean join split_on join_with push_piece push_pieces reverse_onto is_abs nat_eq text_eq
cleans = (refl, refl, refl, refl, refl)
