-- ===== src/Cli/Args/Pairs.antt =====
-- What ParseKV of internal/cli/kv.go reads back.
use oakberryio.Prelude.{
  Bool, true, false, ◌≡◌, refl, some, List, [], ◌∷◌, ◌++◌, map, arith, Text, ◌==◌, nat_eq, text_eq,
  if◌then◌else◌, All,
}
use oakberryio.Prelude.Dict.{Dict, insert, insert_all}
use oakberryio.Prelude.Results.{ok}
use oakberryio.Cli.Args.{cut_at_equals, split_pair, parse_pairs, parse_kv}

unfoldable pub has_equals : Text → Bool
has_equals [] = false
has_equals (c ∷ s) = let rest = has_equals s in if c == b'=' then true else rest

abbrev pub pair_text : Text × Text → Text
pair_text (key, value) = key ++ b'=' ∷ value

-- A key that an argument can carry.
pub record IsKey (kv : Text × Text) : Type 0 where
  pub bare : has_equals kv.0 ≡ false
  pub some_key : (kv.0 == []) ≡ false

cut_at_equals-pair :
    (key value : Text)
    → has_equals key ≡ false
    → cut_at_equals (key ++ b'=' ∷ value) ≡ some (key, value)
unfolding cut_at_equals has_equals
cut_at_equals-pair [] value h = ground arith
cut_at_equals-pair (c ∷ key) value h = ground (arith, cut_at_equals-pair key value)

split_pair-pair :
    (key value : Text) → IsKey (key, value) → split_pair (key ++ b'=' ∷ value) ≡ ok (key, value)
unfolding split_pair
split_pair-pair key value h =
    rw (cut_at_equals-pair key value h.bare, split_pair) (let e = h.some_key in ground arith)

parse_pairs-pairs :
    (d : Dict Text) (kvs : List (Text × Text))
    → All IsKey kvs
    → parse_pairs d (map pair_text kvs) ≡ ok (insert_all kvs d)
unfolding parse_pairs insert_all
parse_pairs-pairs d [] h = refl
parse_pairs-pairs d ((key, value) ∷ kvs) (h, hs) =
    rw (split_pair-pair key value h) (parse_pairs-pairs (insert key value d) kvs hs)

-- Arguments key=value, the keys without '=' and not empty, give the map in which each key has the
-- value that was given last.
pub parse_kv-pairs :
    (kvs : List (Text × Text))
    → All IsKey kvs
    → parse_kv (map pair_text kvs) ≡ ok (insert_all kvs [])
unfolding parse_kv
parse_kv-pairs kvs h = parse_pairs-pairs [] kvs h
