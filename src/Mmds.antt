-- ===== src/Mmds.antt =====
-- internal/mmds/mmds.go: the payload that oakd hands a guest, its command and its environment.
use oakberryio.Prelude.{
  Option, none, some, List, [], ◌∷◌, ◌++◌, map, Text, ◌==◌, nat_eq, if◌then◌else◌, sort, le_text,
}
use oakberryio.Prelude.Dict.{Dict, lookup, insert, insert_all, keys}
use oakberryio.Prelude.Results.{Result, ok, err, no_command}

pub record Mount : Type 0 where
  pub device : Text
  pub dest : Text

pub record Guest : Type 0 where
  pub machine_id : Text
  pub app : Text
  pub ip : Text
  pub gateway : Text
  pub dns : Text
  pub env : Dict Text
  pub entrypoint : List Text
  pub cmd : List Text
  pub working_dir : Text
  pub mounts : List Mount

-- Guest.Argv: the entrypoint, then cmd.
unfoldable pub argv : Guest → Result (List Text)
argv g = elim (g.entrypoint ++ g.cmd) [ [] ↦ err no_command | a ∷ rest ↦ ok (a ∷ rest) ]

-- The part before the first '=', and the part behind it.
unfoldable pub split_env : Text → Option (Text × Text)
split_env [] = none
split_env (c ∷ s) =
    let rest = split_env s in
    if c == b'=' then some ([], s) else elim rest [ none ↦ none | some (k, v) ↦ some (c ∷ k, v) ]

-- for kv in imageEnv: merged[key] = value; entries with no '=' are skipped.
unfoldable pub add_pairs : List Text → Dict Text → Dict Text
add_pairs [] d = d
add_pairs (kv ∷ kvs) d =
    add_pairs kvs (elim (split_env kv) [ none ↦ d | some (k, v) ↦ insert k v d ])

unfoldable pub merged : List Text → Dict Text → Dict Text
merged image_env override = insert_all override (add_pairs image_env [])

-- Indexing a Go map gives "" where the key is missing.
unfoldable pub value_or_empty : Option Text → Text
value_or_empty none = []
value_or_empty (some v) = v

abbrev pub pair_line : Text → Text → Text
pair_line k v = k ++ b'=' ∷ v

unfoldable pub merge_env : List Text → Dict Text → List Text
unfolding value_or_empty
merge_env image_env override =
    let m = merged image_env override in
    map (λ (k : Text). pair_line k (value_or_empty (lookup k m))) (sort le_text (keys m))
