-- ===== src/Deploy/GuestEnv/Layers.antt =====
-- What a guest finds in its environment: the layers of buildGuestEnv of internal/daemon/deploy.go
-- after the way through the lines of MergeEnv of internal/mmds/mmds.go.
use oakberryio.Prelude.{
  ◌≡◌, ◌∙◌, refl, ap, sym, arith, Bool, true, false, ◌||◌, Option, none, some, List, [], ◌∷◌, Text,
  ◌==◌, nat_eq, text_eq, if◌then◌else◌, any, any-sort, map, sort, le_text, ==_iff, Bool-cases, ◌⊎◌,
  inl, inr,
}
use oakberryio.Prelude.Dict.{
  Dict, lookup, insert, keys, mem, mem-keys, lookup-insert, Unique, insert_all-lookup,
}
use oakberryio.Mmds.{split_env, add_pairs, merged, value_or_empty, pair_line, merge_env}
use oakberryio.Deploy.GuestEnv.{slice_onto, env_slice_to_map}

abbrev pub has_equals : Text → Bool
has_equals = any (λ c. c == b'=')

split_env-pair_line : (k v : Text) → has_equals k ≡ false → split_env (pair_line k v) ≡ some (k, v)
unfolding split_env any
split_env-pair_line [] v h = ground arith
split_env-pair_line (c ∷ k) v h = ground (arith, split_env-pair_line k v)

slice_onto-pair_line :
    (k v : Text) (kvs : List Text) (d : Dict Text)
    → has_equals k ≡ false
    → slice_onto (pair_line k v ∷ kvs) d ≡ slice_onto kvs (insert k v d)
unfolding slice_onto
slice_onto-pair_line k v kvs d h =
    ap
      (λ (o : Option (Text × Text)).
        slice_onto kvs (elim o as (λ o. Dict Text) [ none ↦ d | some p ↦ insert p.0 p.1 d ]))
      (split_env-pair_line k v h)

-- Lines that were made of keys, read back.
slice_onto-lines :
    (f : Text → Text) (ks : List Text) (d : Dict Text) (j : Text)
    → any has_equals ks ≡ false
    → lookup j (slice_onto (map (λ k. pair_line k (f k)) ks) d)
      ≡ (if mem j ks then some (f j) else lookup j d)
unfolding slice_onto mem any
slice_onto-lines f [] d j h = refl
slice_onto-lines f (k ∷ ks) d j h =
    ap (lookup j) (slice_onto-pair_line k (f k) (map (λ k. pair_line k (f k)) ks) d (ground arith))
    ∙ slice_onto-lines f ks (insert k (f k) d) j (ground arith)
    ∙ rw (lookup-insert j k (f k) d) (first_or_later (Bool-cases (k == j)))
  where
    first_or_later :
        ((k == j) ≡ true) ⊎ ((k == j) ≡ false)
        → (if mem j ks then some (f j) else if k == j then some (f k) else lookup j d)
          ≡ (if k == j || mem j ks then some (f j) else lookup j d)
    first_or_later (inl here) = let same = ap f ((==_iff k j).0 here) in ground arith
    first_or_later (inr other) = ground arith

mem-any : (k : Text) (js : List Text) → mem k js ≡ any (λ j. j == k) js
unfolding mem any
mem-any k [] = refl
mem-any k (j ∷ js) = rw (mem-any k js) refl

mem-sort : (k : Text) (js : List Text) → mem k (sort le_text js) ≡ mem k js
mem-sort k js = mem-any k (sort le_text js) ∙ any-sort (λ j. j == k) le_text js ∙ sym (mem-any k js)

found_or_not :
    (o : Option Text)
    → (if (elim o [ none ↦ false | some _ ↦ true ]) then some (value_or_empty o) else none) ≡ o
unfolding value_or_empty
found_or_not none = refl
found_or_not (some v) = refl

-- The lines of MergeEnv stand for the map that they were made of.
env_slice_to_map-merge_env :
    (image_env : List Text) (override : Dict Text) (j : Text)
    → any has_equals (keys (merged image_env override)) ≡ false
    → lookup j (env_slice_to_map (merge_env image_env override))
      ≡ lookup j (merged image_env override)
unfolding env_slice_to_map merge_env lookup
env_slice_to_map-merge_env image_env override j h =
    let m = merged image_env override in
    slice_onto-lines (λ k. value_or_empty (lookup k m)) (sort le_text (keys m)) [] j
      (any-sort has_equals le_text (keys m) ∙ h)
    ∙ rw (mem-sort j (keys m), mem-keys j m) (found_or_not (lookup j m))

add_pairs-slice_onto : (kvs : List Text) (d : Dict Text) → add_pairs kvs d ≡ slice_onto kvs d
unfolding add_pairs slice_onto
add_pairs-slice_onto [] d = refl
add_pairs-slice_onto (kv ∷ kvs) d = add_pairs-slice_onto kvs _

-- Where no key of a layer has a "=" in it: the guest finds what the overriding layers set, and the
-- image's own value where they set none.
pub merge_env-lookup :
    (image_env : List Text) (override : Dict Text) (j : Text)
    → Unique override
    → any has_equals (keys (merged image_env override)) ≡ false
    → lookup j (env_slice_to_map (merge_env image_env override))
      ≡ elim (lookup j override) [ none ↦ lookup j (env_slice_to_map image_env) | some v ↦ some v ]
unfolding merged env_slice_to_map
merge_env-lookup image_env override j u h =
    env_slice_to_map-merge_env image_env override j h
    ∙ insert_all-lookup override (add_pairs image_env []) j u
    ∙ ap
        (λ (base : Dict Text). elim (lookup j override) as (λ o. Option Text) [
          | none ↦ lookup j base
          | some v ↦ some v
        ])
        (add_pairs-slice_onto image_env [])
