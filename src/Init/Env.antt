-- ===== src/Init/Env.antt =====
-- cmd/oak-init/helpers.go, and childEnv of cmd/oak-init/main.go.
use oakberryio.Prelude.{
  ◌≡◌, ◌∙◌, ap, refl, arith, none, some, List, [], ◌∷◌, ◌++◌, Text, t, ◌==◌, nat_eq, text_eq,
  if◌then◌else◌, Bool-cases, Option-cases, inl, inr, ==_iff,
}
use oakberryio.Prelude.Dict.{Dict, lookup, insert, lookup-insert, Unique, insert_all-lookup}
use oakberryio.Mmds.{Guest, merge_env, merged, add_pairs, split_env, value_or_empty}

unfoldable pub resolv_conf : Text → Text
resolv_conf dns_ip = t "nameserver " ++ (dns_ip ++ 10 ∷ [])

unfoldable pub hosts_file : Text → Text
hosts_file machine_id =
    t "127.0.0.1"
    ++ (9 ∷ (t "localhost" ++ (10 ∷ (t "127.0.0.1" ++ (9 ∷ (machine_id ++ 10 ∷ []))))))

abbrev pub default_path : Text
default_path = t "/usr/local/sbin:/usr/local/bin:/usr/sbin:/usr/bin:/sbin:/bin"

-- env[k], or the default where it is missing or empty
unfoldable pub env_or : Text → Text → Dict Text → Text
env_or k fallback env = let v = value_or_empty (lookup k env) in if v == t "" then fallback else v

unfoldable pub baseline_env : Dict Text → List Text
baseline_env env =
    (t "PATH=" ++ env_or (t "PATH") default_path env)
    ∷ (t "HOME=" ++ env_or (t "HOME") (t "/root") env)
    ∷ []

unfoldable pub child_env : Guest → List Text
child_env g = merge_env (baseline_env g.env) g.env

base_dict :
    (env : Dict Text)
    → add_pairs (baseline_env env) []
      ≡ insert
          (t "HOME")
          (env_or (t "HOME") (t "/root") env)
          (insert (t "PATH") (env_or (t "PATH") default_path env) [])
unfolding baseline_env add_pairs split_env nat_eq
base_dict env = refl

-- The fallback, for a key that is missing.
env_or-none :
    (j k fallback : Text) (env : Dict Text)
    → lookup k env ≡ none
    → j ≡ k
    → env_or j fallback env ≡ fallback
unfolding env_or value_or_empty
env_or-none j k fallback env h e = rw e (rw (h, env_or) (ground arith))

base-lookup :
    (env : Dict Text) (k : Text)
    → lookup k env ≡ none
    → lookup k (add_pairs (baseline_env env) []) ≡ (
        if t "HOME" == k
        then some (t "/root")
        else if t "PATH" == k
        then some default_path
        else none)
unfolding lookup
base-lookup env k h =
    let home =
      lookup-insert k (t "HOME") (env_or (t "HOME") (t "/root") env)
        (insert (t "PATH") (env_or (t "PATH") default_path env) []) in
    let path = lookup-insert k (t "PATH") (env_or (t "PATH") default_path env) [] in
    rw (base_dict env) (
      home ∙ elim (Bool-cases (t "HOME" == k)) [
        | inl e ↦
            rw e (ap some (env_or-none (t "HOME") k (t "/root") env h ((==_iff (t "HOME") k).0 e)))
        | inr e ↦ rw e (
            path ∙ elim (Bool-cases (t "PATH" == k)) [
              | inl f ↦ rw f (
                  ap some (env_or-none (t "PATH") k default_path env h ((==_iff (t "PATH") k).0 f)))
              | inr f ↦ rw f refl
            ])
      ])

-- The variables of a child: those of the payload, and where it sets none, the default PATH and HOME.
pub child_env-lookup :
    (g : Guest) (k : Text)
    → Unique g.env
    → lookup k (merged (baseline_env g.env) g.env) ≡ elim (lookup k g.env) [
      | some v ↦ some v
      | none ↦
          if t "HOME" == k
          then some (t "/root")
          else if t "PATH" == k
          then some default_path
          else none
    ]
unfolding merged
child_env-lookup g k h =
    insert_all-lookup g.env (add_pairs (baseline_env g.env) []) k h
    ∙ elim (Option-cases (lookup k g.env)) [
      | inl e ↦ rw e (base-lookup g.env k e)
      | inr (v, e) ↦ rw e refl
    ]
