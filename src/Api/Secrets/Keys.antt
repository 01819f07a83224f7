-- ===== src/Api/Secrets/Keys.antt =====
-- What the secrets endpoints of internal/daemon/api.go show of the table.
use oakberryio.Prelude.{
  ◌≡◌, ◌∙◌, sym, ap, refl, Bool, true, false, ◌||◌, Option, none, some, List, [], ◌∷◌, map, arith,
  Text, ◌==◌, text_eq, pair_eq, Bool-cases, inl, inr, ==_refl, sort, le_text, any, any-sort,
}
use oakberryio.Prelude.Dict.{Dict, keys, mem}
use oakberryio.Table.{find_by, select_by}
use oakberryio.Store.{Db, Secret}
use oakberryio.Store.Secrets.{secret_key, secrets, put_secret}
use oakberryio.Store.Secrets.Vault.{view, apply, change, same_key, put, apply-view, ciphertext_of}
use oakberryio.Deploy.{World}
use oakberryio.Deploy.State.{with_db}
use oakberryio.Appconfig.{valid_name}
use oakberryio.Api.{Server, respond, for_app}
use oakberryio.Api.Secrets.{
  put_all, secret_names, list_secrets, put_body, handle_list_secrets, handle_secrets,
}

abbrev is_some : Option Text → Bool
is_some none = false
is_some (some c) = true

abbrev names_of : Text → List Secret → List Text
names_of app ss =
    map (λ (kv : Text × Text). kv.0)
      (map (λ (s : Secret). (s.key, s.ciphertext)) (select_by (λ (s : Secret). s.app) app ss))

mem-names_of :
    (app k : Text) (ss : List Secret)
    → mem k (names_of app ss) ≡ is_some (ciphertext_of (find_by secret_key (app, k) ss))
unfolding mem select_by find_by
mem-names_of app k [] = refl
mem-names_of app k (s ∷ ss) = elim (Bool-cases (s.app == app)) [
  | inl here ↦ rw here (ground (arith, mem-names_of app k ss, same_key s.app s.key app k))
  | inr other ↦ rw other (ground (arith, mem-names_of app k ss, same_key s.app s.key app k))
]

-- A key is listed exactly if the table has a ciphertext for it.
mem-secret_names : (app k : Text) (db : Db) → mem k (secret_names app db) ≡ is_some (view db app k)
unfolding secret_names secrets view
mem-secret_names app k db = mem-names_of app k db.secrets

mem-any : (k : Text) (js : List Text) → mem k js ≡ any (λ j. j == k) js
unfolding mem any
mem-any k [] = refl
mem-any k (j ∷ js) = rw (mem-any k js) refl

mem-sort : (k : Text) (js : List Text) → mem k (sort le_text js) ≡ mem k js
mem-sort k js = mem-any k (sort le_text js) ∙ any-sort (λ j. j == k) le_text js ∙ sym (mem-any k js)

-- What GET /apps/{name}/secrets lists
abbrev pub listed : Text → World → List Text
listed name w = sort le_text (secret_names name w.db)

mem-put :
    (name key ct k : Text) (w : World)
    → mem k (secret_names name (put_secret name key ct w.db))
      ≡ (key == k || mem k (secret_names name w.db))
unfolding apply change
mem-put name key ct k w =
    mem-secret_names name k (put_secret name key ct w.db)
    ∙ ground (
      arith,
      apply-view (put name key ct) w.db name k,
      mem-secret_names name k w.db,
      same_key name key name k,
      ==_refl name,
    )

module _ (encrypt : Text → Option Text) (total : (v : Text) → (c : Text) × (encrypt v ≡ some c))
    (name : Text) where
  mem-put_all :
      (d : Dict Text) (k : Text) (w : World)
      → mem k (secret_names name (put_all encrypt name d w).1.db)
        ≡ (mem k (keys d) || mem k (secret_names name w.db))
  unfolding put_all mem keys respond with_db
  mem-put_all [] k w = refl
  mem-put_all ((key, value) ∷ d) k w =
      let (c, e) = total value in
      rw (e, put_all)
        (mem-put_all d k (with_db (put_secret name key c w.db) w)
          ∙ ground (arith, mem-put name key c k w))

  -- With an identity, and an encryption that succeeds: after a PUT of these secrets, the sorted list
  -- that GET returns has exactly the keys that were put and those that it had before.
  pub handle_secrets-listed :
      (s : Server) (identity body : Text) (d : Dict Text) (k : Text) (w : World)
      → s.deployer.identity ≡ some identity
      → s.encrypt identity ≡ encrypt
      → valid_name name ≡ true
      → s.codec.read_dict body ≡ some d
      → mem k (listed name (handle_secrets s name body w).1)
        ≡ (mem k (keys d) || mem k (listed name w))
  unfolding handle_secrets put_body for_app
  handle_secrets-listed s identity body d k w has_identity same valid reads = rw valid (
      rw reads (
        rw has_identity (
          rw same (
            mem-sort k (secret_names name (put_all encrypt name d w).1.db)
            ∙ mem-put_all d k w
            ∙ ap (λ b. mem k (keys d) || b) (sym (mem-sort k (secret_names name w.db)))))))

-- The rows without their ciphertexts
abbrev pub columns : Db → List (Text × Text)
columns db = map secret_key db.secrets

names_of-keys :
    (app : Text) (ss rs : List Secret)
    → map secret_key ss ≡ map secret_key rs
    → names_of app ss ≡ names_of app rs
unfolding select_by
names_of-keys app [] [] e = refl
names_of-keys app [] (r ∷ rs) e = cc
names_of-keys app (s ∷ ss) [] e = cc
names_of-keys app (s ∷ ss) (r ∷ rs) e =
    let rest : map secret_key ss ≡ map secret_key rs = cc in
    let ih = names_of-keys app ss rs rest in
    let a : s.app ≡ r.app = cc in
    let k : s.key ≡ r.key = cc in
    elim (Bool-cases (s.app == app)) [
      | inl here ↦ rw here (rw (rw a at here) (ground arith))
      | inr other ↦ rw other (rw (rw a at other) (ground arith))
    ]

-- The list of secrets shows nothing of their values: on two stores whose secrets differ in their
-- ciphertexts alone, the response is the same.
pub handle_list_secrets-blind :
    (s : Server) (name : Text) (v w : World)
    → columns v.db ≡ columns w.db
    → (handle_list_secrets s name v).0 ≡ (handle_list_secrets s name w).0
unfolding handle_list_secrets list_secrets secret_names secrets for_app respond
handle_list_secrets-blind s name v w e =
    ground (arith, names_of-keys name v.db.secrets w.db.secrets)
