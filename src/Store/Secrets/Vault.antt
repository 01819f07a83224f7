-- ===== src/Store/Secrets/Vault.antt =====
-- What the table secrets promises: for an app and a key, at most one ciphertext. Its operations are
-- those of a map, whatever the order and the history of the rows.
use mathlib.Core.Path.{fun_ext}
use oakberryio.Prelude.{
  ◌↔◌, Bool, true, ◌≡◌, ◌∙◌, ap, refl, Option, none, some, List, [], ◌∷◌, arith, Text, ◌==◌,
  text_eq, pair_eq, if◌then◌else◌, Bool-cases, inl, inr, ==_iff,
}
use oakberryio.Table.{has, find_by, delete_by}
use oakberryio.Table.Laws.{has-find_by, find_by-delete_by, find_by-update_by}
use oakberryio.Store.{Db, Secret}
use oakberryio.Store.Secrets.{secret_key, put_secret, delete_secret, delete_secrets_for_app}

abbrev pub Vault : Type 0
Vault = Text → Text → Option Text

abbrev pub ciphertext_of : Option Secret → Option Text
ciphertext_of none = none
ciphertext_of (some s) = some s.ciphertext

-- The map that the table stands for.
unfoldable pub view : Db → Vault
view db app key = ciphertext_of (find_by secret_key (app, key) db.secrets)

pub data Change : Type 0 where
  put : Text → Text → Text → Change
  unset : Text → Text → Change
  forget : Text → Change

-- The statement that each change runs.
unfoldable pub apply : Change → Db → Db
apply (put app key ciphertext) = put_secret app key ciphertext
apply (unset app key) = delete_secret app key
apply (forget app) = delete_secrets_for_app app

unfoldable pub apply_all : List Change → Db → Db
apply_all [] db = db
apply_all (c ∷ cs) db = apply_all cs (apply c db)

abbrev entry_is : Text × Text → Text → Text → Bool
entry_is e a k = e == (a, k)

-- The same on the map.
unfoldable pub change : Change → Vault → Vault
change (put app key ciphertext) v a k = if entry_is (app, key) a k then some ciphertext else v a k
change (unset app key) v a k = if entry_is (app, key) a k then none else v a k
change (forget app) v a k = if app == a then none else v a k

unfoldable pub change_all : List Change → Vault → Vault
change_all [] v = v
change_all (c ∷ cs) v = change_all cs (change c v)

pub same_key :
    (a k b j : Text) → (◌==◌ {A = Text × Text} (a, k) (b, j) ≡ true) ↔ ((a ≡ b) × (k ≡ j))
same_key a k b j =
    let (to, from) = ==_iff {A = Text × Text} (a, k) (b, j) in
    (λ h. (ap (λ p. p.0) (to h), ap (λ p. p.1) (to h)), λ h. from (cc))

find_by-put :
    (app key ciphertext a k : Text) (db : Db)
    → view (put_secret app key ciphertext db) a k
      ≡ (if entry_is (app, key) a k then some ciphertext else view db a k)
unfolding view put_secret find_by
find_by-put app key ciphertext a k db = elim (Bool-cases (has secret_key (app, key) db.secrets)) [
  | inl e ↦
      rw (e, put_secret)
        (rw
          (find_by-update_by secret_key (λ s. record s { ciphertext = ciphertext }) (λ s. refl)
            (a, k) (app, key) db.secrets)
          (ground (
            arith,
            has-find_by secret_key (app, key) db.secrets,
            same_key a k app key,
            same_key app key a k,
          )))
  | inr e ↦ rw (e, put_secret) (ground arith)
]

find_by-forget :
    (app a k : Text) (ss : List Secret)
    → find_by secret_key (a, k) (delete_by (λ (s : Secret). s.app) app ss)
      ≡ (if app == a then none else find_by secret_key (a, k) ss)
unfolding find_by delete_by
find_by-forget app a k [] = ground arith
find_by-forget app a k (s ∷ ss) =
    ground
      (arith, find_by-forget app a k ss, same_key s.app s.key a k, ==_iff s.app app, ==_iff app a)

pub apply-view :
    (c : Change) (db : Db) (a k : Text) → view (apply c db) a k ≡ change c (view db) a k
unfolding apply change
apply-view (put app key ciphertext) db a k = find_by-put app key ciphertext a k db
apply-view (unset app key) db a k =
    unfold view delete_secret in
    ground (
      arith,
      find_by-delete_by secret_key (a, k) (app, key) db.secrets,
      same_key a k app key,
      same_key app key a k,
    )
apply-view (forget app) db a k =
    unfold view delete_secrets_for_app in ground (arith, find_by-forget app a k db.secrets)

-- However the table came about: after any sequence of writes and deletions it stands for the map that
-- the same sequence makes of the map that it stood for.
pub apply_all-view : (cs : List Change) (db : Db) → view (apply_all cs db) ≡ change_all cs (view db)
unfolding apply_all change_all
apply_all-view [] db = refl
apply_all-view (c ∷ cs) db =
    apply_all-view cs (apply c db)
    ∙ ap (change_all cs) (fun_ext λ a. fun_ext λ k. apply-view c db a k)
