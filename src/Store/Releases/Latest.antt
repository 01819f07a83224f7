-- ===== src/Store/Releases/Latest.antt =====
-- LatestRelease of internal/store/store.go after InsertRelease.
use oakberryio.Prelude.{
  ◌≡◌, subst, refl, ℕ, ◌<◌, true, some, List, [], ◌∷◌, Text, arith, All, ltb, ◌==◌, ==_refl,
  text_eq, Option-cases, Bool-cases, inl, inr,
}
use oakberryio.Prelude.Results.{ok}
use oakberryio.Table.{select_by}
use oakberryio.Table.Laws.{All-imp, All-select_by}
use oakberryio.Store.{Db, Release, local}
use oakberryio.Store.Releases.{next_id, insert_release, largest_id, latest_release}

next_id_above : (rs : List Release) → All (λ r. r.id < next_id rs) rs
unfolding next_id
next_id_above [] = tt
next_id_above (r ∷ rs) = (ground arith, All-imp rs (λ q h. ground arith) (next_id_above rs))

largest_id_among :
    (P : Release → Type 0) (rs : List Release) {r : Release}
    → All P rs
    → largest_id rs ≡ some r
    → P r
unfolding largest_id
largest_id_among P [] h e = cc e
largest_id_among P (q ∷ rs) {r} (p, h) e = elim (Option-cases (largest_id rs)) [
  | inl none_left ↦ subst P (ground (arith, none_left, e)) p
  | inr (l, some_left) ↦
      let its = largest_id_among P rs {r = l} h some_left in
      elim (Bool-cases (ltb q.id l.id)) [
        | inl above ↦ subst P (ground (arith, some_left, above, e)) its
        | inr below ↦ subst P (ground (arith, some_left, below, e)) p
      ]
]

-- A row with an id above all others is the largest.
largest_id_new :
    (r : Release) (rs : List Release) → All (λ q. q.id < r.id) rs → largest_id (r ∷ rs) ≡ some r
unfolding largest_id
largest_id_new r rs h = elim (Option-cases (largest_id rs)) [
  | inl e ↦ rw e refl
  | inr (q, e) ↦
      let below = largest_id_among (λ q. q.id < r.id) rs {r = q} h e in rw e (ground arith)
]

abbrev pub recorded : Text → Text → Text → Text → Text → Text → ℕ → ℕ → Release
recorded app image rootfs cmd env workdir now id = record {
  id = id;
  app = app;
  image = image;
  rootfs = rootfs;
  node_id = local;
  cmd = cmd;
  env = env;
  workdir = workdir;
  created_at = now;
}

module _ (app image rootfs cmd env workdir : Text) (now : ℕ) (db : Db) where
  inserted :
      {id : ℕ} {db' : Db}
      → insert_release app image rootfs cmd env workdir now db ≡ ok (id, db')
      → (next_id db.releases ≡ id)
        × (db' ≡ record db {
          releases =
              recorded app image rootfs cmd env workdir now (next_id db.releases) ∷ db.releases;
        })
  unfolding insert_release
  inserted e = ground arith

  selected :
      (r : Release) (rs : List Release)
      → (r.app == app) ≡ true
      → All (λ q. q.id < r.id) rs
      → largest_id (select_by (λ (r : Release). r.app) app (r ∷ rs)) ≡ some r
  unfolding select_by
  selected r rs its below = rw its (
      largest_id_new r _ (
        All-imp _ (λ q h. h.1)
          (All-select_by (λ (r : Release). r.app) (λ q. q.id < r.id) app rs below)))

  latest :
      latest_release app (record db {
        releases =
            recorded app image rootfs cmd env workdir now (next_id db.releases) ∷ db.releases;
      })
      ≡ ok (recorded app image rootfs cmd env workdir now (next_id db.releases))
  unfolding latest_release
  latest = ground (
    arith,
    selected (recorded app image rootfs cmd env workdir now (next_id db.releases)) db.releases
        (==_refl app) (next_id_above db.releases),
  )

-- The release that InsertRelease has just recorded is the latest of its app, whatever ids the releases
-- that are there have; it has the columns that were given.
pub latest_release-insert_release :
    (app image rootfs cmd env workdir : Text) (now : ℕ) (db : Db) {id : ℕ} {db' : Db}
    → insert_release app image rootfs cmd env workdir now db ≡ ok (id, db')
    → latest_release app db' ≡ ok (recorded app image rootfs cmd env workdir now id)
latest_release-insert_release app image rootfs cmd env workdir now db {id} {db'} e =
    let (same_id, same) =
      inserted app image rootfs cmd env workdir now db {id = id} {db' = db'} e in
    rw (same, ← same_id) (latest app image rootfs cmd env workdir now db)
