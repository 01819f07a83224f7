-- ===== src/Deploy/Volumes.antt =====
-- resolveVolumes of internal/daemon/deploy.go.
use oakberryio.Prelude.{ℕ, ◌+◌, none, some, List, [], ◌∷◌, ◌++◌, map, Text, t}
use oakberryio.Prelude.Dict.{Dict, lookup, insert_all}
use oakberryio.Prelude.Results.{Result, ok, err, unknown_volume, ◌>>=◌}
use oakberryio.Appconfig
use oakberryio.Appconfig.{Config}
use oakberryio.Mmds
use oakberryio.Store.{Db, Volume}
use oakberryio.Store.Volumes.{volumes}

-- fmt's %c of 'b'+i: one byte up to the thirtieth mount.
unfoldable pub device : ℕ → Text
device i = t "/dev/vd" ++ (b'b' + i) ∷ []

unfoldable pub by_name : List Volume → Dict Volume
by_name vs = insert_all (map (λ (v : Volume). (v.name, v)) vs) []

-- The loop over the mounts, from the index `i`.
unfoldable pub match_mounts :
    Dict Volume → ℕ → List Appconfig.Mount → Result (List Text × List Mmds.Mount)
match_mounts available i [] = ok ([], [])
match_mounts available i (m ∷ ms) = elim (lookup m.volume available) [
  | none ↦ err unknown_volume
  | some v ↦ do
    rest ← match_mounts available (i + 1) ms
    ok (v.path ∷ rest.0, record { device = device i; dest = m.destination } ∷ rest.1)
]

unfoldable pub resolve_volumes : Config → Db → Result (List Text × List Mmds.Mount)
resolve_volumes cfg db = match_mounts (by_name (volumes cfg.app db)) 0 cfg.mounts
