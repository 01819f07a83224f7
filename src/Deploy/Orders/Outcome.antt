-- ===== src/Deploy/Orders/Outcome.antt =====
-- What Deploy, Restart and Scale leave in the store.
use oakberryio.Prelude.{◌≡◌, Text, text_eq}
use oakberryio.Prelude.Results.{Error, ok, err}
use oakberryio.Effects.Keeps.{Keeps, Ensures, Ensures-bind}
use oakberryio.Appconfig.{Config}
use oakberryio.Store.{Release}
use oakberryio.Deploy.{Env, World}
use oakberryio.Deploy.Frame.{On}
use oakberryio.Deploy.Writes.{anything}
use oakberryio.Deploy.Boot.{boot_from_release}
use oakberryio.Deploy.Boot.Outcome.{Serves, boot_from_release-Serves}
use oakberryio.Deploy.ReleaseCommand.{await_status, check_status}
use oakberryio.Deploy.Orders.Spared.{Spared}
use oakberryio.Deploy.Orders.{deploy}

boot-Ensures :
    (env : Env) (cfg : Config) (rel : Release)
    → Ensures (On (λ _. Unit)) (boot_from_release env cfg rel) (λ id w. Serves cfg.app id w.db)
boot-Ensures env cfg rel = record {
  at = λ w h id w' e. boot_from_release-Serves env cfg rel w w' id e;
}

-- A deploy that succeeds with an id: the machine of this id runs for the app, and no other machine of
-- the app runs.
pub deploy-Serves :
    (env : Env) (cfg : Config) (image : Text) (w w' : World) (id : Text)
    → deploy env cfg image w ≡ (ok id, w')
    → Serves cfg.app id w'.db
unfolding deploy
deploy-Serves env cfg image w w' id e = deploy-Ensures.at w (record { store = tt }) id w' e
  where
    deploy-Ensures :
        Ensures (On (λ _. Unit)) (deploy env cfg image) (λ id w. Serves cfg.app id w.db)
    deploy-Ensures = Ensures-bind _ _ (anything _) (λ _. Ensures-bind _ _ (anything _) (λ _.
        Ensures-bind _ _ (anything _) (λ _. Ensures-bind _ _ (anything _) (λ _.
          Ensures-bind _ _ (anything _) (λ meta.
            Ensures-bind _ _ (anything _)
              (λ rel. Ensures-bind _ _ (anything _) (λ _. boot-Ensures env cfg rel)))))))

-- No log of a machine shows the exit status 0.
abbrev pub NeverSucceeds : Env → Type 0
NeverSucceeds env =
    (path : Text) → (e : Error) × (check_status (await_status (env.log_reads path)) ≡ err e)
