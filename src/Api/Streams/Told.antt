-- ===== src/Api/Streams/Told.antt =====
-- The two ends of a deploy, a restart and a scale: the stream of internal/daemon/api.go, as
-- internal/cli/client.go follows it.
use oakberryio.Prelude.{◌≡◌, refl, ℕ, false, List, [], ◌∷◌, ◌++◌, map, Text, t, length, All, nat_eq}
use oakberryio.Prelude.Int.{ℤ}
use oakberryio.Prelude.Results.{Error, Result, ok, err, remote_failed}
use oakberryio.Effects.{Exec}
use oakberryio.Effects.Keeps.{Keeps}
use oakberryio.Appconfig.{Config}
use oakberryio.Cli.Lines.{drop_cr, unlines, IsLine, scan-unlines}
use oakberryio.Cli.Stream.{last_line, follow, follow-error_text, stream_outcome-calm}
use oakberryio.Deploy.GuestEnv.{has_prefix}
use oakberryio.Deploy.{World}
use oakberryio.Deploy.State.{record_effect}
use oakberryio.Deploy.Orders.{restart, scale}
use oakberryio.Api.{Server, respond}
use oakberryio.Api.Streams.{emitted_text, tell, before_request, stream, deploy_for}
use oakberryio.Api.Streams.Quiet.{IsQuiet, IsTidy}
use oakberryio.Api.Streams.Lines.{warning}
use oakberryio.Api.Streams.Parts.{Int64Clock}
use oakberryio.Api.Streams.Orders.{Keeps-deploy_for, Keeps-restart, Keeps-scale}

-- What the command should report of an order: its success, or that it failed on the server.
abbrev pub told : Result Text → Result (Unit {0})
told (ok id) = ok tt
told (err e) = err remote_failed

-- The message of this error is one line.
pub record OneLine (s : Server) (e : Error) (w : World) : Type 0 where
  pub single : (s.words e w).1 ≡ []
  pub fits : IsLine (t "error: " ++ (s.words e w).0)

quiet_lines : (lines : List Text) → All IsQuiet lines → All IsLine lines
quiet_lines [] q = tt
quiet_lines (l ∷ ls) q = (q.0.line, quiet_lines ls q.1)

last-calm :
    (lines : List Text)
    → All IsQuiet lines
    → has_prefix (t "error:") (last_line (map drop_cr lines)) ≡ false
unfolding last_line has_prefix nat_eq
last-calm [] q = refl
last-calm (l ∷ []) q = q.0.calm
last-calm (l ∷ m ∷ ls) q = last-calm (m ∷ ls) q.1

-- Quiet lines alone report a success.
follow-quiet :
    (lines : List Text)
    → All IsQuiet lines
    → (follow (record { bytes = unlines lines; broken = false })).outcome ≡ ok tt
unfolding follow
follow-quiet lines q =
    rw (scan-unlines false lines (quiet_lines lines q)) (stream_outcome-calm _ (last-calm lines q))

module _ (s : Server) where
  told-tell :
      (r : Result Text) (w : World)
      → IsTidy w
      → ((e : Error) → r ≡ err e → OneLine s e w)
      → (follow (record { bytes = emitted_text (tell s r w).trace; broken = false })).outcome
        ≡ told r
  unfolding tell record_effect emitted_text
  told-tell (ok id) w k h = rw k.said (follow-quiet k.lines k.quiet)
  told-tell (err e) w k h =
      let one = h e refl in
      rw (k.said, one.single)
        (follow-error_text k.lines (quiet_lines k.lines k.quiet) (s.words e w).0 one.fits)

  stream-told :
      (order : Exec World Text) (w : World)
      → Keeps IsTidy order
      → All (λ (bytes : List ℕ). length bytes ≡ 6) w.random
      → ((e : Error)
          → (order (before_request w)).0 ≡ err e
          → OneLine s e (order (before_request w)).1)
      → (follow (stream s order w).0.body).outcome ≡ told (order (before_request w)).0
  unfolding stream respond before_request unlines emitted_text
  stream-told order w ko ids h =
      told-tell (order (before_request w)).0 (order (before_request w)).1
        (ko.at (before_request w) (record { lines = []; said = refl; quiet = tt; ids = ids })) h

-- The orders whose response is a stream.
pub data Order : Type 0 where
  deploying : (name owner : Text) → Config → (image : Text) → Order
  restarting : (name : Text) → Order
  scaling : (name : Text) → (memory_mb cpus : ℤ) → Order

abbrev pub perform : Server → Order → Exec World Text
perform s (deploying name owner cfg image) = deploy_for s name owner cfg image
perform s (restarting name) = restart s.deployer name
perform s (scaling name memory_mb cpus) = scale s.deployer name memory_mb cpus

Keeps-perform :
    (s : Server) (order : Order)
    → Int64Clock s.deployer
    → IsLine (warning s.deployer.restart_error)
    → Keeps IsTidy (perform s order)
Keeps-perform s (deploying name owner cfg image) clock words =
    Keeps-deploy_for s name owner cfg image clock words
Keeps-perform s (restarting name) clock words = Keeps-restart s.deployer clock words name
Keeps-perform s (scaling name memory_mb cpus) clock words =
    Keeps-scale s.deployer clock words name memory_mb cpus

-- The command of a deploy, a restart or a scale reports what the order came to on the server: success
-- where the order succeeded, and a failure on the server where it failed. The message of that error
-- is one line, as are the words of a failed restart of cloudflared; crypto/rand gives six bytes at
-- each call, and the clock's readings fit an int64.
pub follow-stream :
    (s : Server) (order : Order) (w : World)
    → All (λ (bytes : List ℕ). length bytes ≡ 6) w.random
    → Int64Clock s.deployer
    → IsLine (warning s.deployer.restart_error)
    → ((e : Error)
        → (perform s order (before_request w)).0 ≡ err e
        → OneLine s e (perform s order (before_request w)).1)
    → (follow (stream s (perform s order) w).0.body).outcome
      ≡ told (perform s order (before_request w)).0
follow-stream s order w ids clock words one =
    stream-told s (perform s order) w (Keeps-perform s order clock words) ids one
