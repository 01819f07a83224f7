-- ===== src/Deploy/Health.antt =====
-- awaitHealthy of internal/daemon/deploy.go.
pub mod Rounds
use oakberryio.Prelude.{
  ℕ, zero, suc, ◌+◌, ◌-◌, ◌*◌, ◌/◌, ◌^◌, List, [], ◌∷◌, ◌++◌, Text, t, ltb, ◌==◌, nat_eq,
  if◌then◌else◌,
}
use oakberryio.Prelude.Results.{health_timeout, context_done}
use oakberryio.Effects.{Exec, pure, fail, modify, ◌>>◌}
use oakberryio.Text.Decimal.{itoa}
use oakberryio.Appconfig.{Service}
use oakberryio.Deploy.{Env, World, Poll, healthy}
use oakberryio.Deploy.State.{emit, record_effect}

abbrev pub second : ℕ
second = 10 ^ 9

abbrev pub heartbeat : ℕ
heartbeat = 10 * second

unfoldable pub beat_line : ℕ → Text
beat_line secs = t "still waiting for health check (" ++ (itoa secs ++ (t "s)..." ++ b'\n' ∷ []))

module _ (started deadline : ℕ) (poll : ℕ → Poll) where
  -- The rounds from the `i`th on; the first argument is fuel.
  unfoldable pub poll_rounds : ℕ → ℕ → ℕ → Exec World (Unit {0})
  poll_rounds zero i next_beat = fail health_timeout
  poll_rounds (suc fuel) i next_beat =
      let p = poll i in
      let beat_and_go = do
        emit (beat_line ((p.beat_at - started) / second))
        if p.context_done
            then fail context_done
            else poll_rounds fuel (i + 1) (p.beat_at + heartbeat)
      in let go =
          if p.context_done then fail context_done else poll_rounds fuel (i + 1) next_beat in
        if p.healthy
        then pure tt
        else if ltb deadline p.checked_at
        then fail health_timeout
        else if ltb next_beat p.beat_at
        then beat_and_go
        else go

module _ (env : Env) where
  unfoldable pub timeout : ℕ
  timeout = if env.health_timeout == 0 then 60 * second else env.health_timeout

  unfoldable pub interval : ℕ
  interval = if env.health_interval == 0 then second else env.health_interval

  -- The first service is polled; an app with none is healthy. The fuel is enough where each pause
  -- lasts the interval.
  unfoldable pub await_healthy : List Service → Text → Exec World (Unit {0})
  await_healthy [] ip = pure tt
  await_healthy (s ∷ ss) ip = do
    let started = env.health_started
    poll_rounds started (started + timeout) (env.poll ip s.internal_port s.check.path)
        (timeout / interval + 2) 0 (started + heartbeat)
    modify (record_effect (healthy ip))
