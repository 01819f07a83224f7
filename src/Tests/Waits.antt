-- ===== src/Tests/Waits.antt =====
-- A run of the health loop on a machine that never answers.
use oakberryio.Prelude.{◌≡◌, ℕ, ◌*◌, false, arith}
use oakberryio.Deploy.{Poll}
use oakberryio.Deploy.Health.{poll_rounds}
use oakberryio.Deploy.Health.Rounds.{poll_rounds-fuel}

-- Round i is checked at second 2 * i.
abbrev unhealthy : ℕ → Poll
unhealthy i = record { healthy = false; checked_at = i * 2; beat_at = i * 2; context_done = false }

poll_rounds-fuel_example : poll_rounds 0 9 unhealthy 11 0 10 ≡ poll_rounds 0 9 unhealthy 6 0 10
poll_rounds-fuel_example = poll_rounds-fuel 0 9 2 unhealthy (omega arith) (λ i. omega arith) 5 10
