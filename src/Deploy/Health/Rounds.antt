-- ===== src/Deploy/Health/Rounds.antt =====
-- How often the loop of awaitHealthy in internal/daemon/deploy.go runs.
use oakberryio.Prelude.{
  ◌≡◌, refl, ℕ, zero, suc, ◌+◌, ◌*◌, ◌/◌, ◌≤◌, ◌<◌, true, arith, ltb, Bool-cases, ltb→lt, inl, inr,
}
use native.Mathlib.Nat.{le-div_iff_mul-le}
use oakberryio.Deploy.{Poll}
use oakberryio.Deploy.Health.{poll_rounds, heartbeat}

module _ (started deadline : ℕ) (poll : ℕ → Poll) (n : ℕ)
    (late : (i : ℕ) → n ≤ i → ltb deadline (poll i).checked_at ≡ true) where
  -- From the round on whose check ends late, the fuel does not matter.
  enough :
      (f g i next_beat : ℕ)
      → n < f + i
      → n < g + i
      → 0 < f
      → 0 < g
      → poll_rounds started deadline poll f i next_beat
        ≡ poll_rounds started deadline poll g i next_beat
  unfolding poll_rounds
  enough zero g i next_beat a b c d = elim c [ ]
  enough (suc f) zero i next_beat a b c d = elim d [ ]
  enough (suc f) (suc g) i next_beat a b c d = elim (Bool-cases (ltb i n)) [
    | inr over ↦ rw (late i (ground arith)) refl
    | inl early ↦
        let again : (nb : ℕ)
            → poll_rounds started deadline poll f (i + 1) nb
              ≡ poll_rounds started deadline poll g (i + 1) nb =
          λ nb. enough f g (i + 1) nb (ground arith) (ground arith) (ground arith) (ground arith) in
        rw (again next_beat, again ((poll i).beat_at + heartbeat)) refl
  ]

-- Division rounds down.
past : (t k i : ℕ) → 0 < k → t / k + 1 ≤ i → t < i * k
past t k i pos h = elim (Bool-cases (ltb t (i * k))) [
  | inl below ↦ ltb→lt t (i * k) below
  | inr above ↦
      let few : i ≤ t / k = (le-div_iff_mul-le pos).1 (ground arith) in
      elim (Bool-cases (ltb t (i * k))) [ inl below ↦ ltb→lt t (i * k) below | inr _ ↦ omega arith ]
]

-- Where the check of round i ends no earlier than i intervals after the start, as the pauses make it,
-- awaitHealthy's loop is over within timeout / interval + 2 rounds: to be allowed more of them changes
-- nothing, whatever the checks say.
pub poll_rounds-fuel :
    (started timeout interval : ℕ) (poll : ℕ → Poll)
    → 0 < interval
    → ((i : ℕ) → started + i * interval ≤ (poll i).checked_at)
    → (more next_beat : ℕ)
    → poll_rounds started (started + timeout) poll (timeout / interval + 2 + more) 0 next_beat
      ≡ poll_rounds started (started + timeout) poll (timeout / interval + 2) 0 next_beat
poll_rounds-fuel started timeout interval poll pos paced more next_beat =
    enough started (started + timeout) poll (timeout / interval + 1) late
      (timeout / interval + 2 + more) (timeout / interval + 2) 0 next_beat (omega arith)
      (omega arith) (omega arith) (omega arith)
  where
    late : (i : ℕ) → timeout / interval + 1 ≤ i → ltb (started + timeout) (poll i).checked_at ≡ true
    late i h = let over = past timeout interval i pos h in let p = paced i in ground arith
