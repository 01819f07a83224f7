-- ===== src/Host/Noted.antt =====
-- What a call of the host leaves: it is noted, whatever its answer is.
use oakberryio.Prelude.{◌≡◌, refl, ap, sym, subst, ◌⊎◌, inl, inr, none, some, Option-cases}
use oakberryio.Prelude.Results.{Error, Result, ok, err}
use oakberryio.Effects.{pure, fail, ◌>>=◌}
use oakberryio.Effects.Keeps.{Keeps, Keeps-modify, Restores}
use oakberryio.Host.{Answers, Host, Errno, Call, note, ask, must, ignore}

module _ (h : Answers) where
  -- A call whose error is looked at is noted, whatever its answer is.
  pub must-cases :
      (why : Error) (c : Call) (w : Host)
      → ((h.to w c ≡ none) × (must h why c w ≡ (ok tt, note h c w)))
        ⊎ ((e : Errno) × (h.to w c ≡ some e) × (must h why c w ≡ (err why, note h c w)))
  unfolding must ask ◌>>=◌ pure fail
  must-cases why c w = elim (Option-cases (h.to w c)) [
    | inl fine ↦ inl (fine, rw fine refl)
    | inr (e, bad) ↦ inr (e, bad, rw bad refl)
  ]

  pub Keeps-must :
      {P : Host → Type 0} (why : Error) (c : Call)
      → ((w : Host) → P w → P (note h c w))
      → Keeps P (must h why c)
  Keeps-must {P = P} why c keeps = record {
    at = λ w p. elim (must-cases why c w) [
      | inl (fine, ran) ↦ subst (λ (r : Result (Unit {0}) × Host). P r.1) (sym ran) (keeps w p)
      | inr (e, bad, ran) ↦ subst (λ (r : Result (Unit {0}) × Host). P r.1) (sym ran) (keeps w p)
    ];
  }

  pub Keeps-ignore :
      {P : Host → Type 0} (c : Call) → ((w : Host) → P w → P (note h c w)) → Keeps P (ignore h c)
  unfolding ignore
  Keeps-ignore c keeps = Keeps-modify _ keeps

  pub Restores-must :
      {P : Host → Type 0} (why : Error) (c : Call)
      → ((w : Host) (e : Errno) → h.to w c ≡ some e → P w → P (note h c w))
      → Restores P (must h why c)
  Restores-must {P = P} why c keeps = record {
    at = λ w p e x. elim (must-cases why c w) [
      | inl (fine, ran) ↦ cc (ap (λ (r : Result (Unit {0}) × Host). r.0) ran)
      | inr (n, bad, ran) ↦
          subst (λ (r : Result (Unit {0}) × Host). P r.1) (sym ran) (keeps w n bad p)
    ];
  }
