-- ===== src/Host/Bridge/Listeners.antt =====
-- The DNS listeners of the bridges: one for each subnet.
use oakberryio.Prelude.{
  ◌≡◌, ◌∙◌, refl, ap, sym, subst, arith, inl, inr, ℕ, true, List, ◌∷◌, Text, ◌==◌, nat_eq, text_eq,
  ==_refl, any, Bool-cases,
}
use oakberryio.Prelude.Results.{ok, err, dns_listen}
use oakberryio.Effects.{Exec, pure, gets, modify, ◌>>=◌}
use oakberryio.Effects.Keeps.{Ensures, Ensures-bind, Ensures-pure, Ensures-Keeps}
use oakberryio.Host.{Answers, Host, listen_udp, note}
use oakberryio.Host.Noted.{must-cases}
use oakberryio.Host.Bridge.{
  bridge_name, gateway_ip, ensure_bridge_link, dns_addr, listen_once, ensure_bridge,
}
use oakberryio.Host.Bridge.Listening.{
  listeners, count, Listening, ensure_all, started_host, Keeps-ensure_bridge_link,
  Keeps-listen_once, ensure_all-Listening,
}

module _ (h : Answers) where
  Seen : ℕ → List ℕ → Type 0
  Seen idx l = any (λ j. j == idx) l ≡ true

  Seen-later : (idx i : ℕ) (l : List ℕ) → Seen idx l → Seen idx (i ∷ l)
  unfolding Seen any
  Seen-later idx i l e = ground (arith, e)

  listen_once-Seen :
      (idx : ℕ) → Ensures (λ _. Unit {0}) (listen_once h idx) (λ _ w. Seen idx w.dns_listening)
  unfolding Seen listen_once gets ◌>>=◌ modify pure any
  listen_once-Seen idx = record {
    at = λ w u a w' e. elim (Bool-cases (any (λ j. j == idx) w.dns_listening)) [
      | inl seen ↦
          let same : listen_once h idx w ≡ (ok tt, w) = rw seen refl in
          subst (λ (v : Host). Seen idx v.dns_listening) (ap (λ p. p.1) (sym same ∙ e)) seen
      | inr new ↦ elim (must-cases h dns_listen (listen_udp (dns_addr idx)) w) [
        | inl (fine, ran) ↦
            let v = note h (listen_udp (dns_addr idx)) w in
            let same : listen_once h idx w
                ≡ (ok tt, record v { dns_listening = idx ∷ v.dns_listening }) =
              rw (new, ran) refl in
            subst (λ (v : Host). Seen idx v.dns_listening) (ap (λ p. p.1) (sym same ∙ e))
              (rw (==_refl idx) refl)
        | inr (n, bad, ran) ↦
            let same : listen_once h idx w
                ≡ (err dns_listen, note h (listen_udp (dns_addr idx)) w) =
              rw (new, ran) refl in
            cc (ap (λ p. p.0) (sym same ∙ e))
      ]
    ];
  }

  link-named :
      (idx : ℕ)
      → Ensures
          (λ _. Unit {0})
          (ensure_bridge_link h idx)
          (λ link _. link ≡ (bridge_name idx, gateway_ip idx))
  unfolding ensure_bridge_link
  link-named idx = Ensures-bind _ _ (any_end _) (λ _. Ensures-bind _ _ (any_end _) (λ _.
      Ensures-bind _ _ (any_end _) (λ _. Ensures-bind _ _ (any_end _) (λ addrs.
        Ensures-bind _ _ (any_end _)
          (λ _. Ensures-bind _ _ (any_end _) (λ _. Ensures-pure _ (λ w u. refl)))))))
    where
      any_end : {A : Type 0} {P : Host → Type 0} (m : Exec Host A) → Ensures P m (λ _ _. Unit {0})
      any_end m = record { at = λ w p a w' e. tt }

  Anything : List ℕ → Type 0
  Anything l = Unit {0}

  ensure_bridge-Seen :
      (idx : ℕ)
      → Ensures
          (Listening Anything)
          (ensure_bridge h idx)
          (λ link w. (link ≡ (bridge_name idx, gateway_ip idx)) × Listening (Seen idx) w)
  unfolding ensure_bridge Anything
  ensure_bridge-Seen idx =
      Ensures-bind {R = λ link w. (link ≡ (bridge_name idx, gateway_ip idx)) × Listening Anything w}
        _ _
        (record {
          at = λ w p link v e. (
            (link-named idx).at w tt link v e,
            (Ensures-Keeps _ (Keeps-ensure_bridge_link h Anything (λ i l u. u) idx)).at w p link v
                e,
          );
        })
        (λ link.
          Ensures-bind
            {R = λ _ w. (link ≡ (bridge_name idx, gateway_ip idx)) × Listening (Seen idx) w} _ _
            (record {
              at = λ w p u v e. (
                p.0,
                record {
                  each =
                      ((Ensures-Keeps _ (Keeps-listen_once h Anything (λ i l u. u) idx)).at w p.1 u
                        v e).each;
                  noted = (listen_once-Seen idx).at w tt u v e;
                },
              );
            })
            (λ _. Ensures-pure link (λ w p. p)))

  -- Whichever calls of ensureBridge come before and after, for whichever subnets, and whichever calls of
  -- the host fail: once it has succeeded for a subnet, it has given the subnet's own bridge and gateway,
  -- and exactly one DNS listener was started on that gateway.
  pub ensure_bridge-listeners :
      (before after : List ℕ) (idx : ℕ) (link : Text × Text) (w : Host)
      → ensure_bridge h idx (ensure_all h before started_host) ≡ (ok link, w)
      → (link ≡ (bridge_name idx, gateway_ip idx))
        × (listeners (dns_addr idx) (ensure_all h after w).log ≡ 1)
  unfolding listeners any count Seen Anything
  ensure_bridge-listeners before after idx link w e =
      let start =
        ensure_all-Listening h Anything (λ i l u. u) before started_host
          (record { each = λ j. refl; noted = tt }) in
      let (named, serving) = (ensure_bridge-Seen idx).at _ start link w e in
      let later = ensure_all-Listening h (Seen idx) (Seen-later idx) after w serving in
      (named, later.each idx ∙ ap count later.noted)
