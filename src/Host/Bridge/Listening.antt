-- ===== src/Host/Bridge/Listening.antt =====
-- Which subnets have a DNS listener, and what the calls of ensureBridge keep of that.
use oakberryio.Prelude.{
  ◌≡◌, ◌∙◌, ap, subst, inl, inr, ℕ, suc, Bool, true, false, ◌||◌, Option, none, some, List, [], ◌∷◌,
  Text, ◌==◌, nat_eq, text_eq, ==_iff, if◌then◌else◌, any, Bool-cases,
}
use oakberryio.Prelude.Results.{dns_listen, link_failed}
use oakberryio.Effects.{pure, fail, gets, modify, ◌>>=◌}
use oakberryio.Effects.Keeps.{Keeps, Keeps-bind, Keeps-pure, Keeps-gets, Keeps-if, Keeps-fail}
use oakberryio.Host.{Answers, Host, Event, Errno, eexist, other_errno, Call, listen_udp, note, ask}
use oakberryio.Host.Noted.{must-cases, Keeps-must}
use oakberryio.Host.Bridge.Addresses.{same_addr}
use oakberryio.Host.Bridge.{must_or_there, ensure_bridge_link, dns_addr, listen_once, ensure_bridge}

-- How often a listener was started on this address.
listened : Text → Call → Option Errno → ℕ → ℕ
listened addr (listen_udp a) none before = if a == addr then suc before else before
listened addr c r before = before

unfoldable pub listeners : Text → List Event → ℕ
unfolding listened
listeners addr [] = 0
listeners addr (e ∷ es) = listened addr e.call e.error (listeners addr es)

unfoldable pub count : Bool → ℕ
count true = 1
count false = 0

-- Each subnet that is noted has a listener, and no other has one; and what holds of the noted ones.
pub record Listening (Q : List ℕ → Type 0) (w : Host) : Type 0 where
  pub each : (j : ℕ) → listeners (dns_addr j) w.log ≡ count (any (λ i. i == j) w.dns_listening)
  pub noted : Q w.dns_listening

-- The calls for these subnets, one after another
unfoldable pub ensure_all : Answers → List ℕ → Host → Host
ensure_all h [] w = w
ensure_all h (i ∷ is) w = ensure_all h is (ensure_bridge h i w).1

-- oakd before its first call
abbrev pub started_host : Host
started_host = record { log = []; dns_listening = [] }

module _ (h : Answers) (Q : List ℕ → Type 0) (grows : (i : ℕ) (l : List ℕ) → Q l → Q (i ∷ l)) where
  pub Keeps-ensure_bridge_link : (idx : ℕ) → Keeps (Listening Q) (ensure_bridge_link h idx)
  unfolding ensure_bridge_link must_or_there note ask listeners listened
  Keeps-ensure_bridge_link idx =
      Keeps-bind _ _ (there _ (λ w p. record { each = p.each; noted = p.noted })) (λ _.
        Keeps-bind _ _ (Keeps-must h _ _ (λ w p. record { each = p.each; noted = p.noted })) (λ _.
          Keeps-bind _ _ (Keeps-must h _ _ (λ w p. record { each = p.each; noted = p.noted })) (λ _.
            Keeps-bind _ _ (Keeps-gets _) (λ addrs.
              Keeps-bind _ _
                (Keeps-if _ _ _ (Keeps-pure tt)
                  (there _ (λ w p. record { each = p.each; noted = p.noted })))
                (λ _.
                  Keeps-bind _ _
                    (Keeps-must h _ _ (λ w p. record { each = p.each; noted = p.noted }))
                    (λ _. Keeps-pure _))))))
    where
      there :
          (c : Call)
          → ((w : Host) → Listening Q w → Listening Q (note h c w))
          → Keeps (Listening Q) (must_or_there h c)
      there c keeps = Keeps-bind _ _ (record { at = keeps }) ended
        where
          ended :
              (r : Option Errno)
              → Keeps (Listening Q) (elim r [
                | none ↦ pure tt
                | some eexist ↦ pure tt
                | some other_errno ↦ fail link_failed
              ])
          ended none = Keeps-pure tt
          ended (some eexist) = Keeps-pure tt
          ended (some other_errno) = Keeps-fail link_failed

  -- A listener that is refused is not one.
  refused-Listening :
      (idx : ℕ) (w : Host) (e : Errno)
      → h.to w (listen_udp (dns_addr idx)) ≡ some e
      → Listening Q w
      → Listening Q (note h (listen_udp (dns_addr idx)) w)
  unfolding note listeners listened
  refused-Listening idx w e bad p = record { each = λ j. rw bad (p.each j); noted = p.noted }

  -- A new one is noted.
  started-Listening :
      (idx : ℕ) (w : Host)
      → h.to w (listen_udp (dns_addr idx)) ≡ none
      → any (λ j. j == idx) w.dns_listening ≡ false
      → Listening Q w
      → Listening Q
          (record (note h (listen_udp (dns_addr idx)) w) { dns_listening = idx ∷ w.dns_listening })
  unfolding note listeners listened count any
  started-Listening idx w fine new p = record {
    each = λ j. rw fine (at j);
    noted = grows idx _ p.noted;
  }
    where
      at :
          (j : ℕ)
          → (if dns_addr idx == dns_addr j
              then suc (listeners (dns_addr j) w.log)
              else listeners (dns_addr j) w.log)
            ≡ count (idx == j || any (λ i. i == j) w.dns_listening)
      at j = elim (Bool-cases (idx == j)) [
        | inl same ↦
            let unseen : any (λ i. i == j) w.dns_listening ≡ false =
              subst (λ k. any (λ i. i == k) w.dns_listening ≡ false) ((==_iff idx j).0 same) new in
            rw (same_addr idx j, same) (ap suc (p.each j ∙ ap count unseen))
        | inr other ↦ rw (same_addr idx j, other) (p.each j)
      ]

  pub Keeps-listen_once : (idx : ℕ) → Keeps (Listening Q) (listen_once h idx)
  unfolding listen_once gets ◌>>=◌ modify pure note
  Keeps-listen_once idx = record {
    at = λ w p. elim (Bool-cases (any (λ j. j == idx) w.dns_listening)) [
      | inl seen ↦ rw seen p
      | inr new ↦ elim (must-cases h dns_listen (listen_udp (dns_addr idx)) w) [
        | inl (fine, ran) ↦ rw (new, ran) (started-Listening idx w fine new p)
        | inr (e, bad, ran) ↦ rw (new, ran) (refused-Listening idx w e bad p)
      ]
    ];
  }

  Keeps-ensure_bridge : (idx : ℕ) → Keeps (Listening Q) (ensure_bridge h idx)
  unfolding ensure_bridge
  Keeps-ensure_bridge idx =
      Keeps-bind _ _ (Keeps-ensure_bridge_link idx)
        (λ link. Keeps-bind _ _ (Keeps-listen_once idx) (λ _. Keeps-pure link))

  pub ensure_all-Listening :
      (idxs : List ℕ) (w : Host) → Listening Q w → Listening Q (ensure_all h idxs w)
  unfolding ensure_all
  ensure_all-Listening [] w p = p
  ensure_all-Listening (i ∷ is) w p = ensure_all-Listening is _ ((Keeps-ensure_bridge i).at w p)
