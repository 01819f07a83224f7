-- ===== src/Host/Daemon/Closed.antt =====
-- The listeners of oakd and its database.
use oakberryio.Prelude.{
  ◌≡◌, refl, subst, inl, inr, ℕ, Bool, true, false, ◌||◌, not, Option, none, some, List, [], ◌∷◌,
  Text, t, ◌==◌, text_eq, Bool-cases, ==_iff,
}
use oakberryio.Prelude.Results.{Result, listen_failed, link_failed}
use oakberryio.Effects.{pure, lift, fail, modify, on_error, finally, ◌>>=◌, ◌>>◌}
use oakberryio.Effects.Keeps.{
  Keeps, Keeps-bind, Keeps-bracket, Keeps-pure, Keeps-gets, Keeps-if, Keeps-fail, Keeps-modify,
  Restores, Restores-bind, Ensures, Ensures-Keeps,
}
use oakberryio.Effects.Mends.{Mends-on_error, Restores-then}
use oakberryio.Host.{
  Answers, Host, Event, Errno, eexist, other_errno, Call, note, ask, ignore, open_store,
  close_store, listen_unix, listen_tcp, serve_tcp, serve_unix, close_unix, close_tcp,
}
use oakberryio.Host.Noted.{must-cases, Keeps-must, Restores-must}
use oakberryio.Host.Bridge.{must_or_there, ensure_bridge_link, listen_once, ensure_bridge}
use oakberryio.Host.Daemon.{Settings, Daemon, new, listen_on, serve_until, run}

unix_after : Call → Option Errno → Bool → Bool
unix_after (listen_unix path) none before = true
unix_after close_unix r before = false
unix_after c r before = before

tcp_after : Call → Option Errno → Bool → Bool
tcp_after (listen_tcp port) none before = true
tcp_after close_tcp r before = false
tcp_after c r before = before

store_after : Call → Option Errno → Bool → Bool
store_after (open_store path) none before = true
store_after close_store r before = false
store_after c r before = before

-- The listener was opened, and has not been closed since; so for the database.
unfoldable pub holds_unix : List Event → Bool
unfolding unix_after
holds_unix [] = false
holds_unix (e ∷ es) = unix_after e.call e.error (holds_unix es)

unfoldable pub holds_tcp : List Event → Bool
unfolding tcp_after
holds_tcp [] = false
holds_tcp (e ∷ es) = tcp_after e.call e.error (holds_tcp es)

unfoldable pub holds_store : List Event → Bool
unfolding store_after
holds_store [] = false
holds_store (e ∷ es) = store_after e.call e.error (holds_store es)

-- A call that would let someone in over TCP without this token
exposes : Text → Call → Bool
exposes token (listen_tcp port) = token == t ""
exposes token (serve_tcp given) = token == t "" || not (given == token)
exposes token c = false

unfoldable pub any_exposes : Text → List Event → Bool
unfolding exposes
any_exposes token [] = false
any_exposes token (e ∷ es) = exposes token e.call || any_exposes token es

pub record IsClosed (token : Text) (w : Host) : Type 0 where
  pub unix : holds_unix w.log ≡ false
  pub tcp : holds_tcp w.log ≡ false
  pub safe : any_exposes token w.log ≡ false

module _ (h : Answers) (dir_of : Text → Text) (token : Text) where
  -- The bridge's calls are about no listener of the API.
  Keeps-bridge : (idx : ℕ) → Keeps (IsClosed token) (ensure_bridge h idx)
  unfolding ensure_bridge ensure_bridge_link listen_once must_or_there ask note holds_unix
      unix_after holds_tcp tcp_after any_exposes exposes
  Keeps-bridge idx =
      Keeps-bind _ _
        (Keeps-bind _ _ (there _ (λ w p. record { unix = p.unix; tcp = p.tcp; safe = p.safe }))
          (λ _.
            Keeps-bind _ _
              (Keeps-must h _ _ (λ w p. record { unix = p.unix; tcp = p.tcp; safe = p.safe }))
              (λ _.
                Keeps-bind _ _
                  (Keeps-must h _ _ (λ w p. record { unix = p.unix; tcp = p.tcp; safe = p.safe }))
                  (λ _. Keeps-bind _ _ (Keeps-gets _) (λ addrs.
                    Keeps-bind _ _
                      (Keeps-if _ _ _ (Keeps-pure tt)
                        (there _ (λ w p. record { unix = p.unix; tcp = p.tcp; safe = p.safe })))
                      (λ _.
                        Keeps-bind _ _
                          (Keeps-must h _ _
                            (λ w p. record { unix = p.unix; tcp = p.tcp; safe = p.safe }))
                          (λ _. Keeps-pure _)))))))
        (λ link.
          Keeps-bind _ _
            (Keeps-bind _ _ (Keeps-gets _) (λ listening. Keeps-if listening _ _ (Keeps-pure tt) (
              Keeps-bind _ _
                (Keeps-must h _ _ (λ w p. record { unix = p.unix; tcp = p.tcp; safe = p.safe }))
                (λ _.
                  Keeps-modify _ (λ w p. record { unix = p.unix; tcp = p.tcp; safe = p.safe })))))
            (λ _. Keeps-pure link))
    where
      there :
          (c : Call)
          → ((w : Host) → IsClosed token w → IsClosed token (note h c w))
          → Keeps (IsClosed token) (must_or_there h c)
      there c keeps = Keeps-bind _ _ (record { at = keeps }) ended
        where
          ended :
              (r : Option Errno)
              → Keeps (IsClosed token) (elim r [
                | none ↦ pure tt
                | some eexist ↦ pure tt
                | some other_errno ↦ fail link_failed
              ])
          ended none = Keeps-pure tt
          ended (some eexist) = Keeps-pure tt
          ended (some other_errno) = Keeps-fail link_failed

  Restores-listen_on : (path : Text) → Restores (IsClosed token) (listen_on h dir_of path)
  unfolding listen_on note holds_unix unix_after holds_tcp tcp_after any_exposes exposes
  Restores-listen_on path =
      Restores-bind _ _
        (Keeps-must h _ _ (λ w p. record { unix = p.unix; tcp = p.tcp; safe = p.safe }))
        (λ _.
          Restores-bind _ _
            (Keeps-must h _ _ (λ w p. record { unix = p.unix; tcp = p.tcp; safe = p.safe }))
            (λ _.
              Restores-must h _ _
                (λ w e bad p. record { unix = rw bad p.unix; tcp = p.tcp; safe = p.safe })))

  -- What is left to hold once the Unix socket is open.
  record TcpClosed (w : Host) : Type 0 where
    pub tcp : holds_tcp w.log ≡ false
    pub safe : any_exposes token w.log ≡ false

  Keeps-listen_on : (path : Text) → Keeps TcpClosed (listen_on h dir_of path)
  unfolding listen_on note holds_tcp tcp_after any_exposes exposes
  Keeps-listen_on path =
      Keeps-bind _ _ (Keeps-must h _ _ (λ w p. record { tcp = p.tcp; safe = p.safe })) (λ _.
        Keeps-bind _ _ (Keeps-must h _ _ (λ w p. record { tcp = p.tcp; safe = p.safe }))
          (λ _. Keeps-must h _ _ (λ w p. record { tcp = p.tcp; safe = p.safe })))

  -- The first part of Run leaves the TCP listener alone.
  opened : (path : Text) → Ensures (IsClosed token) (listen_on h dir_of path) (λ _ w. TcpClosed w)
  opened path = record {
    at = λ w p a v e.
        (Ensures-Keeps _ (Keeps-listen_on path)).at w (record { tcp = p.tcp; safe = p.safe }) a v e;
  }

  serve_until-IsClosed :
      (d : Daemon) (ended : Result (Unit {0})) (w : Host)
      → d.settings.api_token ≡ token
      → TcpClosed w
      → IsClosed token (serve_until h dir_of d ended w).1
  unfolding serve_until finally lift on_error ignore modify ◌>>=◌ note holds_unix unix_after
      holds_tcp tcp_after any_exposes exposes
  serve_until-IsClosed d ended w same p = elim (Bool-cases (d.settings.api_token == t "")) [
    | inl none_set ↦ rw none_set (record { unix = refl; tcp = p.tcp; safe = p.safe })
    | inr token_set ↦
        let unset : (token == t "") ≡ false =
          subst (λ (s : Text). (s == t "") ≡ false) same token_set in
        let mine : (d.settings.api_token == token) ≡ true =
          (==_iff d.settings.api_token token).1 same in
        elim (must-cases h listen_failed (listen_tcp d.settings.api_port) w) [
          | inl (fine, ran) ↦
              rw (token_set, ran)
                (record { unix = refl; tcp = refl; safe = rw (unset, mine) p.safe })
          | inr (e, bad, ran) ↦
              rw (token_set, ran)
                (record { unix = refl; tcp = rw bad p.tcp; safe = rw unset p.safe })
        ]
  ]

  Keeps-run :
      (d : Daemon) (ended : Result (Unit {0}))
      → d.settings.api_token ≡ token
      → Keeps (IsClosed token) (run h dir_of d ended)
  unfolding run ignore modify ◌>>=◌ note holds_tcp tcp_after any_exposes exposes
  Keeps-run d ended same = Keeps-bind _ _ (Keeps-bridge 0) (λ link.
      Keeps-bracket _ _ (Restores-listen_on d.settings.socket) (opened d.settings.socket)
        (λ u w p. served w p))
    where
      served :
          (w : Host)
          → TcpClosed w
          → IsClosed token ((ignore h serve_unix >> serve_until h dir_of d ended) w).1
      served w p =
          serve_until-IsClosed d ended (note h serve_unix w) same
            (record { tcp = p.tcp; safe = p.safe })

-- However Run ends, be it by its context, by a server's error or by a call that fails on the way: both
-- listeners of the API are closed again, and nothing was served over TCP but behind the API's token, if
-- there is one.
pub run-IsClosed :
    (h : Answers) (dir_of : Text → Text) (d : Daemon) (ended : Result (Unit {0})) (w : Host)
    → IsClosed d.settings.api_token w
    → IsClosed d.settings.api_token (run h dir_of d ended w).1
run-IsClosed h dir_of d ended w p = (Keeps-run h dir_of d.settings.api_token d ended refl).at w p

-- New that fails has closed the database, where it was opened.
new-closed :
    (h : Answers) (dir_of : Text → Text) (given : Settings)
    → Restores (λ w. holds_store w.log ≡ false) (new h dir_of given)
unfolding new note holds_store store_after
new-closed h dir_of given =
    Restores-then _ _ (Restores-must h _ _ (λ w e bad p. rw bad p))
      (λ _. Mends-on_error _ _ (λ w. refl))
