-- ===== src/Host/Bridge.antt =====
-- The bridge of a tenant's subnet: ensureBridge of internal/daemon/bridge.go, ensureBridgeLink of
-- bridge_linux.go and the names of bridge_naming.go.
pub mod Addresses
pub mod Listening
pub mod Listeners
use oakberryio.Prelude.{
  ℕ, ◌==◌, nat_eq, text_eq, any, none, some, List, [], ◌∷◌, ◌++◌, Text, t, if◌then◌else◌,
}
use oakberryio.Prelude.Results.{link_failed, dns_listen}
use oakberryio.Effects.{Exec, pure, fail, gets, modify, ◌>>=◌, ◌>>◌}
use oakberryio.Text.Decimal.{itoa}
use oakberryio.Host.{
  Answers, Host, eexist, other_errno, Call, add_bridge, find_link, list_addrs, add_addr, set_up,
  listen_udp, ask, must,
}

unfoldable pub bridge_name : ℕ → Text
bridge_name idx = t "oak" ++ itoa idx

unfoldable pub gateway_ip : ℕ → Text
gateway_ip idx = t "10.200." ++ (itoa idx ++ t ".1")

abbrev pub dns_addr : ℕ → Text
dns_addr idx = gateway_ip idx ++ t ":53"

module _ (h : Answers) where
  -- What is there already is no error.
  unfoldable pub must_or_there : Call → Exec Host (Unit {0})
  must_or_there c = ask h c >>= λ r. elim r [
    | none ↦ pure tt
    | some eexist ↦ pure tt
    | some other_errno ↦ fail link_failed
  ]

  unfoldable pub ensure_bridge_link : ℕ → Exec Host (Text × Text)
  ensure_bridge_link idx = do
    let name = bridge_name idx
    let gateway = gateway_ip idx
    must_or_there (add_bridge name)
    must h link_failed (find_link name)
    must h link_failed (list_addrs name)
    addrs ← gets (λ w. h.addrs w name)
    if any (λ a. a == gateway) addrs
        then pure tt
        else must_or_there (add_addr (gateway ++ t "/24") name)
    must h link_failed (set_up name)
    pure (name, gateway)

  -- The listener of a subnet, the first time that it is seen
  unfoldable pub listen_once : ℕ → Exec Host (Unit {0})
  listen_once idx = do
    listening ← gets (λ w. any (λ j. j == idx) w.dns_listening)
    if listening then pure tt else do
      must h dns_listen (listen_udp (dns_addr idx))
      modify (λ w. record w { dns_listening = idx ∷ w.dns_listening })

  unfoldable pub ensure_bridge : ℕ → Exec Host (Text × Text)
  ensure_bridge idx = do link ← ensure_bridge_link idx; listen_once idx; pure link
