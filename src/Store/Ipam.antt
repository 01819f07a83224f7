-- ===== src/Store/Ipam.antt =====
-- The address allocation of store.go.
pub mod Laws
use oakberryio.Prelude.{
  ℕ, zero, suc, ◌+◌, ◌*◌, ◌/◌, Bool, true, false, ◌||◌, List, [], ◌∷◌, ◌++◌, Text, t, ◌==◌, nat_eq,
  if◌then◌else◌,
}
use oakberryio.Prelude.Results.{Result, ok, err, no_free_ip, ◌>>=◌}
use oakberryio.Text.Decimal.{itoa}
use oakberryio.Net.Ip.{ip_to_uint32, uint32_to_ip}
use oakberryio.Store.{Db, Machine}

-- .254 is the top of a /24's host range; .1 is the gateway.
abbrev pub ipam_max_host : ℕ
ipam_max_host = 254

unfoldable pub subnet_base : ℕ → Text
subnet_base idx = t "10.200." ++ (itoa idx ++ t ".0")

-- The addresses of the machines in the /24 of `base`; `addr & 0xFFFFFF00` clears the last byte.
unfoldable pub used_addrs : ℕ → List Machine → Result (List ℕ)
used_addrs base [] = ok []
used_addrs base (m ∷ ms) = do
  addr ← ip_to_uint32 m.ip
  rest ← used_addrs base ms
  ok (if addr / 256 * 256 == base then addr ∷ rest else rest)

unfoldable pub is_used : ℕ → List ℕ → Bool
is_used addr [] = false
is_used addr (u ∷ us) = u == addr || is_used addr us

-- for host := 2; host <= ipamMaxHost; host++, with the rounds that are left
unfoldable pub first_free : ℕ → ℕ → ℕ → List ℕ → Result Text
first_free zero host base used = err no_free_ip
first_free (suc rounds) host base used =
    let rest = first_free rounds (host + 1) base used in
    if is_used (base + host) used then rest else ok (uint32_to_ip (base + host))

-- The 253 hosts .2 to .254 are tried in order.
unfoldable pub alloc_ip : ℕ → Db → Result Text
alloc_ip idx db = do
  base ← ip_to_uint32 (subnet_base idx)
  used ← used_addrs base db.machines
  first_free 253 2 base used
