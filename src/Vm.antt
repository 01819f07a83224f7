-- ===== src/Vm.antt =====
-- internal/vm/config.go: what is needed to boot one microVM, and its MAC address.
pub mod Mac
use oakberryio.Prelude.{
  ℕ, ◌+◌, ◌-◌, ◌/◌, ◌%◌, Option, none, some, List, [], ◌∷◌, ◌++◌, Text, t, ltb, if◌then◌else◌,
}
use oakberryio.Prelude.Int.{ℤ}
use oakberryio.Prelude.Results.{Result, ok, err, bad_ip}
use oakberryio.Net.Ip.{Octets, parse_ip4}

pub record Spec : Type 0 where
  pub id : Text
  pub kernel : Text
  pub rootfs : Text
  pub volumes : List Text
  pub tap : Text
  pub bridge : Text
  pub mac : Text
  pub ip : Text
  pub gateway : Text
  pub memory_mb : ℤ
  pub cpus : ℤ
  pub log_path : Text
  pub socket_dir : Text
  pub vsock_uds : Text
  pub guest_cid : ℕ

unfoldable pub hex_digit : ℕ → ℕ
hex_digit n = if ltb n 10 then 48 + n else 87 + n

-- %02x of a byte
unfoldable pub hex2 : ℕ → Text
hex2 n = hex_digit (n / 16) ∷ hex_digit (n % 16) ∷ []

unfoldable pub mac_of : Octets → Text
mac_of o = t "06:00:" ++ (hex2 o.a ++ b':' ∷ (hex2 o.b ++ b':' ∷ (hex2 o.c ++ b':' ∷ hex2 o.d)))

-- MACFromIP
unfoldable pub mac_from_ip : Text → Result Text
mac_from_ip ip = elim (parse_ip4 ip) [ none ↦ err bad_ip | some o ↦ ok (mac_of o) ]
