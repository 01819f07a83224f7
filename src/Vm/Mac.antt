-- ===== src/Vm/Mac.antt =====
-- The MAC addresses of MACFromIP of internal/vm/config.go.
use oakberryio.Prelude.{ℕ, ◌/◌, ◌%◌, ◌<◌, ◌^◌, ◌≡◌, ap, Text, arith}
use oakberryio.Prelude.Results.{ok}
use oakberryio.Net.Ip.{Octets, put_big_endian, big_endian, uint32_to_ip}
use oakberryio.Net.Ip.RoundTrip.{
  IsBytes, parse_ip4-print_ip4, put_big_endian-IsBytes, big_endian-put_big_endian,
}
use oakberryio.Vm.{hex_digit, hex2, mac_of, mac_from_ip}

hex_digit_injective : (m n : ℕ) → m < 16 → n < 16 → hex_digit m ≡ hex_digit n → m ≡ n
unfolding hex_digit
hex_digit_injective m n h k e = ground arith

byte_of_digits :
    (m n : ℕ)
    → m < 256
    → n < 256
    → hex_digit (m / 16) ≡ hex_digit (n / 16)
    → hex_digit (m % 16) ≡ hex_digit (n % 16)
    → m ≡ n
byte_of_digits m n h k e f = omega (
  arith,
  hex_digit_injective (m / 16) (n / 16) (omega arith) (omega arith) e,
  hex_digit_injective (m % 16) (n % 16) (omega arith) (omega arith) f,
)

-- Two addresses with one MAC address are the same address.
mac_of_injective : (o p : Octets) → IsBytes o → IsBytes p → mac_of o ≡ mac_of p → o ≡ p
unfolding mac_of hex2
mac_of_injective o p h k e = ground (
  arith,
  byte_of_digits o.a p.a h.a_byte k.a_byte,
  byte_of_digits o.b p.b h.b_byte k.b_byte,
  byte_of_digits o.c p.c h.c_byte k.c_byte,
  byte_of_digits o.d p.d h.d_byte k.d_byte,
)

-- On every 32-bit address, MACFromIP of the printed address succeeds.
mac_from_ip-uint32_to_ip : (v : ℕ) → mac_from_ip (uint32_to_ip v) ≡ ok (mac_of (put_big_endian v))
unfolding mac_from_ip uint32_to_ip
mac_from_ip-uint32_to_ip v =
    rw (parse_ip4-print_ip4 (put_big_endian v) (put_big_endian-IsBytes v), mac_from_ip)

-- Two 32-bit addresses whose texts MACFromIP maps to one MAC address are the same address.
pub mac_from_ip_injective :
    (v w : ℕ) {mac : Text}
    → v < 2 ^ 32
    → w < 2 ^ 32
    → mac_from_ip (uint32_to_ip v) ≡ ok mac
    → mac_from_ip (uint32_to_ip w) ≡ ok mac
    → v ≡ w
mac_from_ip_injective v w {mac} h k e f =
    let macs : mac_of (put_big_endian v) ≡ mac_of (put_big_endian w) =
      cc (e, f, mac_from_ip-uint32_to_ip v, mac_from_ip-uint32_to_ip w) in
    let same =
      mac_of_injective (put_big_endian v) (put_big_endian w) (put_big_endian-IsBytes v)
        (put_big_endian-IsBytes w) macs in
    cc (ap big_endian same, big_endian-put_big_endian v h, big_endian-put_big_endian w k)
