-- ===== src/Net/Ip.antt =====
-- net.ParseIP(s).To4() and net.IP.String on IPv4 texts; ipToUint32 and uint32ToIP of
-- internal/store/store.go. A text that net.ParseIP reads as IPv6 is outside this model:
-- the program only reads back addresses that it printed, and the octets of UDP sources.
pub mod RoundTrip
use oakberryio.Prelude.{
  ℕ, zero, suc, ◌+◌, ◌-◌, ◌*◌, ◌/◌, ◌%◌, ◌^◌, ◌<◌, ◌≡◌, refl, Bool, true, false, ◌&&◌, ◌||◌, Option,
  none, some, List, [], ◌∷◌, ◌++◌, ltb, leb, if◌then◌else◌, Text, t, ◌==◌, nat_eq, length,
}
use oakberryio.Text.Decimal.{itoa, is_digit}
use oakberryio.Prelude.Results.{Result, ok, err, bad_ip}

-- The four bytes of an address, most significant first.
pub record Octets : Type 0 where
  pub a : ℕ
  pub b : ℕ
  pub c : ℕ
  pub d : ℕ

abbrev octets_of : List ℕ → Option Octets
octets_of (a ∷ b ∷ c ∷ d ∷ []) = some (record { a = a; b = b; c = c; d = d })
octets_of _ = none

-- The loop of netip's parseIPv4Fields: the fields read, the value and the digits of the next one.
unfoldable pub parse_fields : List ℕ → ℕ → ℕ → Text → Option Octets
unfolding is_digit
parse_fields fields val digs [] = if digs == 0 then none else octets_of (fields ++ val ∷ [])
parse_fields fields val digs (c ∷ s) =
    let v = val * 10 + (c - 48) in
    let more = parse_fields fields v (digs + 1) s in
    let next = parse_fields (fields ++ val ∷ []) 0 0 s in
    if is_digit c
    then if digs == 1 && val == 0 then none else if ltb 255 v then none else more
    else if c == b'.'
    then if digs == 0 || leb 3 (length fields) then none else next
    else none

unfoldable pub parse_ip4 : Text → Option Octets
unfolding parse_fields
parse_ip4 s = parse_fields [] 0 0 s

unfoldable pub print_ip4 : Octets → Text
unfolding itoa
print_ip4 o = itoa o.a ++ b'.' ∷ (itoa o.b ++ b'.' ∷ (itoa o.c ++ b'.' ∷ itoa o.d))

-- binary.BigEndian
unfoldable pub big_endian : Octets → ℕ
big_endian o = o.a * 2 ^ 24 + o.b * 2 ^ 16 + o.c * 2 ^ 8 + o.d

unfoldable pub put_big_endian : ℕ → Octets
put_big_endian v = record {
  a = v / 2 ^ 24 % 256;
  b = v / 2 ^ 16 % 256;
  c = v / 2 ^ 8 % 256;
  d = v % 256;
}

unfoldable pub ip_to_uint32 : Text → Result ℕ
ip_to_uint32 s = elim (parse_ip4 s) [ none ↦ err bad_ip | some o ↦ ok (big_endian o) ]

unfoldable pub uint32_to_ip : ℕ → Text
uint32_to_ip v = print_ip4 (put_big_endian v)

parses : ip_to_uint32 (t "10.200.3.5") ≡ ok 180880133
unfolding ip_to_uint32 parse_ip4 big_endian nat_eq
parses = refl

refuses : ip_to_uint32 (t "10.200.03.5") ≡ err bad_ip
unfolding ip_to_uint32 parse_ip4 big_endian nat_eq
refuses = refl

prints : uint32_to_ip 180880133 ≡ t "10.200.3.5"
unfolding uint32_to_ip print_ip4 put_big_endian
prints = refl
