-- ===== src/Net/Ip/RoundTrip.antt =====
-- ipToUint32 and uint32ToIP of internal/store/store.go against each other.
use mathlib.Core.List.{append-nil}
use oakberryio.Prelude.{
  ap, ℕ, ◌+◌, ◌*◌, ◌/◌, ◌%◌, ◌^◌, ◌≤◌, ◌<◌, ◌≡◌, ◌∙◌, inl, inr, Bool-cases, some, List, [], ◌∷◌,
  ◌++◌, arith, Text, length, ltb, nat_eq,
}
use oakberryio.Prelude.Results.{ok}
use oakberryio.Text.Decimal.{itoa, itoa_small, itoa_large}
use oakberryio.Net.Ip.{
  Octets, parse_fields, parse_ip4, print_ip4, big_endian, put_big_endian, ip_to_uint32,
  uint32_to_ip,
}

-- A byte is written in one, two or three digits.
itoa_two : (n : ℕ) → 10 ≤ n → n < 100 → itoa n ≡ (48 + n / 10) ∷ (48 + n % 10) ∷ []
itoa_two n h k = rw (itoa_large n h, itoa_small (n / 10) (omega arith))

itoa_three :
    (n : ℕ) → 100 ≤ n → n < 256 → itoa n ≡ (48 + n / 100) ∷ (48 + n / 10 % 10) ∷ (48 + n % 10) ∷ []
itoa_three n h k =
    rw (itoa_large n (omega arith), itoa_two (n / 10) (omega arith) (omega arith)) (ground arith)

-- One digit.
step_digit :
    (fields : List ℕ) (val digs d : ℕ) (s : Text)
    → d < 10
    → (digs ≡ 1 → 0 < val)
    → val * 10 + d ≤ 255
    → parse_fields fields val digs ((48 + d) ∷ s) ≡ parse_fields fields (val * 10 + d) (digs + 1) s
unfolding parse_fields
step_digit fields val digs d s h z k = ground arith

-- The scanner takes the digits of a byte for one value.
read_byte :
    (fields : List ℕ) (n : ℕ) (s : Text)
    → n < 256
    → (k : ℕ) × (0 < k) × (parse_fields fields 0 0 (itoa n ++ s) ≡ parse_fields fields n k s)
read_byte fields n s h = elim (Bool-cases (ltb n 10)) [
  | inl e ↦
      (1, omega arith, rw (itoa_small n (ground arith)) (ground (arith, step_digit fields 0 0 n s)))
  | inr e ↦ elim (Bool-cases (ltb n 100)) [
    | inl f ↦ (
      2,
      omega arith,
      rw (itoa_two n (ground arith) (ground arith)) (
          ground (
            arith,
            step_digit fields 0 0 (n / 10) ((48 + n % 10) ∷ s),
            step_digit fields (n / 10) 1 (n % 10) s,
          )),
    )
    | inr f ↦ (
      3,
      omega arith,
      rw (itoa_three n (ground arith) h) (
          ground (
            arith,
            step_digit fields 0 0 (n / 100) ((48 + n / 10 % 10) ∷ (48 + n % 10) ∷ s),
            step_digit fields (n / 100) 1 (n / 10 % 10) ((48 + n % 10) ∷ s),
            step_digit fields (n / 100 * 10 + n / 10 % 10) 2 (n % 10) s,
          )),
    )
  ]
]

read_byte_dot :
    (fields : List ℕ) (n : ℕ) (s : Text)
    → n < 256
    → length fields < 3
    → parse_fields fields 0 0 (itoa n ++ b'.' ∷ s) ≡ parse_fields (fields ++ n ∷ []) 0 0 s
read_byte_dot fields n s h l =
    let (k, pos, e) = read_byte fields n (b'.' ∷ s) h in e ∙ (unfold parse_fields in ground arith)

read_byte_end :
    (a b c n : ℕ)
    → n < 256
    → parse_fields (a ∷ b ∷ c ∷ []) 0 0 (itoa n) ≡ some (record { a = a; b = b; c = c; d = n })
read_byte_end a b c n h =
    let (k, pos, e) = read_byte (a ∷ b ∷ c ∷ []) n [] h in
    rw append-nil at e ∙ (unfold parse_fields in ground arith)

pub record IsBytes (o : Octets) : Type 0 where
  pub a_byte : o.a < 256
  pub b_byte : o.b < 256
  pub c_byte : o.c < 256
  pub d_byte : o.d < 256

-- net.ParseIP undoes net.IP.String on every IPv4 address.
pub parse_ip4-print_ip4 : (o : Octets) → IsBytes o → parse_ip4 (print_ip4 o) ≡ some o
unfolding parse_ip4 print_ip4
parse_ip4-print_ip4 o h =
    read_byte_dot [] o.a _ h.a_byte (omega arith)
    ∙ (read_byte_dot (o.a ∷ []) o.b _ h.b_byte (omega arith)
        ∙ (read_byte_dot (o.a ∷ o.b ∷ []) o.c _ h.c_byte (omega arith)
            ∙ read_byte_end o.a o.b o.c o.d h.d_byte))

pub put_big_endian-IsBytes : (v : ℕ) → IsBytes (put_big_endian v)
unfolding put_big_endian
put_big_endian-IsBytes v = omega arith

pub big_endian-put_big_endian : (v : ℕ) → v < 2 ^ 32 → big_endian (put_big_endian v) ≡ v
unfolding big_endian put_big_endian
big_endian-put_big_endian v h = omega arith

pub put_big_endian-big_endian : (o : Octets) → IsBytes o → put_big_endian (big_endian o) ≡ o
unfolding big_endian put_big_endian
put_big_endian-big_endian o h = ground arith

-- The text that uint32ToIP prints of a number below 2^32 is read back by ipToUint32 as the same number.
pub ip_to_uint32-uint32_to_ip : (v : ℕ) → v < 2 ^ 32 → ip_to_uint32 (uint32_to_ip v) ≡ ok v
unfolding ip_to_uint32 uint32_to_ip
ip_to_uint32-uint32_to_ip v h =
    rw (parse_ip4-print_ip4 (put_big_endian v) (put_big_endian-IsBytes v), ip_to_uint32)
      (ap (λ (n : ℕ). ok n) (big_endian-put_big_endian v h))

-- Two addresses that print alike are the same.
pub uint32_to_ip-injective :
    (v w : ℕ) → v < 2 ^ 32 → w < 2 ^ 32 → uint32_to_ip v ≡ uint32_to_ip w → v ≡ w
uint32_to_ip-injective v w h k e =
    cc (ap ip_to_uint32 e, ip_to_uint32-uint32_to_ip v h, ip_to_uint32-uint32_to_ip w k)
