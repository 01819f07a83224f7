-- ===== src/Host/Bridge/Addresses.antt =====
-- The addresses of the DNS listeners: gatewayIP of internal/daemon/bridge_naming.go with the port 53.
use oakberryio.Prelude.{
  ◌≡◌, refl, ap, arith, inl, inr, ℕ, [], ◌∷◌, ◌++◌, Text, t, ◌==◌, nat_eq, text_eq, ==_iff, length,
  length-append, Bool-cases,
}
use oakberryio.Text.Decimal.{itoa, read_digits, read_digits-itoa}
use oakberryio.Host.Bridge.{gateway_ip, dns_addr}

append_cancel_right : (r s u : Text) → r ++ u ≡ s ++ u → r ≡ s
append_cancel_right [] [] u e = refl
append_cancel_right [] (c ∷ s) u e = ground (arith, ap (length {A = ℕ}) e, length-append {0} s u)
append_cancel_right (c ∷ r) [] u e = ground (arith, ap (length {A = ℕ}) e, length-append {0} r u)
append_cancel_right (c ∷ r) (d ∷ s) u e = let rest = append_cancel_right r s u cc in cc

-- Each subnet has an address of its own.
dns_addr-injective : (i j : ℕ) → dns_addr i ≡ dns_addr j → i ≡ j
unfolding gateway_ip
dns_addr-injective i j e =
    let same : itoa i ++ t ".1" ≡ itoa j ++ t ".1" = append_cancel_right _ _ (t ":53") cc in
    let digits : itoa i ≡ itoa j = append_cancel_right _ _ (t ".1") same in
    cc (read_digits-itoa i, read_digits-itoa j, ap (read_digits 0) digits)

pub same_addr : (i j : ℕ) → (dns_addr i == dns_addr j) ≡ (i == j)
same_addr i j = elim (Bool-cases (i == j)) [
  | inl same ↦ rw same ((==_iff (dns_addr i) (dns_addr j)).1 (ap dns_addr ((==_iff i j).0 same)))
  | inr other ↦ rw other (elim (Bool-cases (dns_addr i == dns_addr j)) [
    | inl one ↦
        let same =
          (==_iff i j).1 (dns_addr-injective i j ((==_iff (dns_addr i) (dns_addr j)).0 one)) in
        cc (same, other)
    | inr two ↦ two
  ])
]
