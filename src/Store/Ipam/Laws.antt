-- ===== src/Store/Ipam/Laws.antt =====
-- The address that allocIP of internal/store/store.go hands out.
use oakberryio.Prelude.{
  All, ℕ, zero, suc, ◌+◌, ◌*◌, ◌/◌, ◌^◌, ◌≤◌, ◌<◌, ◌≡◌, refl, sym, ap, ◌∙◌, inl, inr, Bool, true,
  false, ◌||◌, List, [], ◌∷◌, Text, arith, ◌==◌, nat_eq, text_eq, if◌then◌else◌, Bool-cases,
}
use native.Mathlib.Decide.{dec_lt}
use oakberryio.Prelude.Results.{Result-cases, >>=-eq-ok, Error, Result, ok, err, no_free_ip}
use oakberryio.Text.Decimal.{itoa}
use oakberryio.Net.Ip.{Octets, ip_to_uint32, uint32_to_ip, print_ip4, big_endian}
use oakberryio.Net.Ip.RoundTrip.{ip_to_uint32-uint32_to_ip, parse_ip4-print_ip4}
use oakberryio.Table.{has}
use oakberryio.Store.{Db, Machine}
use oakberryio.Store.Ipam.{subnet_base, used_addrs, is_used, first_free, alloc_ip}

-- 10.200.idx.host as a number
abbrev pub subnet_addr : ℕ → ℕ → ℕ
subnet_addr idx host = 10 * 2 ^ 24 + 200 * 2 ^ 16 + idx * 256 + host

abbrev base_octets : ℕ → Octets
base_octets idx = record { a = 10; b = 200; c = idx; d = 0 }

subnet_base-print_ip4 : (idx : ℕ) → subnet_base idx ≡ print_ip4 (base_octets idx)
unfolding subnet_base print_ip4 itoa
subnet_base-print_ip4 idx = refl

big_endian-base_octets : (idx : ℕ) → big_endian (base_octets idx) ≡ subnet_addr idx 0
unfolding big_endian
big_endian-base_octets idx = omega arith

pub ip_to_uint32-subnet_base :
    (idx : ℕ) → idx < 256 → ip_to_uint32 (subnet_base idx) ≡ ok (subnet_addr idx 0)
unfolding ip_to_uint32
ip_to_uint32-subnet_base idx h = rw (subnet_base-print_ip4 idx) (
    rw (parse_ip4-print_ip4 (base_octets idx) (omega arith), ip_to_uint32)
      (ap (λ (n : ℕ). ok n) (big_endian-base_octets idx)))

-- Some machine's address reads as this number.
abbrev reads : Result ℕ → ℕ → Bool
reads (ok v) addr = v == addr
reads (err e) addr = false

unfoldable pub taken : ℕ → List Machine → Bool
taken addr [] = false
taken addr (m ∷ ms) = reads (ip_to_uint32 m.ip) addr || taken addr ms

has-ip_of_taken :
    (addr : ℕ) (ms : List Machine)
    → addr < 2 ^ 32
    → taken addr ms ≡ false
    → has (λ (m : Machine). m.ip) (uint32_to_ip addr) ms ≡ false
unfolding taken has
has-ip_of_taken addr [] h f = refl
has-ip_of_taken addr (m ∷ ms) h f =
    ground (arith, has-ip_of_taken addr ms h, ip_to_uint32-uint32_to_ip addr h)

-- The used addresses of a subnet are the taken ones.
is_used-used_addrs :
    (base addr : ℕ) (ms : List Machine) {us : List ℕ}
    → addr / 256 * 256 ≡ base
    → used_addrs base ms ≡ ok us
    → is_used addr us ≡ taken addr ms
unfolding used_addrs is_used taken
is_used-used_addrs base addr [] {us} e h = ground arith
is_used-used_addrs base addr (m ∷ ms) {us} e h = elim (Result-cases (used_addrs base ms)) [
  | inl (x, p) ↦ ground arith
  | inr (rest, p) ↦ ground (arith, is_used-used_addrs base addr ms {us = rest} e p)
]

-- What the loop over the hosts finds: the first that is free.
record Found (rounds host base : ℕ) (used : List ℕ) (ip : Text) : Type 0 where
  at : ℕ
  from : host ≤ at
  to : at < host + rounds
  shown : ip ≡ uint32_to_ip (base + at)
  free : is_used (base + at) used ≡ false
  lower : (k : ℕ) → host ≤ k → k < at → is_used (base + k) used ≡ true

Found-first_free :
    (rounds host base : ℕ) (used : List ℕ) {ip : Text}
    → first_free rounds host base used ≡ ok ip
    → Found rounds host base used ip
unfolding first_free
Found-first_free zero host base used h = cc
Found-first_free (suc rounds) host base used {ip} h =
    elim (Bool-cases (is_used (base + host) used)) [
      | inl taken_here ↦
          let f = Found-first_free rounds (host + 1) base used {ip = ip} (ground arith) in
          record {
            at = f.at;
            from = omega arith;
            to = omega arith;
            shown = f.shown;
            free = f.free;
            lower = λ k a b. elim (dec_lt host k) [
              | yes p ↦ f.lower k (omega arith) b
              | no p ↦ let same : host ≡ k = omega arith in rw (← same) taken_here
            ];
          }
      | inr free_here ↦ record {
        at = host;
        from = omega arith;
        to = omega arith;
        shown = ground arith;
        free = free_here;
        lower = λ k a b. absurd (omega arith);
      }
    ]

-- The loop fails only when every host that it tries is used.
first_free_full :
    (rounds host base : ℕ) (used : List ℕ) {e : Error}
    → first_free rounds host base used ≡ err e
    → (e ≡ no_free_ip) × ((k : ℕ) → host ≤ k → k < host + rounds → is_used (base + k) used ≡ true)
unfolding first_free
first_free_full zero host base used h = (cc, λ k a b. absurd (omega arith))
first_free_full (suc rounds) host base used {e} h = elim (Bool-cases (is_used (base + host) used)) [
  | inl taken_here ↦
      let (kind, full) = first_free_full rounds (host + 1) base used {e = e} (ground arith) in
      (
        kind,
        λ k a b. elim (dec_lt host k) [
          | yes p ↦ full k (omega arith) (omega arith)
          | no p ↦ let same : host ≡ k = omega arith in rw (← same) taken_here
        ],
      )
  | inr free_here ↦ ground arith
]

pub record Allocated (idx : ℕ) (db : Db) (ip : Text) : Type 0 where
  pub host : ℕ
  pub above_gateway : 2 ≤ host
  pub below_broadcast : host ≤ 254
  pub shown : ip ≡ uint32_to_ip (subnet_addr idx host)
  pub fresh : has (λ (m : Machine). m.ip) ip db.machines ≡ false
  pub lowest : (k : ℕ) → 2 ≤ k → k < host → taken (subnet_addr idx k) db.machines ≡ true

module _ (idx : ℕ) (db : Db) (small : idx < 256) where
  same_subnet : (k : ℕ) → k < 256 → (subnet_addr idx 0 + k) / 256 * 256 ≡ subnet_addr idx 0
  same_subnet k h = omega arith

  base_plus : (k : ℕ) → subnet_addr idx 0 + k ≡ subnet_addr idx k
  base_plus k = omega arith

  alloc_ip_parts :
      {ip : Text}
      → alloc_ip idx db ≡ ok ip
      → (used : List ℕ) × (used_addrs (subnet_addr idx 0) db.machines ≡ ok used)
        × (first_free 253 2 (subnet_addr idx 0) used ≡ ok ip)
  unfolding alloc_ip
  alloc_ip_parts h =
      >>=-eq-ok (used_addrs (subnet_addr idx 0) db.machines) (first_free 253 2 (subnet_addr idx 0))
        (rw (ip_to_uint32-subnet_base idx small) at h)

  -- An address that allocIP returns for a tenant subnet is a host of that subnet between .2 and
  -- .254, no machine has it, and every lower host is taken.
  pub alloc_ip-Allocated : {ip : Text} → alloc_ip idx db ≡ ok ip → Allocated idx db ip
  alloc_ip-Allocated {ip} h =
      let (used, readable, loop) = alloc_ip_parts {ip = ip} h in
      let f = Found-first_free 253 2 (subnet_addr idx 0) used {ip = ip} loop in
      let clear : taken (subnet_addr idx f.at) db.machines ≡ false = rw (← base_plus f.at) (
        sym (
          is_used-used_addrs (subnet_addr idx 0) (subnet_addr idx 0 + f.at) db.machines {us = used}
            (same_subnet f.at (omega arith)) readable)
        ∙ f.free) in
      let text : ip ≡ uint32_to_ip (subnet_addr idx f.at) = rw (← base_plus f.at) f.shown in
      record {
        host = f.at;
        above_gateway = f.from;
        below_broadcast = omega arith;
        shown = text;
        fresh = rw text (has-ip_of_taken (subnet_addr idx f.at) db.machines (omega arith) clear);
        lowest = λ k a b. rw (← base_plus k) (
            sym (
              is_used-used_addrs (subnet_addr idx 0) (subnet_addr idx 0 + k) db.machines {us = used}
                (same_subnet k (omega arith)) readable)
            ∙ f.lower k a b);
      }

-- Every address in the table reads.
unfoldable pub Readable : List Machine → Type 0
Readable ms = All (λ m. (v : ℕ) × (ip_to_uint32 m.ip ≡ ok v)) ms

used_addrs_total :
    (base : ℕ) (ms : List Machine) → Readable ms → (us : List ℕ) × (used_addrs base ms ≡ ok us)
unfolding used_addrs Readable
used_addrs_total base [] h = ([], refl)
used_addrs_total base (m ∷ ms) ((v, r), h) =
    let (us, e) = used_addrs_total base ms h in
    (if v / 256 * 256 == base then v ∷ us else us, rw (r, e))

module _ (idx : ℕ) (db : Db) (small : idx < 256) (readable : Readable db.machines) where
  -- In a database whose machines all have addresses that read, a tenant subnet with a host from .2 to .254
  -- that no machine has is not full: allocIP returns an address.
  pub alloc_ip_total :
      (k : ℕ)
      → 2 ≤ k
      → k ≤ 254
      → taken (subnet_addr idx k) db.machines ≡ false
      → (ip : Text) × (alloc_ip idx db ≡ ok ip)
  unfolding alloc_ip
  alloc_ip_total k a b free =
      let (used, e) = used_addrs_total (subnet_addr idx 0) db.machines readable in
      rw (ip_to_uint32-subnet_base idx small, e)
        (elim (Result-cases (first_free 253 2 (subnet_addr idx 0) used)) [
          | inr found ↦ found
          | inl (x, p) ↦
              let full =
                (first_free_full 253 2 (subnet_addr idx 0) used {e = x} p).1 k a (omega arith) in
              let here =
                is_used-used_addrs (subnet_addr idx 0) (subnet_addr idx 0 + k) db.machines
                  {us = used} (omega arith) e in
              let same : subnet_addr idx 0 + k ≡ subnet_addr idx k = omega arith in
              cc (full, here, ap (λ (v : ℕ). taken v db.machines) same)
        ])
