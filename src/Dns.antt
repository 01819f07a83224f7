-- ===== src/Dns.antt =====
-- internal/dns/dns.go's ServeDNS and resolveLocal, and their resolver, resolveDNS and requesterCanSee
-- of internal/daemon/bridge.go. The messages of the library miekg/dns are reduced to their questions
-- and to what a reply says. A name's letters are taken to be ASCII where ToLower reads them.
pub mod Tenancy
use oakberryio.Prelude.{
  ℕ, ◌+◌, ◌-◌, Bool, true, false, ◌&&◌, ◌||◌, not, Option, none, some, List, [], ◌∷◌, ◌++◌, map,
  Text, t, leb, ltb, ◌==◌, nat_eq, text_eq, if◌then◌else◌, length, take, drop,
}
use oakberryio.Prelude.Results.{Result, ok, err}
use oakberryio.Net.Ip.{Octets, parse_ip4}
use oakberryio.Store.{Db, Machine, running}
use oakberryio.Store.Apps.{app_owner}
use oakberryio.Store.Machines.{machines_for_app, state_eq}
use oakberryio.Store.Subnets.{owner_for_subnet}

-- net.IP.To4 of the source; `none` is nil, or an address that is not IPv4.
abbrev pub Source : Type 0
Source = Option Octets

abbrev in_tenant_range : Octets → Bool
in_tenant_range o = o.a == 10 && o.b == 200

-- A source in 10.200.<idx>.0/24 sees the apps of the subnet's owner; any other source sees every app.
unfoldable pub requester_can_see : Text → Source → Db → Bool
requester_can_see app none db = true
requester_can_see app (some o) db =
    if in_tenant_range o
    then (elim (owner_for_subnet o.c db) [
      | err e ↦ false
      | ok owner ↦ elim (app_owner app db) [ err e ↦ false | ok app_owner ↦ app_owner == owner ]
    ])
    else true

-- The addresses of the running ones.
unfoldable pub running_addrs : List Machine → List Octets
running_addrs [] = []
running_addrs (m ∷ ms) =
    let rest = running_addrs ms in
    if m.state == running then (elim (parse_ip4 m.ip) [ none ↦ rest | some o ↦ o ∷ rest ]) else rest

unfoldable pub resolve_dns : Text → Source → Db → List Octets
resolve_dns app src db =
    if requester_can_see app src db then running_addrs (machines_for_app app db) else []

abbrev pub zone : Text
zone = t ".internal."

unfoldable pub lower : ℕ → ℕ
lower c = if leb 65 c && leb c 90 then c + 32 else c

-- strings.TrimSuffix, where the suffix is there.
unfoldable pub trim_suffix : Text → Text → Option Text
trim_suffix suffix s =
    if leb (length suffix) (length s) && drop (length s - length suffix) s == suffix
    then some (take (length s - length suffix) s)
    else none

pub data QueryType : Type 0 where
  a_record other_record : QueryType

pub record Question : Type 0 where
  pub name : Text
  pub query_type : QueryType

pub data Reply : Type 0 where
  format_error forwarded name_error no_data : Reply
  answers : List Octets → Reply

unfoldable pub resolve_local : Text → QueryType → Source → Db → Reply
resolve_local app query_type src db = elim (resolve_dns app src db) [
  | [] ↦ name_error
  | ip ∷ ips ↦ elim query_type [ a_record ↦ answers (ip ∷ ips) | other_record ↦ no_data ]
]

unfoldable pub serve_dns : List Question → Source → Db → Reply
serve_dns (q ∷ []) src db = elim (trim_suffix zone (map lower q.name)) [
  | none ↦ forwarded
  | some app ↦ resolve_local app q.query_type src db
]
serve_dns qs src db = format_error
