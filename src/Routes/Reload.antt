-- ===== src/Routes/Reload.antt =====
-- `load_subnet_routes` against `find_subnet_match`: what a reload does to routing.
use wolf_net.Shared.{
  ℕ, ◌^◌, ◌≤◌, ◌<◌, ◌≡◌, inl, inr, refl, arith, leb, List, [], ◌∷◌, Option, none, some, Bool-cases,
  Option-cases,
}
use mathlib.Core.Option.{some-injective}
use wolf_net.Net.Parsed.{bind-some, parse_ipv4-IsIpv4}
use wolf_net.Shared.{subst, if◌then◌else◌, length, suc, ◌*◌, ◌+◌}
use native.Mathlib.Nat.{pow-suc}
use wolf_net.Net.{
  ◌>>=◌, Text, Ipv4Addr, IsIpv4, Ipv6Addr, IsIpv6, AreBytes, Bytes, parse_ipv4, parse_uint,
  split_once,
}
use wolf_net.External.{External, IsLawful}
use wolf_net.Manager.{PeerManager}
use wolf_net.Routes.{
  Cidr, first_match, sort_by_prefix, to_u32, to_u128, from_be_bytes, find_subnet_match_v6,
  find_subnet_match, load_subnet_routes, parse_routes, parse_route, Route, to_v4, to_v6, push_route,
}
use wolf_net.Routes.Longest.{All, IsNextHop, Fits, longest_prefix}

pub to_u32-lt : (ip : Ipv4Addr) → IsIpv4 ip → to_u32 ip < 2 ^ 32
unfolding to_u32
to_u32-lt ip h = omega arith

from_be_bytes-lt :
    (bs : Bytes) (acc k : ℕ)
    → acc < 256 ^ k
    → AreBytes bs
    → from_be_bytes acc bs < 256 ^ (k + length bs)
from_be_bytes-lt [] acc k h bytes = subst (λ e. acc < 256 ^ e) (omega arith) h
from_be_bytes-lt (b ∷ bs) acc k h bytes =
    subst (λ e. from_be_bytes (acc * 256 + b) bs < 256 ^ e) (omega arith)
      (from_be_bytes-lt bs (acc * 256 + b) (suc k) (omega (arith, pow-suc 256 k)) bytes.1)

pub to_u128-lt : (ip : Ipv6Addr) → IsIpv6 ip → to_u128 ip < 2 ^ 128
unfolding to_u128
to_u128-lt ip h =
    let small = from_be_bytes-lt ip 0 0 (omega arith) h.1 in
    let count : 0 + length ip ≡ 16 = omega (arith, h.0) in
    subst (λ e. from_be_bytes 0 ip < 256 ^ e) count small

-- The entries of a file, where what the parser of IPv6 addresses gives has some property.
module _ (x : External) (IsGood : Ipv6Addr → Type 0)
    (good : (t : Text) (ip : Ipv6Addr) → x.parse_ipv6 t ≡ some ip → IsGood ip) where
  -- What one entry of the file gives fits its address family.
  abbrev FitsFamily : Route → Type 0
  FitsFamily (to_v4 e) = Fits 32 to_u32 e
  FitsFamily (to_v6 e) = (e.1 ≤ 128) × IsGood e.0

  v4_entry :
      (net gateway : Ipv4Addr) (o : Option ℕ) (r : Route)
      → IsIpv4 net
      → (o >>= λ prefix. if leb prefix 32 then some (to_v4 (net, prefix, gateway)) else none)
        ≡ some r
      → FitsFamily r
  v4_entry net gateway none r fits h = absurd (ground arith)
  v4_entry net gateway (some prefix) r fits h = elim (Bool-cases (leb prefix 32)) [
    | inl t ↦
        let e : some (to_v4 (net, prefix, gateway)) ≡ some r = rw t at h in
        subst FitsFamily (some-injective _ _ e) (ground arith, to_u32-lt net fits)
    | inr f ↦ absurd (ground arith)
  ]

  v6_entry :
      (net : Ipv6Addr) (gateway : Ipv4Addr) (o : Option ℕ) (r : Route)
      → IsGood net
      → (o >>= λ prefix. if leb prefix 128 then some (to_v6 (net, prefix, gateway)) else none)
        ≡ some r
      → FitsFamily r
  v6_entry net gateway none r fits h = absurd (ground arith)
  v6_entry net gateway (some prefix) r fits h = elim (Bool-cases (leb prefix 128)) [
    | inl t ↦
        let e : some (to_v6 (net, prefix, gateway)) ≡ some r = rw t at h in
        subst FitsFamily (some-injective _ _ e) (ground arith, fits)
    | inr f ↦ absurd (ground arith)
  ]

  parse_route-FitsFamily :
      (cidr gw : Text) (r : Route) → parse_route x cidr gw ≡ some r → FitsFamily r
  unfolding parse_route
  parse_route-FitsFamily cidr gw r h =
      let ((net_text, prefix_text), e, h1) = bind-some (split_once b'/' cidr) _ r h in
      let (gateway, e', h2) = bind-some (parse_ipv4 gw) _ r h1 in
      elim (Option-cases (parse_ipv4 net_text)) [
        | inl f ↦
            let h3 = rw f at h2 in
            let (net6, e'', h4) = bind-some (x.parse_ipv6 net_text) _ r h3 in
            v6_entry net6 gateway (parse_uint 255 prefix_text) r (good net_text net6 e'') h4
        | inr (net, f) ↦
            let h3 = rw f at h2 in
            v4_entry net gateway (parse_uint 255 prefix_text) r (parse_ipv4-IsIpv4 net_text net f)
              h3
      ]

  -- What the parsed entries of both families are.
  abbrev AllFit : List (Cidr Ipv4Addr) × List (Cidr Ipv6Addr) → Type 0
  AllFit parsed = All (Fits 32 to_u32) parsed.0 × All (λ e. (e.1 ≤ 128) × IsGood e.0) parsed.1

  push-AllFit :
      (o : Option Route) (parsed : List (Cidr Ipv4Addr) × List (Cidr Ipv6Addr))
      → ((r : Route) → o ≡ some r → FitsFamily r)
      → AllFit parsed
      → AllFit (push_route o parsed)
  push-AllFit none parsed fits rest = rest
  push-AllFit (some (to_v4 e)) (parsed, parsed_v6) fits rest =
      ((fits (to_v4 e) refl, rest.0), rest.1)
  push-AllFit (some (to_v6 e)) (parsed, parsed_v6) fits rest =
      (rest.0, (fits (to_v6 e) refl, rest.1))

  pub parse_routes-AllFit : (map : List (Text × Text)) → AllFit (parse_routes x map)
  unfolding parse_routes
  parse_routes-AllFit [] = (tt, tt)
  parse_routes-AllFit ((cidr, gw) ∷ map) =
      push-AllFit (parse_route x cidr gw) (parse_routes x map) (parse_route-FitsFamily cidr gw)
        (parse_routes-AllFit map)

module _ {A : Type 0} (w : ℕ) (to_number : A → ℕ) (dest : ℕ) (table : List (Cidr A)) where
  next_hop_lem :
      dest < 2 ^ w
      → All (Fits w to_number) table
      → (o : Option Ipv4Addr) → first_match w to_number dest (sort_by_prefix table) ≡ o
      → IsNextHop w to_number dest table o
  next_hop_lem small fits none h = (longest_prefix w to_number dest table small fits).1 h
  next_hop_lem small fits (some gw) h = (longest_prefix w to_number dest table small fits).0 gw h

-- After a reload from a file that parses, the search of the CIDR routes for a v4 address gives the
-- gateway of a longest prefix among the file's entries that parse and hold the address, whatever
-- their order, and nothing just when none of them holds it.
pub routing_after_reload :
    (x : External) (m : PeerManager) (dest : Ipv4Addr) (content : Text) (map : List (Text × Text))
    → IsIpv4 dest
    → x.map_of_json content ≡ some map
    → IsNextHop 32 to_u32
        (to_u32 dest)
        (parse_routes x map).0
        (find_subnet_match dest (load_subnet_routes x (some content) m))
unfolding find_subnet_match load_subnet_routes
routing_after_reload x m dest content map four good =
    rw (good, load_subnet_routes)
      (next_hop_lem 32 to_u32 (to_u32 dest) (parse_routes x map).0 (to_u32-lt dest four)
        (parse_routes-AllFit x (λ ip. Unit {0}) (λ t ip e. tt) map).0
        (first_match 32 to_u32 (to_u32 dest) (sort_by_prefix (parse_routes x map).0)) refl)

All-Fits :
    (table : List (Cidr Ipv6Addr))
    → All (λ e. (e.1 ≤ 128) × IsIpv6 e.0) table
    → All (Fits 128 to_u128) table
All-Fits [] h = tt
All-Fits (e ∷ table) h = ((h.0.0, to_u128-lt e.0 h.0.1), All-Fits table h.1)

-- After a reload from a file that parses, the search of the v6 CIDR routes for a v6 address gives the
-- gateway of a longest prefix among the file's v6 entries that parse and hold the address, whatever
-- their order, and nothing just when none of them holds it. This is with the parser of IPv6 addresses
-- giving sixteen bytes.
pub v6_routing_after_reload :
    (x : External) (law : IsLawful x) (m : PeerManager) (dest : Ipv6Addr) (content : Text)
    (map : List (Text × Text))
    → IsIpv6 dest
    → x.map_of_json content ≡ some map
    → IsNextHop 128 to_u128
        (to_u128 dest)
        (parse_routes x map).1
        (find_subnet_match_v6 dest (load_subnet_routes x (some content) m))
unfolding find_subnet_match_v6 load_subnet_routes
v6_routing_after_reload x law m dest content map six good =
    rw (good, load_subnet_routes)
      (next_hop_lem 128 to_u128 (to_u128 dest) (parse_routes x map).1 (to_u128-lt dest six)
        (All-Fits (parse_routes x map).1 (parse_routes-AllFit x IsIpv6 law.parse_ipv6-IsIpv6 map).1)
        (first_match 128 to_u128 (to_u128 dest) (sort_by_prefix (parse_routes x map).1)) refl)
