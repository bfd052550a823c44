-- ===== src/Routes.antt =====
-- The route tables of `PeerManager` in src/peer.rs: exact container routes, and CIDR routes with
-- longest-prefix matching over the v4 (32-bit) and v6 (128-bit) addresses.
pub mod Mask
pub mod Longest
pub mod Reload
use Prim.Native.Nat.{bit_and}
use wolf_net.Shared.{
  ℕ, zero, suc, ◌+◌, ◌-◌, ◌*◌, ◌%◌, ◌^◌, List, [], ◌∷◌, Option, none, some, leb, if◌then◌else◌,
  ◌==◌, nat_eq, Dict, insert,
}
use wolf_net.Net.{◌>>=◌, Bytes, Text, Ipv4Addr, ip_eq, Ipv6Addr, parse_ipv4, parse_uint, split_once}
use wolf_net.External.{External}
use wolf_net.Manager.{PeerManager}

abbrev pub Cidr : Type 0 → Type 0
Cidr A = A × ℕ × Ipv4Addr

-- `u32::from_be_bytes(ip.octets())`
unfoldable pub to_u32 : Ipv4Addr → ℕ
to_u32 ip = ((ip.a * 256 + ip.b) * 256 + ip.c) * 256 + ip.d

-- `u128::from_be_bytes(ip.octets())`
abbrev pub from_be_bytes : ℕ → Bytes → ℕ
from_be_bytes acc [] = acc
from_be_bytes acc (b ∷ bs) = from_be_bytes (acc * 256 + b) bs

unfoldable pub to_u128 : Ipv6Addr → ℕ
to_u128 ip = from_be_bytes 0 ip

-- `MAX << (w - prefix)` in `w` bits, with the two ends of the range apart.
unfoldable pub mask : ℕ → ℕ → ℕ
unfolding nat_eq
mask w prefix =
    if prefix == 0
    then 0
    else if leb w prefix
    then 2 ^ w - 1
    else (2 ^ w - 1) * 2 ^ (w - prefix) % 2 ^ w

module _ {A : Type 0} (w : ℕ) (to_number : A → ℕ) where
  unfoldable pub first_match : ℕ → List (Cidr A) → Option Ipv4Addr
  unfolding nat_eq
  first_match dest [] = none
  first_match dest ((net, prefix, gw) ∷ table) =
      if bit_and dest (mask w prefix) == bit_and (to_number net) (mask w prefix)
      then some gw
      else first_match dest table

unfoldable pub find_subnet_match : Ipv4Addr → PeerManager → Option Ipv4Addr
unfolding first_match
find_subnet_match dest_ip m = first_match 32 to_u32 (to_u32 dest_ip) m.subnet_routes_cidrs

unfoldable pub find_subnet_match_v6 : Ipv6Addr → PeerManager → Option Ipv4Addr
unfolding first_match
find_subnet_match_v6 dest_ip m = first_match 128 to_u128 (to_u128 dest_ip) m.subnet_routes_cidrs_v6

-- `sort_by(|a, b| b.1.cmp(&a.1))`: stable, longest prefix first.
module _ {A : Type 0} where
  unfoldable pub place : Cidr A → List (Cidr A) → List (Cidr A)
  place e [] = e ∷ []
  place e (f ∷ table) = if leb f.1 e.1 then e ∷ f ∷ table else f ∷ place e table

  unfoldable pub sort_by_prefix : List (Cidr A) → List (Cidr A)
  unfolding place
  sort_by_prefix [] = []
  sort_by_prefix (e ∷ table) = place e (sort_by_prefix table)

abbrev routes_of : List (Text × Text) → Dict Ipv4Addr Ipv4Addr → Dict Ipv4Addr Ipv4Addr
routes_of [] routes = routes
routes_of ((container, host) ∷ map) routes = elim (parse_ipv4 container) [
  | none ↦ routes_of map routes
  | some container_ip ↦ elim (parse_ipv4 host) [
    | none ↦ routes_of map routes
    | some host_ip ↦ routes_of map (insert container_ip host_ip routes)
  ]
]

-- `content` is the file's text, or `none` where it cannot be read.
unfoldable pub load_routes : External → Option Text → PeerManager → PeerManager
load_routes x none m = m
load_routes x (some content) m = elim (x.map_of_json content) [
  | none ↦ m
  | some map ↦ record m { subnet_routes = routes_of map [] }
]

pub data Route : Type 0 where
  to_v4 : Cidr Ipv4Addr → Route
  to_v6 : Cidr Ipv6Addr → Route

-- One entry of the file; `none` is `continue`.
unfoldable pub parse_route : External → Text → Text → Option Route
parse_route x cidr gw = do
  (net_text, prefix_text) ← split_once b'/' cidr
  gateway ← parse_ipv4 gw
  elim (parse_ipv4 net_text) [
    | some net ↦ do
      prefix ← parse_uint 255 prefix_text
      if leb prefix 32 then some (to_v4 (net, prefix, gateway)) else none
    | none ↦ do
      net6 ← x.parse_ipv6 net_text
      prefix ← parse_uint 255 prefix_text
      if leb prefix 128 then some (to_v6 (net6, prefix, gateway)) else none
  ]

abbrev pub push_route :
    Option Route
    → List (Cidr Ipv4Addr) × List (Cidr Ipv6Addr)
    → List (Cidr Ipv4Addr) × List (Cidr Ipv6Addr)
push_route none parsed = parsed
push_route (some (to_v4 e)) (parsed, parsed_v6) = (e ∷ parsed, parsed_v6)
push_route (some (to_v6 e)) (parsed, parsed_v6) = (parsed, e ∷ parsed_v6)

unfoldable pub parse_routes :
    External → List (Text × Text) → List (Cidr Ipv4Addr) × List (Cidr Ipv6Addr)
parse_routes x [] = ([], [])
parse_routes x ((cidr, gw) ∷ map) = push_route (parse_route x cidr gw) (parse_routes x map)

unfoldable pub load_subnet_routes : External → Option Text → PeerManager → PeerManager
load_subnet_routes x none m = record m { subnet_routes_cidrs = []; subnet_routes_cidrs_v6 = [] }
load_subnet_routes x (some content) m = elim (x.map_of_json content) [
  | none ↦ m
  | some map ↦
      let (parsed, parsed_v6) = parse_routes x map in
      record m {
        subnet_routes_cidrs = sort_by_prefix parsed;
        subnet_routes_cidrs_v6 = sort_by_prefix parsed_v6;
      }
]
