-- ===== src/Manager.antt =====
-- `PeerManager` of src/peer.rs: the peer table and its indexes. The locks are not modelled: each
-- method runs from its first lock to its last with no other method between.
pub mod Index
pub mod Endpoints
pub mod Sticky
pub mod Migration
pub mod Displaced
pub mod Announced
pub mod Health
use wolf_net.Shared.{
  ℕ, ◌+◌, Bool, true, false, not, ◌&&◌, ◌||◌, List, [], ◌∷◌, Option, none, some, if◌then◌else◌,
  ◌==◌, Eq, option_eq, bytes_eq, nat_eq, Dict, keys, values, lookup, insert, erase, map, length,
}
use wolf_net.Net.{
  Bytes, Text, Ipv4Addr, ip_eq, Ipv6Addr, SocketAddr, socket_eq, v4, v6, is_routable_endpoint,
  parse_ipv4, ipv4_to_text, parse_socket_v4, socket_v4_to_text,
}
use wolf_net.External.{External, PexEntry}
use wolf_net.Crypto.{KeyPair, Result, ok, err, parse_public_key}
use wolf_net.Peer.{Peer, new_peer, establish_session, is_connected, is_some}

pub record PeerManager : Type 0 where
  pub peers_by_ip : Dict Ipv4Addr Peer
  pub id_to_ip : Dict Bytes Ipv4Addr
  pub endpoint_to_ip : Dict SocketAddr Ipv4Addr
  pub subnet_routes : Dict Ipv4Addr Ipv4Addr
  pub subnet_routes_cidrs : List (Ipv4Addr × ℕ × Ipv4Addr)
  pub subnet_routes_cidrs_v6 : List (Ipv6Addr × ℕ × Ipv4Addr)
  pub purged_ips : List Ipv4Addr

unfoldable pub new_manager : PeerManager
new_manager = record {
  peers_by_ip = [];
  id_to_ip = [];
  endpoint_to_ip = [];
  subnet_routes = [];
  subnet_routes_cidrs = [];
  subnet_routes_cidrs_v6 = [];
  purged_ips = [];
}

-- `contains` on a list or set
unfoldable pub contains {ℓ} : {A : Type ℓ} ⦃e : Eq A⦄ → List A → A → Bool
contains [] a = false
contains (x ∷ xs) a = a == x || contains xs a

abbrev pub insert_endpoint :
    Option SocketAddr → Ipv4Addr → Dict SocketAddr Ipv4Addr → Dict SocketAddr Ipv4Addr
insert_endpoint none ip d = d
insert_endpoint (some ep) ip d = insert ep ip d

abbrev pub remove_endpoint : Option SocketAddr → Dict SocketAddr Ipv4Addr → Dict SocketAddr Ipv4Addr
remove_endpoint none d = d
remove_endpoint (some ep) d = erase ep d

-- `if let Some(old) = peer.endpoint { if old != new { remove(&old) } }`
abbrev pub remove_changed :
    Option SocketAddr → SocketAddr → Dict SocketAddr Ipv4Addr → Dict SocketAddr Ipv4Addr
remove_changed none ep d = d
remove_changed (some old) ep d = if old == ep then d else erase old d

unfoldable pub add_peer : Peer → PeerManager → PeerManager
add_peer peer m = record m {
  endpoint_to_ip = insert_endpoint peer.endpoint peer.wolfnet_ip m.endpoint_to_ip;
  id_to_ip = insert peer.id peer.wolfnet_ip m.id_to_ip;
  peers_by_ip = insert peer.wolfnet_ip peer m.peers_by_ip;
}

unfoldable pub remove_peer : Ipv4Addr → PeerManager → PeerManager
remove_peer ip m = elim (lookup ip m.peers_by_ip) [
  | none ↦ m
  | some peer ↦ record m {
    peers_by_ip = erase ip m.peers_by_ip;
    id_to_ip = erase peer.id m.id_to_ip;
    endpoint_to_ip = remove_endpoint peer.endpoint m.endpoint_to_ip;
  }
]

unfoldable pub purge_peer : Ipv4Addr → PeerManager → PeerManager
unfolding remove_peer
purge_peer ip m =
    let m' = remove_peer ip m in
    record m' {
      purged_ips = if contains m'.purged_ips ip then m'.purged_ips else ip ∷ m'.purged_ips;
    }

-- The callback sees the peer and returns it changed, with a result.
unfoldable pub with_peer_by_ip {ℓ} :
    {R : Type ℓ} → Ipv4Addr → (Peer → Peer × R) → PeerManager → PeerManager × Option R
with_peer_by_ip ip f m = elim (lookup ip m.peers_by_ip) [
  | none ↦ (m, none)
  | some peer ↦
      let (peer', r) = f peer in (record m { peers_by_ip = insert ip peer' m.peers_by_ip }, some r)
]

unfoldable pub find_ip_by_endpoint : SocketAddr → PeerManager → Option Ipv4Addr
find_ip_by_endpoint addr m = lookup addr m.endpoint_to_ip

unfoldable pub find_ip_by_id : Bytes → PeerManager → Option Ipv4Addr
find_ip_by_id id m = lookup id m.id_to_ip

unfoldable pub find_ip_by_endpoint_or_id : SocketAddr → Bytes → PeerManager → Option Ipv4Addr
find_ip_by_endpoint_or_id addr id m = elim (lookup addr m.endpoint_to_ip) [
  | some ip ↦ some ip
  | none ↦ lookup id m.id_to_ip
]

-- Set a peer's endpoint and move its index entry.
abbrev pub move_endpoint : Ipv4Addr → SocketAddr → Peer → PeerManager → PeerManager
move_endpoint ip ep peer m = record m {
  peers_by_ip = insert ip (record peer { endpoint = some ep }) m.peers_by_ip;
  endpoint_to_ip = insert ep ip (remove_changed peer.endpoint ep m.endpoint_to_ip);
}

unfoldable pub update_endpoint : Ipv4Addr → SocketAddr → PeerManager → PeerManager
update_endpoint ip new_endpoint m = elim (lookup ip m.peers_by_ip) [
  | none ↦ m
  | some peer ↦ move_endpoint ip new_endpoint peer m
]

unfoldable pub update_endpoint_if_roaming : Ipv4Addr → SocketAddr → PeerManager → PeerManager × Bool
update_endpoint_if_roaming ip new_endpoint m = elim (lookup ip m.peers_by_ip) [
  | none ↦ (m, false)
  | some peer ↦
      if is_some peer.configured_endpoint
      then (m, false)
      else (move_endpoint ip new_endpoint peer m, true)
]

unfoldable pub clear_endpoint : Ipv4Addr → PeerManager → PeerManager × Bool
clear_endpoint ip m = elim (lookup ip m.peers_by_ip) [
  | none ↦ (m, false)
  | some peer ↦ (
    record m {
      peers_by_ip =
          insert ip (record peer { endpoint = none; configured_endpoint = none }) m.peers_by_ip;
      endpoint_to_ip = remove_endpoint peer.endpoint m.endpoint_to_ip;
    },
    is_some peer.endpoint || is_some peer.configured_endpoint,
  )
]

-- `iter().find(|(_, p)| test(p))`, in the order of the map
unfoldable pub find_peer : (Peer → Bool) → Dict Ipv4Addr Peer → Option Ipv4Addr
find_peer test [] = none
find_peer test ((ip, p) ∷ d) = if test p then some ip else find_peer test d

abbrev pub find_by_key : Bytes → Dict Ipv4Addr Peer → Option Ipv4Addr
find_by_key public_key = find_peer (λ p. p.public_key == public_key)

-- What a discovery message or a handshake says of its sender.
pub record Announcement : Type 0 where
  pub key : Bytes
  pub source : SocketAddr
  pub wolfnet_ip : Ipv4Addr
  pub hostname : Text
  pub is_gateway : Bool

-- The peer is known under this address with this key.
unfoldable pub refresh_peer : Announcement → Peer → PeerManager → PeerManager
refresh_peer a peer m =
    let peer' = record peer {
      hostname = a.hostname;
      is_gateway = a.is_gateway;
      relay_via = none;
    } in
    if is_some peer.configured_endpoint
    then record m { peers_by_ip = insert a.wolfnet_ip peer' m.peers_by_ip }
    else move_endpoint a.wolfnet_ip a.source peer' m

-- The peer with this key moves here from `old_ip`.
unfoldable pub migrate_peer : Announcement → Ipv4Addr → Peer → PeerManager → PeerManager
migrate_peer a old_ip peer m =
    let peer' = record peer {
      wolfnet_ip = a.wolfnet_ip;
      endpoint = some a.source;
      hostname = a.hostname;
      is_gateway = a.is_gateway;
      relay_via = none;
    } in
    record m {
      endpoint_to_ip =
          insert a.source a.wolfnet_ip (remove_endpoint peer.endpoint m.endpoint_to_ip);
      id_to_ip = insert peer.id a.wolfnet_ip m.id_to_ip;
      peers_by_ip = insert a.wolfnet_ip peer' (erase old_ip m.peers_by_ip);
    }

abbrev discovered_peer : External → Announcement → Peer
discovered_peer x a = record (new_peer x a.key a.wolfnet_ip) {
  endpoint = some a.source;
  hostname = a.hostname;
  is_gateway = a.is_gateway;
}

-- A new peer, which takes the address from a peer of another key.
unfoldable pub introduce_peer : External → Announcement → PeerManager → PeerManager
unfolding remove_peer new_peer
introduce_peer x a m =
    let m' = remove_peer a.wolfnet_ip m in
    let peer = discovered_peer x a in
    record m' {
      endpoint_to_ip = insert a.source a.wolfnet_ip m'.endpoint_to_ip;
      id_to_ip = insert peer.id a.wolfnet_ip m'.id_to_ip;
      peers_by_ip = insert a.wolfnet_ip peer m'.peers_by_ip;
    }

-- The second and third check of `update_from_discovery`.
unfoldable pub place_peer : External → Announcement → PeerManager → PeerManager
place_peer x a m = elim (find_by_key a.key m.peers_by_ip) [
  | none ↦ introduce_peer x a m
  | some old_ip ↦ elim (lookup old_ip m.peers_by_ip) [
    | none ↦ introduce_peer x a m
    | some peer ↦
        if old_ip == a.wolfnet_ip then introduce_peer x a m else migrate_peer a old_ip peer m
  ]
]

unfoldable pub update_from_discovery : External → Announcement → PeerManager → PeerManager
update_from_discovery x a m = elim (lookup a.wolfnet_ip m.peers_by_ip) [
  | none ↦ place_peer x a m
  | some peer ↦ if peer.public_key == a.key then refresh_peer a peer m else place_peer x a m
]

unfoldable pub all_ips : PeerManager → List Ipv4Addr
all_ips m = keys m.peers_by_ip

unfoldable pub find_gateway : ℕ → PeerManager → Option Ipv4Addr
find_gateway now m = find_peer (λ p. p.is_gateway && is_connected now p) m.peers_by_ip

unfoldable pub find_relay_for : ℕ → Ipv4Addr → PeerManager → Option Ipv4Addr
find_relay_for now dest_ip m = elim (lookup dest_ip m.peers_by_ip) [
  | none ↦ none
  | some peer ↦ if is_connected now peer then none else peer.relay_via
]

unfoldable pub find_route : Ipv4Addr → PeerManager → Option Ipv4Addr
find_route dest_ip m = lookup dest_ip m.subnet_routes

unfoldable pub count : PeerManager → ℕ
count m = length m.peers_by_ip
