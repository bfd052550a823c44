-- ===== src/Daemon/Reload.antt =====
-- The configured peers of src/main.rs: how they are added at the start, and what a reload of the
-- configuration on SIGHUP does to the peer table. The counts that are only logged are left out.
pub mod Purge
pub mod Ghosts
pub mod Pinning
pub mod Dropped
use wolf_net.Shared.{
  ℕ, Bool, true, false, not, ◌&&◌, ◌||◌, List, [], ◌∷◌, Option, none, some, if◌then◌else◌, ◌==◌,
  option_eq, bytes_eq, lookup,
}
use wolf_net.Net.{Bytes, Text, Ipv4Addr, ip_eq, SocketAddr, socket_eq, parse_ipv4}
use wolf_net.Config.{PeerConfig}
use wolf_net.External.{External}
use wolf_net.Crypto.{KeyPair, Result, ok, err, parse_public_key}
use wolf_net.Peer.{Peer, new_peer, establish_session, is_connected, is_some}
use wolf_net.Manager.{
  PeerManager, contains, all_ips, add_peer, purge_peer, update_endpoint, clear_endpoint,
  with_peer_by_ip,
}
use wolf_net.Daemon.{resolve_endpoint}
use wolf_net.Daemon.Periodic.{RouteFiles, endpoint_of, load_route_files}

-- `unwrap_or_default`
abbrev pub or_empty : Option Text → Text
or_empty none = []
or_empty (some text) = text

abbrev pub resolved : External → Option Text → Option SocketAddr
resolved x none = none
resolved x (some ep) = resolve_endpoint x ep

unfoldable pub configured_peer : External → ℕ → KeyPair → PeerConfig → Bytes → Ipv4Addr → Peer
unfolding establish_session new_peer
configured_peer x now me pc public_key ip =
    establish_session x now me (record (new_peer x public_key ip) {
      hostname = or_empty pc.name;
      configured_endpoint = pc.endpoint;
      endpoint = resolved x pc.endpoint;
    })

-- The key and the address of an entry, where both parse.
unfoldable pub peer_of_config : External → PeerConfig → Option (Bytes × Ipv4Addr)
unfolding parse_public_key
peer_of_config x pc = elim (parse_public_key x pc.public_key) [
  | err e ↦ none
  | ok public_key ↦ elim (parse_ipv4 pc.allowed_ip) [
    | none ↦ none
    | some ip ↦ some (public_key, ip)
  ]
]

unfoldable pub add_configured : External → ℕ → KeyPair → List PeerConfig → PeerManager → PeerManager
unfolding configured_peer add_peer
add_configured x now me [] m = m
add_configured x now me (pc ∷ peers) m = elim (peer_of_config x pc) [
  | none ↦ add_configured x now me peers m
  | some (public_key, ip) ↦
      add_configured x now me peers (add_peer (configured_peer x now me pc public_key ip) m)
]

abbrev pub with_configured : Text → Peer → Peer × Bool
with_configured ep p = (record p { configured_endpoint = some ep }, true)

unfoldable pub reload_endpoint : External → PeerConfig → Ipv4Addr → PeerManager → PeerManager
unfolding clear_endpoint update_endpoint with_peer_by_ip
reload_endpoint x pc ip m = elim pc.endpoint [
  | none ↦ (clear_endpoint ip m).0
  | some ep ↦ elim (resolve_endpoint x ep) [
    | none ↦ m
    | some addr ↦
        if endpoint_of ip m == some addr
        then m
        else (with_peer_by_ip ip (with_configured ep) (update_endpoint ip addr m)).0
  ]
]

abbrev pub renamed : Text → Peer → Peer × Bool
renamed name p = (record p { hostname = if p.hostname == name then p.hostname else name }, true)

unfoldable pub reload_name : PeerConfig → Ipv4Addr → PeerManager → PeerManager
unfolding bytes_eq with_peer_by_ip
reload_name pc ip m =
    if or_empty pc.name == [] then m else (with_peer_by_ip ip (renamed (or_empty pc.name)) m).0

-- `existing_ips` is taken once, before the first entry.
unfoldable pub reload_peers :
    External → ℕ → KeyPair → List Ipv4Addr → List PeerConfig → PeerManager → PeerManager
unfolding reload_endpoint reload_name configured_peer add_peer contains
reload_peers x now me existing [] m = m
reload_peers x now me existing (pc ∷ peers) m = elim (peer_of_config x pc) [
  | none ↦ reload_peers x now me existing peers m
  | some (public_key, ip) ↦
      let m' =
        if contains existing ip
        then reload_name pc ip (reload_endpoint x pc ip m)
        else add_peer (configured_peer x now me pc public_key ip) m in
      reload_peers x now me existing peers m'
]

unfoldable pub configured_ips : List PeerConfig → List Ipv4Addr
configured_ips [] = []
configured_ips (pc ∷ peers) = elim (parse_ipv4 pc.allowed_ip) [
  | none ↦ configured_ips peers
  | some ip ↦ ip ∷ configured_ips peers
]

unfoldable pub configured_endpoints : External → List PeerConfig → List SocketAddr
configured_endpoints x [] = []
configured_endpoints x (pc ∷ peers) = elim (resolved x pc.endpoint) [
  | none ↦ configured_endpoints x peers
  | some ep ↦ ep ∷ configured_endpoints x peers
]

abbrev is_among : List SocketAddr → Option SocketAddr → Bool
is_among endpoints none = false
is_among endpoints (some ep) = contains endpoints ep

-- A peer of no entry goes, unless it is directly connected at an endpoint of its own.
unfoldable pub is_ghost : ℕ → List SocketAddr → Peer → Bool
is_ghost now endpoints p =
    not (not (is_some p.relay_via) && is_connected now p) || is_among endpoints p.endpoint

-- `unwrap_or((false, false))`: a peer that is gone is purged as well.
abbrev pub is_spared : ℕ → List SocketAddr → Option Peer → Bool
is_spared now endpoints none = false
is_spared now endpoints (some p) = not (is_ghost now endpoints p)

unfoldable pub purge_ghosts :
    ℕ → List Ipv4Addr → List SocketAddr → List Ipv4Addr → PeerManager → PeerManager
unfolding purge_peer contains
purge_ghosts now ips endpoints [] m = m
purge_ghosts now ips endpoints (ip ∷ runtime) m =
    let is_kept = contains ips ip || is_spared now endpoints (lookup ip m.peers_by_ip) in
    purge_ghosts now ips endpoints runtime (if is_kept then m else purge_peer ip m)

unfoldable pub reload :
    External → ℕ → KeyPair → List PeerConfig → RouteFiles → PeerManager → PeerManager
unfolding reload_peers purge_ghosts all_ips configured_ips configured_endpoints
reload x now me peers files m =
    let m1 = reload_peers x now me (all_ips m) peers m in
    let m2 =
      purge_ghosts now (configured_ips peers) (configured_endpoints x peers) (all_ips m1) m1 in
    load_route_files x files m2
