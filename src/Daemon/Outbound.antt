-- ===== src/Daemon/Outbound.antt =====
-- The outbound half of the event loop of src/main.rs: a packet read from the TUN device goes to
-- every peer, or to the first of its routes that takes it.
pub mod Once
use wolf_net.Shared.{
  ℕ, Bool, false, not, ◌||◌, List, [], ◌∷◌, Option, none, some, if◌then◌else◌, ◌==◌, Dict,
}
use wolf_net.Net.{Bytes, Ipv4Addr, ip_eq, broadcast, subnet_broadcast}
use wolf_net.External.{External}
use wolf_net.Peer.{Peer, is_connected}
use wolf_net.Manager.{contains, find_route, find_relay_for, find_gateway}
use wolf_net.Routes.{find_subnet_match, find_subnet_match_v6}
use wolf_net.Tun.{get_dest_ip, get_dest_ip6}
use wolf_net.Daemon.{Node, World, send_to_peer}

-- The peers of a broadcast, each with the relay that stands for it.
unfoldable pub broadcast_targets :
    ℕ → Ipv4Addr → Dict Ipv4Addr Peer → List (Ipv4Addr × Option Ipv4Addr)
broadcast_targets now my_ip [] = []
broadcast_targets now my_ip ((ip, peer) ∷ peers) =
    let rest = broadcast_targets now my_ip peers in
    if ip == my_ip
    then rest
    else if is_connected now peer
    then (ip, none) ∷ rest
    else elim peer.relay_via [ none ↦ rest | some relay ↦ (ip, some relay) ∷ rest ]

-- A relay is sent to once.
unfoldable pub send_broadcast :
    External → Node → ℕ → Bytes → List (Ipv4Addr × Option Ipv4Addr) → List Ipv4Addr → World → World
unfolding contains
send_broadcast x node now packet [] relayed w = w
send_broadcast x node now packet ((ip, none) ∷ targets) relayed w =
    send_broadcast x node now packet targets relayed (send_to_peer x node now packet ip w).0
send_broadcast x node now packet ((ip, some relay) ∷ targets) relayed w =
    let first = not (contains relayed relay) in
    let relayed' = if first then relay ∷ relayed else relayed in
    let w' = if first then (send_to_peer x node now packet relay w).0 else w in
    send_broadcast x node now packet targets relayed' w'

-- Send where there is such a peer.
abbrev pub try_send : External → Node → ℕ → Bytes → Option Ipv4Addr → World → World × Bool
try_send x node now packet none w = (w, false)
try_send x node now packet (some ip) w = send_to_peer x node now packet ip w

-- The relay of the peer, or else a gateway.
abbrev pub send_last : External → Node → ℕ → Bytes → Ipv4Addr → World → World
send_last x node now packet dest w = elim (find_relay_for now dest w.manager) [
  | some relay ↦ (send_to_peer x node now packet relay w).0
  | none ↦ (try_send x node now packet (find_gateway now w.manager) w).0
]

-- Direct, container route, CIDR route, relay, gateway.
unfoldable pub send_unicast : External → Node → ℕ → Bytes → Ipv4Addr → World → World
unfolding find_route
send_unicast x node now packet dest w =
    let (w1, direct) = send_to_peer x node now packet dest w in
    if direct
    then w1
    else let (w2, routed) = try_send x node now packet (find_route dest w1.manager) w1 in
      if routed
      then w2
      else let (w3, by_cidr) = try_send x node now packet (find_subnet_match dest w2.manager) w2 in
        if by_cidr then w3 else send_last x node now packet dest w3

unfoldable pub is_broadcast : Ipv4Addr → Ipv4Addr → Bool
is_broadcast my_ip dest = dest == subnet_broadcast my_ip || dest == broadcast

unfoldable pub handle_tun : External → Node → ℕ → Bytes → World → World
unfolding send_unicast is_broadcast
handle_tun x node now packet w = elim (get_dest_ip packet) [
  | some dest ↦
      if is_broadcast node.wolfnet_ip dest
      then send_broadcast x node now packet
          (broadcast_targets now node.wolfnet_ip w.manager.peers_by_ip) [] w
      else send_unicast x node now packet dest w
  | none ↦ elim (get_dest_ip6 packet) [
    | none ↦ w
    | some dest6 ↦ (try_send x node now packet (find_subnet_match_v6 dest6 w.manager) w).0
  ]
]
