-- ===== src/Daemon/Inbound.antt =====
-- The inbound half of the event loop of src/main.rs: one datagram of the UDP socket.
pub mod Forged
pub mod Delivery
use wolf_net.Shared.{
  ℕ, Bool, true, false, not, ◌&&◌, ◌||◌, [], ◌∷◌, ◌++◌, Option, none, some, if◌then◌else◌, ◌==◌,
  nat_eq, option_eq, ltb, leb, length, take, drop, from_le_bytes,
}
use wolf_net.Net.{Bytes, Ipv4Addr, ip_eq, SocketAddr, socket_eq}
use wolf_net.External.{External}
use wolf_net.Crypto.{Result, ok, err}
use wolf_net.Peer.{Peer, is_connected, establish_session, is_some}
use wolf_net.Peer
use wolf_net.Manager.{
  PeerManager, Announcement, update_from_discovery, with_peer_by_ip, find_ip_by_endpoint,
  find_ip_by_endpoint_or_id, update_endpoint_if_roaming, find_route,
}
use wolf_net.Routes.{find_subnet_match, find_subnet_match_v6}
use wolf_net.Pex.{add_from_pex}
use wolf_net.Tun.{byte_at, get_dest_ip, get_dest_ip6}
use wolf_net.Transport.{
  Handshake, parse_handshake, build_handshake, parse_peer_exchange, pkt_handshake, pkt_data,
  pkt_keepalive, pkt_peer_exchange,
}
use wolf_net.Daemon.{Node, World, send_to_peer, deliver}
use wolf_net.Daemon.Outbound.{is_broadcast}

abbrev pub announcement_of : Handshake → SocketAddr → Announcement
announcement_of h src = record {
  key = h.public_key;
  source = src;
  wolfnet_ip = h.ip;
  hostname = h.hostname;
  is_gateway = h.is_gateway;
}

-- A new session, with the new `last_seen`; the result is whether the peer was connected before.
unfoldable pub greet : External → Node → ℕ → Peer → Peer × Bool
unfolding establish_session
greet x node now p =
    (record (establish_session x now node.keys p) { last_seen = some now }, is_connected now p)

-- `unwrap_or(false)`
abbrev pub or_false : Option Bool → Bool
or_false none = false
or_false (some b) = b

unfoldable pub handle_handshake : External → Node → ℕ → Bytes → SocketAddr → World → World
unfolding with_peer_by_ip
handle_handshake x node now packet src w = elim (parse_handshake x packet) [
  | none ↦ w
  | some h ↦
      let m = update_from_discovery x (announcement_of h src) w.manager in
      let (m', r) = with_peer_by_ip h.ip (greet x node now) m in
      let w' = record w { manager = m' } in
      if or_false r
      then w'
      else let reply =
          build_handshake node.keys node.wolfnet_ip node.listen_port node.hostname
            node.is_gateway in
        record w' { sent = w.sent ++ (src, reply) ∷ [] }
]

-- To the TUN device where this node is the next hop, to the next hop otherwise.
abbrev pub hand_over : External → Node → ℕ → Bytes → Ipv4Addr → World → World
hand_over x node now plaintext next w =
    if next == node.wolfnet_ip
    then deliver plaintext w
    else (send_to_peer x node now plaintext next w).0

-- A packet that no peer took: to the next hop of its container route, or of its CIDR route, and
-- dropped where it has none.
unfoldable pub route_onward : External → Node → ℕ → Bytes → Ipv4Addr → World → World
unfolding find_route
route_onward x node now plaintext dest w = elim (find_route dest w.manager) [
  | some host ↦ hand_over x node now plaintext host w
  | none ↦ elim (find_subnet_match dest w.manager) [
    | none ↦ w
    | some gw ↦ hand_over x node now plaintext gw w
  ]
]

-- For us, broadcast, or relay.
unfoldable pub forward : External → Node → ℕ → Bytes → World → World
unfolding is_broadcast
forward x node now plaintext w = elim (get_dest_ip plaintext) [
  | some dest ↦
      if dest == node.wolfnet_ip || is_broadcast node.wolfnet_ip dest
      then deliver plaintext w
      else let (w', forwarded) = send_to_peer x node now plaintext dest w in
        if forwarded then w' else route_onward x node now plaintext dest w'
  | none ↦ elim (get_dest_ip6 plaintext) [
    | none ↦ w
    | some dest6 ↦ elim (find_subnet_match_v6 dest6 w.manager) [
      | none ↦ w
      | some gw ↦ hand_over x node now plaintext gw w
    ]
  ]
]

-- A decrypted payload: peer exchange, a relayed handshake (ignored), or a packet.
unfoldable pub handle_plaintext : External → Node → ℕ → Bytes → Ipv4Addr → World → World
unfolding nat_eq
handle_plaintext x node now plaintext peer_ip w =
    if ltb 1 (length plaintext) && byte_at plaintext 0 == pkt_peer_exchange
    then elim (parse_peer_exchange x plaintext) [
      | none ↦ w
      | some entries ↦ record w {
        manager = add_from_pex x now entries peer_ip node.wolfnet_ip node.keys w.manager;
      }
    ]
    else if ltb 1 (length plaintext) && byte_at plaintext 0 == pkt_handshake
    then w
    else forward x node now plaintext w

-- What the callback on the peer returns: the result, the buffer, whether the endpoint differs.
pub record Opened : Type 0 where
  pub result : Result ℕ
  pub buffer : Bytes
  pub is_elsewhere : Bool

unfoldable pub open_packet : External → ℕ → ℕ → Bytes → SocketAddr → Peer → Peer × Opened
open_packet x now counter sealed src p =
    let (p', r, buf) = Peer.decrypt_into x now p counter sealed (length sealed) in
    (p', record { result = r; buffer = buf; is_elsewhere = not (p'.endpoint == some src) })

-- What follows the callback: the endpoint where the peer has roamed, then the payload.
abbrev pub handle_opened :
    External → Node → ℕ → SocketAddr → Ipv4Addr → World → PeerManager → Opened → Result ℕ → World
handle_opened x node now src peer_ip w m o (err e) = record w { manager = m }
handle_opened x node now src peer_ip w m o (ok pt_len) =
    let m' = if o.is_elsewhere then (update_endpoint_if_roaming peer_ip src m).0 else m in
    handle_plaintext x node now (take pt_len o.buffer) peer_ip (record w { manager = m' })

unfoldable pub handle_data : External → Node → ℕ → Bytes → SocketAddr → World → World
unfolding find_ip_by_endpoint_or_id with_peer_by_ip update_endpoint_if_roaming from_le_bytes
handle_data x node now packet src w =
    let peer_id = take 4 (drop 1 packet) in
    let counter = from_le_bytes (take 8 (drop 5 packet)) in
    elim (find_ip_by_endpoint_or_id src peer_id w.manager) [
      | none ↦ w
      | some peer_ip ↦
          let (m, r) =
            with_peer_by_ip peer_ip (open_packet x now counter (drop 13 packet) src) w.manager in
          elim r [ none ↦ w | some o ↦ handle_opened x node now src peer_ip w m o o.result ]
    ]

unfoldable pub handle_keepalive : ℕ → Bytes → SocketAddr → World → World
unfolding find_ip_by_endpoint_or_id find_ip_by_endpoint update_endpoint_if_roaming with_peer_by_ip
handle_keepalive now packet src w =
    elim (find_ip_by_endpoint_or_id src (take 4 (drop 1 packet)) w.manager) [
      | none ↦ w
      | some ip ↦
          let m =
            if is_some (find_ip_by_endpoint src w.manager)
            then w.manager
            else (update_endpoint_if_roaming ip src w.manager).0 in
          let (m', r) = with_peer_by_ip ip (λ p. (record p { last_seen = some now }, true)) m in
          record w { manager = m' }
    ]

unfoldable pub handle_datagram : External → Node → ℕ → Bytes → SocketAddr → World → World
unfolding nat_eq
handle_datagram x node now packet src w =
    if byte_at packet 0 == pkt_handshake
    then handle_handshake x node now packet src w
    else if byte_at packet 0 == pkt_data && ltb 13 (length packet)
    then handle_data x node now packet src w
    else if byte_at packet 0 == pkt_keepalive && leb 5 (length packet)
    then handle_keepalive now packet src w
    else w
