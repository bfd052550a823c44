-- ===== src/Daemon/Link/Tunnel.antt =====
-- One packet through the tunnel between two nodes of src/main.rs.
use wolf_net.Shared.{
  ℕ, ◌^◌, ◌<◌, ◌≤◌, ◌+◌, ◌≡◌, ◌∙◌, ap, false, true, not, some, ◌∷◌, ◌++◌, [], length, lookup,
}
use wolf_net.Net.{Bytes, Ipv4Addr, ip_eq, SocketAddr}
use wolf_net.External.{External, IsLawful}
use wolf_net.Crypto.{SessionCipher, Result, ok, peer_id, is_stale}
use wolf_net.Crypto
use wolf_net.Crypto.Sealing.{decrypt-encrypt}
use wolf_net.Peer.{Peer, is_connected}
use wolf_net.Manager.{find_ip_by_endpoint_or_id}
use wolf_net.Tun.{get_dest_ip}
use wolf_net.Transport.{build_data_packet}
use wolf_net.Transport.Wire.{parse_data-build_data}
use wolf_net.Daemon.{Node, World, send_to_peer}
use wolf_net.Daemon.Inbound.{handle_datagram}
use wolf_net.Daemon.Link.Departure.{sealed_by, send_to_peer-sent, length-my_peer_id}
use wolf_net.Daemon.Link.Arrival.{parsed_IsFramed, data_delivered, handle_datagram-data}

-- Node `a` may send through the peer: it is in the table, connected, with an endpoint, and under
-- the session; the buffer has room for the header and the tag.
abbrev pub MaySend : Node → ℕ → World → Ipv4Addr → SocketAddr → SessionCipher → Bytes → Type 0
MaySend node now w ip ep s text =
    (p : Peer) × (lookup ip w.manager.peers_by_ip ≡ some p)
    × (is_connected now p ≡ true)
    × (p.endpoint ≡ some ep)
    × (p.cipher ≡ some s)
    × (13 + length text + 16 ≤ length w.send_buf)

-- Node `b` knows the sender, by the datagram's source or by its id, under the session.
abbrev pub MayReceive : World → SocketAddr → Bytes → SessionCipher → Type 0
MayReceive w src id t =
    (ip : Ipv4Addr) × (q : Peer) × (find_ip_by_endpoint_or_id src id w.manager ≡ some ip)
    × (lookup ip w.manager.peers_by_ip ≡ some q)
    × (q.cipher ≡ some t)

-- A packet that one node sends to another is delivered. The sending adds one datagram, for the
-- peer's endpoint, with a counter and a ciphertext that the session gives; and the node that gets
-- this datagram, from any source, writes the packet to its TUN device, unchanged, where the packet
-- is a v4 packet for that node, the two sessions have one key and opposite sides, the receiver's
-- session has not passed the counter, and the counter is below 2 ^ 64.
pub packet_through_tunnel :
    (x : External) (law : IsLawful x) (a b : Node) (now later : ℕ) (text c : Bytes) (ip : Ipv4Addr)
    (ep src : SocketAddr) (w_a w_b : World) (s t : SessionCipher) (n : ℕ)
    → MaySend a now w_a ip ep s text
    → MayReceive w_b src (peer_id x a.keys.public) t
    → s.key ≡ t.key
    → s.is_low_side ≡ not t.is_low_side
    → (Crypto.encrypt x s text).1 ≡ ok (n, c)
    → n < 2 ^ 64
    → is_stale t n ≡ false
    → get_dest_ip text ≡ some b.wolfnet_ip
    → let packet = build_data_packet (peer_id x a.keys.public) n c in
      ((send_to_peer x a now text ip w_a).0.sent ≡ w_a.sent ++ (ep, packet) ∷ [])
      × ((handle_datagram x b later packet src w_b).delivered ≡ w_b.delivered ++ text ∷ [])
packet_through_tunnel x law a b now later text c ip ep src w_a w_b s t n
      (p, here, on, at, session, fits) (home, q, found, there, other) key side sealed small fresh
      own =
    let id = peer_id x a.keys.public in
    let packet = build_data_packet id n c in
    let framed = parsed_IsFramed packet id n c (
      parse_data-build_data id n c (length-my_peer_id x law a.keys) small
        (sealed_by x law s text c n sealed)) in
    let opened = ap (λ r. r.1) (decrypt-encrypt x law s t text n c key side sealed fresh) in
    (
      send_to_peer-sent x law a now text c ip w_a p ep s n here on at session sealed fits,
      ap (λ w. w.delivered) (handle_datagram-data x b later packet src w_b framed.0 framed.1)
          ∙ data_delivered x law b later packet id n c text src w_b home q t framed found there
              other opened own,
    )
