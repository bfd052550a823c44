-- ===== src/Transport/Senders.antt =====
-- The periodic senders of src/transport.rs. A sender returns the datagrams that it hands to the
-- socket, in order; errors of the socket are ignored by the source.
use wolf_net.Shared.{Bool}
use wolf_net.Shared.{ℕ}
use wolf_net.Shared.{
  List, [], ◌∷◌, ◌++◌, Option, none, some, leb, length, if◌then◌else◌, ◌==◌, option_eq,
}
use wolf_net.Net.{Bytes, Text, Ipv4Addr, ip_eq, SocketAddr, socket_eq}
use wolf_net.External.{External}
use wolf_net.Crypto.{KeyPair, Result, ok, err, peer_id}
use wolf_net.Peer.{Peer, is_connected}
use wolf_net.Peer
use wolf_net.Manager.{PeerManager, all_ips, with_peer_by_ip}
use wolf_net.Pex.{parse_socket}
use wolf_net.Transport.{build_handshake, build_keepalive, build_data_packet, build_peer_exchange}

abbrev pub Datagram : Type 0
Datagram = SocketAddr × Bytes

-- `for ip in peer_manager.all_ips() { with_peer_by_ip(&ip, f) }`; a peer that is gone is skipped.
abbrev pub for_each_peer :
    (Peer → Peer × List Datagram) → List Ipv4Addr → PeerManager → PeerManager × List Datagram
for_each_peer f [] m = (m, [])
for_each_peer f (ip ∷ ips) m =
    let (m', sent) = with_peer_by_ip ip f m in
    let (m'', rest) = for_each_peer f ips m' in
    elim sent [ none ↦ (m'', rest) | some out ↦ (m'', out ++ rest) ]

abbrev pub to_endpoint : Option SocketAddr → Bytes → List Datagram
to_endpoint none packet = []
to_endpoint (some ep) packet = (ep, packet) ∷ []

-- The address in the configuration, where it is one and differs from the current endpoint.
unfoldable pub other_endpoint : External → Peer → Option SocketAddr
other_endpoint x p = elim p.configured_endpoint [
  | none ↦ none
  | some text ↦ elim (parse_socket x text) [
    | none ↦ none
    | some ep ↦ if p.endpoint == some ep then none else some ep
  ]
]

unfoldable pub handshakes_to : External → ℕ → Bytes → Peer → List Datagram
handshakes_to x now packet p =
    if is_connected now p
    then []
    else to_endpoint p.endpoint packet ++ to_endpoint (other_endpoint x p) packet

unfoldable pub send_handshakes :
    External → ℕ → KeyPair → Ipv4Addr → ℕ → Text → Bool → PeerManager → PeerManager × List Datagram
unfolding with_peer_by_ip
send_handshakes x now me wolfnet_ip listen_port hostname is_gateway m =
    let packet = build_handshake me wolfnet_ip listen_port hostname is_gateway in
    for_each_peer (λ p. (p, handshakes_to x now packet p)) (all_ips m) m

unfoldable pub send_keepalives : External → ℕ → KeyPair → PeerManager → PeerManager × List Datagram
unfolding with_peer_by_ip
send_keepalives x now me m =
    let packet = build_keepalive (peer_id x me.public) in
    for_each_peer (λ p. (p, if is_connected now p then to_endpoint p.endpoint packet else []))
      (all_ips m) m

-- The data packet that carries a message to one peer.
abbrev pub data_packet : Bytes → SocketAddr → Result (ℕ × Bytes) → List Datagram
data_packet my_id ep (err e) = []
data_packet my_id ep (ok (counter, ciphertext)) =
    (ep, build_data_packet my_id counter ciphertext) ∷ []

-- A message sealed for one peer, where it has an endpoint.
abbrev pub sealed_for : External → Bytes → Bytes → Peer → Option SocketAddr → Peer × List Datagram
sealed_for x my_id message p none = (p, [])
sealed_for x my_id message p (some ep) =
    let (p', r) = Peer.encrypt x p message in (p', data_packet my_id ep r)

unfoldable pub encrypted_to : External → ℕ → Bytes → Bytes → Peer → Peer × List Datagram
encrypted_to x now my_id message p =
    if is_connected now p then sealed_for x my_id message p p.endpoint else (p, [])

unfoldable pub send_peer_exchange :
    External → ℕ → KeyPair → Ipv4Addr → PeerManager → PeerManager × List Datagram
unfolding with_peer_by_ip
send_peer_exchange x now me my_ip m =
    let packet = build_peer_exchange x my_ip m in
    if leb (length packet) 1
    then (m, [])
    else for_each_peer (encrypted_to x now (peer_id x me.public) packet) (all_ips m) m
