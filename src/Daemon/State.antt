-- ===== src/Daemon/State.antt =====
-- The state of the daemon's event loop, `encrypt_and_send` and `resolve_endpoint` of src/main.rs.
use wolf_net.Crypto.{Result}
use wolf_net.Shared.{
  ℕ, ◌+◌, Bool, true, false, not, List, [], ◌∷◌, ◌++◌, Option, none, some, length, take, drop,
  to_le_bytes, write_at, if◌then◌else◌,
}
use wolf_net.Net.{Bytes, Text, Ipv4Addr, SocketAddr, is_unusable_endpoint}
use wolf_net.External.{External}
use wolf_net.Crypto.{KeyPair, ok, err, peer_id}
use wolf_net.Peer.{Peer, is_connected}
use wolf_net.Peer
use wolf_net.Manager.{PeerManager, with_peer_by_ip}
use wolf_net.Pex.{parse_socket}
use wolf_net.Transport.{pkt_data}
use wolf_net.Transport.Senders.{Datagram}

-- What does not change while the daemon runs.
pub record Node : Type 0 where
  pub keys : KeyPair
  pub wolfnet_ip : Ipv4Addr
  pub listen_port : ℕ
  pub hostname : Text
  pub is_gateway : Bool

pub record World : Type 0 where
  pub manager : PeerManager
  pub send_buf : Bytes
  pub sent : List Datagram
  pub delivered : List Bytes

-- What one call of `encrypt_and_send` leaves: the peer, the buffer, the datagram, its result.
pub record Sending : Type 0 where
  pub peer : Peer
  pub buffer : Bytes
  pub datagrams : List Datagram
  pub is_sent : Bool

-- The header is written after the payload is sealed in place.
abbrev pub write_header : Bytes → Bytes → ℕ → Bytes
write_header buf my_peer_id counter =
    write_at (write_at (write_at buf 0 (pkt_data ∷ [])) 1 my_peer_id) 5 (to_le_bytes 8 counter)

-- The arms of `match peer.encrypt_into(..)`; `sealed` is the send buffer after that call.
abbrev pub send_sealed : SocketAddr → Bytes → Peer → Result (ℕ × ℕ) → Bytes → Sending
send_sealed endpoint my_peer_id peer (err e) sealed = record {
  peer = peer;
  buffer = sealed;
  datagrams = [];
  is_sent = false;
}
send_sealed endpoint my_peer_id peer (ok (counter, ct_len)) sealed =
    let packet = write_header sealed my_peer_id counter in
    record {
      peer = peer;
      buffer = packet;
      datagrams = (endpoint, take (13 + ct_len) packet) ∷ [];
      is_sent = true;
    }

abbrev pub send_at : External → ℕ → Bytes → Bytes → Bytes → Peer → Option SocketAddr → Sending
send_at x now my_peer_id send_buf plaintext peer none = record {
  peer = peer;
  buffer = send_buf;
  datagrams = [];
  is_sent = false;
}
send_at x now my_peer_id send_buf plaintext peer (some endpoint) =
    if not (is_connected now peer)
    then record { peer = peer; buffer = send_buf; datagrams = []; is_sent = false }
    else let buf = write_at send_buf 13 plaintext in
      let (peer', r, tail) = Peer.encrypt_into x peer (drop 13 buf) (length plaintext) in
      send_sealed endpoint my_peer_id peer' r (take 13 buf ++ tail)

unfoldable pub encrypt_and_send : External → ℕ → Bytes → Bytes → Bytes → Peer → Sending
unfolding write_at to_le_bytes
encrypt_and_send x now my_peer_id send_buf plaintext peer =
    send_at x now my_peer_id send_buf plaintext peer peer.endpoint

-- `with_peer_by_ip(&ip, |peer| encrypt_and_send(..)).unwrap_or(false)`
unfoldable pub send_to_peer : External → Node → ℕ → Bytes → Ipv4Addr → World → World × Bool
unfolding encrypt_and_send with_peer_by_ip
send_to_peer x node now packet ip w =
    let callback : Peer → Peer × Sending = λ peer.
      let r = encrypt_and_send x now (peer_id x node.keys.public) w.send_buf packet peer in
      (r.peer, r) in
    let (m, r) = with_peer_by_ip ip callback w.manager in
    elim r [
      | none ↦ (w, false)
      | some r ↦
          (record w { manager = m; send_buf = r.buffer; sent = w.sent ++ r.datagrams }, r.is_sent)
    ]

-- A write to the TUN device
abbrev pub deliver : Bytes → World → World
deliver packet w = record w { delivered = w.delivered ++ packet ∷ [] }

unfoldable pub resolve_endpoint : External → Text → Option SocketAddr
unfolding is_unusable_endpoint
resolve_endpoint x text = elim (parse_socket x text) [
  | some addr ↦ if is_unusable_endpoint addr then none else some addr
  | none ↦ elim (x.resolve text) [
    | none ↦ none
    | some [] ↦ none
    | some (addr ∷ addrs) ↦ if is_unusable_endpoint addr then none else some addr
  ]
]
