-- ===== src/Transport.antt =====
-- src/transport.rs: the packets on the wire, the discovery message and the body of its listener.
pub mod Wire
pub mod Senders
pub mod Announcing
use wolf_net.Shared.{
  ℕ, zero, suc, ◌+◌, Bool, true, false, not, ◌&&◌, ◌||◌, List, [], ◌∷◌, ◌++◌, Option, none, some,
  ltb, leb, if◌then◌else◌, ◌==◌, nat_eq, bytes_eq, length, take, drop, get_or, to_le_bytes,
  from_le_bytes,
}
use wolf_net.Net.{
  Bytes, Text, Ipv4Addr, ipv4, octets, SocketAddr, with_port, parse_ipv4, ipv4_to_text, decimal,
  parse_uint, split, ◌>>=◌,
}
use wolf_net.External.{External, PexEntry}
use wolf_net.Crypto.{KeyPair, parse_public_key, Result, ok, err}
use wolf_net.Manager.{PeerManager, Announcement}
use wolf_net.Pex.{get_pex_entries}
use wolf_net.Tun.{byte_at}

abbrev pub pkt_handshake : ℕ
pkt_handshake = 1

abbrev pub pkt_data : ℕ
pkt_data = 3

abbrev pub pkt_keepalive : ℕ
pkt_keepalive = 4

abbrev pub pkt_peer_exchange : ℕ
pkt_peer_exchange = 6

abbrev pub flag : Bool → ℕ
flag is_gateway = if is_gateway then 1 else 0

-- type, public key, wolfnet_ip, listen_port, is_gateway, hostname
unfoldable pub build_handshake : KeyPair → Ipv4Addr → ℕ → Text → Bool → Bytes
unfolding to_le_bytes
build_handshake me wolfnet_ip listen_port hostname is_gateway =
    pkt_handshake
    ∷ (me.public
        ++ (octets wolfnet_ip ++ (to_le_bytes 2 listen_port ++ (flag is_gateway ∷ hostname))))

pub record Handshake : Type 0 where
  pub public_key : Bytes
  pub ip : Ipv4Addr
  pub port : ℕ
  pub is_gateway : Bool
  pub hostname : Text

unfoldable pub parse_handshake : External → Bytes → Option Handshake
unfolding nat_eq from_le_bytes
parse_handshake x packet =
    if ltb (length packet) 40 || not (byte_at packet 0 == pkt_handshake)
    then none
    else some (record {
      public_key = take 32 (drop 1 packet);
      ip = ipv4 (byte_at packet 33) (byte_at packet 34) (byte_at packet 35) (byte_at packet 36);
      port = from_le_bytes (byte_at packet 37 ∷ byte_at packet 38 ∷ []);
      is_gateway = not (byte_at packet 39 == 0);
      hostname = x.from_utf8_lossy (drop 40 packet);
    })

-- type, peer id, counter, ciphertext
unfoldable pub build_data_packet : Bytes → ℕ → Bytes → Bytes
unfolding to_le_bytes
build_data_packet peer_id counter ciphertext =
    pkt_data ∷ (peer_id ++ (to_le_bytes 8 counter ++ ciphertext))

unfoldable pub parse_data_packet : Bytes → Option (Bytes × ℕ × Bytes)
unfolding nat_eq from_le_bytes
parse_data_packet packet =
    if ltb (length packet) 14 || not (byte_at packet 0 == pkt_data)
    then none
    else some (take 4 (drop 1 packet), from_le_bytes (take 8 (drop 5 packet)), drop 13 packet)

unfoldable pub build_keepalive : Bytes → Bytes
build_keepalive peer_id = pkt_keepalive ∷ peer_id

-- `join` of the fields of a message
abbrev join : ℕ → Text → List Text → Text
join sep front [] = front
join sep front (p ∷ ps) = front ++ sep ∷ join sep p ps

abbrev pub discovery_prefix : Text
discovery_prefix = b'W' ∷ b'O' ∷ b'L' ∷ b'F' ∷ b'N' ∷ b'E' ∷ b'T' ∷ []

unfoldable pub format_discovery : External → Text → Bytes → Ipv4Addr → ℕ → Text → Bool → Text
unfolding ipv4_to_text decimal
format_discovery x node_id public_key wolfnet_ip listen_port hostname is_gateway =
    join b'|' discovery_prefix (
      (b'1' ∷ [])
      ∷ node_id
      ∷ x.base64_encode public_key
      ∷ ipv4_to_text wolfnet_ip
      ∷ decimal listen_port
      ∷ hostname
      ∷ ((if is_gateway then b'G' else b'N') ∷ [])
      ∷ [])

pub record Discovery : Type 0 where
  pub node_id : Text
  pub public_key : Bytes
  pub wolfnet_ip : Ipv4Addr
  pub listen_port : ℕ
  pub hostname : Text
  pub is_gateway : Bool

abbrev key_of : Result Bytes → Option Bytes
key_of (ok key) = some key
key_of (err e) = none

-- The fields of a split message; more than eight are allowed.
unfoldable pub discovery_of_parts : External → List Text → Option Discovery
unfolding bytes_eq
discovery_of_parts x (prefix ∷ version ∷ node_id ∷ key ∷ ip ∷ port ∷ hostname ∷ role ∷ rest) =
    if not (prefix == discovery_prefix) then none else do
      public_key ← key_of (parse_public_key x key)
      wolfnet_ip ← parse_ipv4 ip
      listen_port ← parse_uint 65535 port
      some (record {
        node_id = node_id;
        public_key = public_key;
        wolfnet_ip = wolfnet_ip;
        listen_port = listen_port;
        hostname = hostname;
        is_gateway = role == b'G' ∷ [];
      })
discovery_of_parts x _ = none

unfoldable pub parse_discovery : External → Text → Option Discovery
unfolding discovery_of_parts split
parse_discovery x message = discovery_of_parts x (split b'|' message)

-- The source's address with the advertised port
unfoldable pub announced : SocketAddr → Discovery → Announcement
unfolding with_port
announced src d = record {
  key = d.public_key;
  source = with_port src d.listen_port;
  wolfnet_ip = d.wolfnet_ip;
  hostname = d.hostname;
  is_gateway = d.is_gateway;
}

-- The body of the listener's loop, for one datagram: what it announces to the manager.
unfoldable pub discovery_announcement : External → Text → Bytes → SocketAddr → Option Announcement
unfolding bytes_eq with_port
discovery_announcement x my_node_id packet src = if not (x.is_utf8 packet) then none else do
  d ← parse_discovery x packet
  if d.node_id == my_node_id then none else some (announced src d)

unfoldable pub build_peer_exchange : External → Ipv4Addr → PeerManager → Bytes
build_peer_exchange x my_ip m = elim (x.entries_to_json (get_pex_entries x my_ip m)) [
  | none ↦ pkt_peer_exchange ∷ []
  | some json ↦ pkt_peer_exchange ∷ json
]

unfoldable pub parse_peer_exchange : External → Bytes → Option (List PexEntry)
unfolding nat_eq
parse_peer_exchange x [] = none
parse_peer_exchange x (kind ∷ json) =
    if not (kind == pkt_peer_exchange) then none else x.entries_of_json json
