-- ===== src/Pex.antt =====
-- Peer exchange in src/peer.rs: `get_pex_entries` and `add_from_pex`.
pub mod Admission
pub mod Known
pub mod Health
use wolf_net.Shared.{
  bytes_eq, ℕ, Bool, true, false, not, ◌&&◌, ◌||◌, List, [], ◌∷◌, Option, none, some, if◌then◌else◌,
  ◌==◌, nat_eq, keep, map, values, lookup, insert,
}
use wolf_net.Net.{
  Bytes, Text, Ipv4Addr, ip_eq, SocketAddr, socket_eq, v4, v6, is_routable_endpoint, parse_ipv4,
  ipv4_to_text, parse_socket_v4, socket_v4_to_text,
}
use wolf_net.External.{External, PexEntry}
use wolf_net.Crypto.{KeyPair, Result, ok, err, parse_public_key}
use wolf_net.Peer.{Peer, new_peer, establish_session, is_connected, is_some}
use wolf_net.Manager.{PeerManager, contains, find_by_key, insert_endpoint}

-- `SocketAddr::to_string` and `SocketAddr::from_str`
unfoldable pub socket_to_text : External → SocketAddr → Text
socket_to_text x (v4 ip port) = socket_v4_to_text ip port
socket_to_text x (v6 ip port) = x.socket_v6_to_text ip port

unfoldable pub parse_socket : External → Text → Option SocketAddr
parse_socket x s = elim (parse_socket_v4 s) [ some addr ↦ some addr | none ↦ x.parse_socket_v6 s ]

-- `filter` on an endpoint: `and_then(|e| if is_routable_endpoint(e) { Some(e) } else { None })`
unfoldable pub routable : Option SocketAddr → Option SocketAddr
routable none = none
routable (some ep) = if is_routable_endpoint ep then some ep else none

abbrev pub text_of : External → Option SocketAddr → Option Text
text_of x none = none
text_of x (some ep) = some (socket_to_text x ep)

unfoldable pub pex_entry : External → Peer → PexEntry
pex_entry x p = record {
  public_key = x.base64_encode p.public_key;
  wolfnet_ip = ipv4_to_text p.wolfnet_ip;
  endpoint = text_of x (routable p.endpoint);
  hostname = p.hostname;
  is_gateway = p.is_gateway;
}

unfoldable pub get_pex_entries : External → Ipv4Addr → PeerManager → List PexEntry
unfolding keep
get_pex_entries x my_ip m =
    map (pex_entry x) (keep (λ p. not (p.wolfnet_ip == my_ip)) (values m.peers_by_ip))

unfoldable pub same_subnet : Ipv4Addr → Ipv4Addr → Bool
unfolding nat_eq
same_subnet p q = p.a == q.a && (p.b == q.b && p.c == q.c)

-- Already connected, or known without a relay.
unfoldable pub is_settled : ℕ → Option Peer → Bool
is_settled now none = false
is_settled now (some p) = is_connected now p || not (is_some p.relay_via)

-- The endpoint of an entry, if it parses and is routable.
unfoldable pub learned_endpoint : External → PexEntry → Option SocketAddr
unfolding routable
learned_endpoint x entry = elim entry.endpoint [
  | none ↦ none
  | some ep_text ↦ routable (parse_socket x ep_text)
]

unfoldable pub learned_peer : External → ℕ → Ipv4Addr → KeyPair → PexEntry → Ipv4Addr → Bytes → Peer
unfolding establish_session new_peer
learned_peer x now sender_ip me entry entry_ip pub_key =
    establish_session x now me (record (new_peer x pub_key entry_ip) {
      hostname = entry.hostname;
      is_gateway = entry.is_gateway;
      relay_via = some sender_ip;
      endpoint = learned_endpoint x entry;
    })

-- An entry with a good key, for an address that is not settled.
unfoldable pub accept_entry :
    External → ℕ → Ipv4Addr → KeyPair → PexEntry → Ipv4Addr → Bytes → PeerManager → PeerManager
accept_entry x now sender_ip me entry entry_ip pub_key m = elim (lookup entry_ip m.peers_by_ip) [
  | some peer ↦ if is_connected now peer then m else record m {
    peers_by_ip = insert entry_ip (record peer { relay_via = some sender_ip }) m.peers_by_ip;
  }
  | none ↦
      let peer = learned_peer x now sender_ip me entry entry_ip pub_key in
      record m {
        endpoint_to_ip = insert_endpoint peer.endpoint entry_ip m.endpoint_to_ip;
        id_to_ip = insert peer.id entry_ip m.id_to_ip;
        peers_by_ip = insert entry_ip peer m.peers_by_ip;
      }
]

-- The key is known under another address.
unfoldable pub is_elsewhere : Bytes → Ipv4Addr → PeerManager → Bool
is_elsewhere pub_key entry_ip m = elim (find_by_key pub_key m.peers_by_ip) [
  | none ↦ false
  | some ip ↦ not (ip == entry_ip)
]

-- Ourselves, a purged address, or one outside our /24.
unfoldable pub is_barred : Ipv4Addr → PeerManager → Ipv4Addr → Bool
is_barred my_ip m entry_ip =
    entry_ip == my_ip || (contains m.purged_ips entry_ip || not (same_subnet entry_ip my_ip))

-- The body of the loop; each branch that returns `m` is a `continue`.
unfoldable pub add_pex_entry :
    External → ℕ → Ipv4Addr → Ipv4Addr → KeyPair → PexEntry → PeerManager → PeerManager
add_pex_entry x now sender_ip my_ip me entry m = elim (parse_ipv4 entry.wolfnet_ip) [
  | none ↦ m
  | some entry_ip ↦
      if is_barred my_ip m entry_ip || is_settled now (lookup entry_ip m.peers_by_ip)
      then m
      else elim (parse_public_key x entry.public_key) [
        | err e ↦ m
        | ok pub_key ↦
            if is_elsewhere pub_key entry_ip m
            then m
            else accept_entry x now sender_ip me entry entry_ip pub_key m
      ]
]

unfoldable pub add_from_pex :
    External → ℕ → List PexEntry → Ipv4Addr → Ipv4Addr → KeyPair → PeerManager → PeerManager
add_from_pex x now [] sender_ip my_ip me m = m
add_from_pex x now (entry ∷ entries) sender_ip my_ip me m =
    add_from_pex x now entries sender_ip my_ip me (add_pex_entry x now sender_ip my_ip me entry m)
