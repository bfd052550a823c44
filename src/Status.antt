-- ===== src/Status.antt =====
-- `PeerManager::status` of src/peer.rs: what the daemon writes to its status file, for wolfnetctl.
use wolf_net.Shared.{ℕ, ◌-◌, ◌/◌, ◌^◌, Bool, List, Option, none, some, map, values, codes}
use wolf_net.Net.{Text, Ipv4Addr, SocketAddr, ipv4_to_text}
use wolf_net.External.{External}
use wolf_net.Peer.{Peer, is_connected, is_passing_data}
use wolf_net.Manager.{PeerManager}
use wolf_net.Pex.{socket_to_text}

pub record PeerStatus : Type 0 where
  pub hostname : Text
  pub address : Text
  pub endpoint : Text
  pub public_key : Text
  pub last_seen_secs : ℕ
  pub rx_bytes : ℕ
  pub tx_bytes : ℕ
  pub connected : Bool
  pub is_gateway : Bool
  pub relay_via : Option Text
  pub data_flowing : Bool
  pub last_data_rx_secs : ℕ

abbrev pub max_u64 : ℕ
max_u64 = 2 ^ 64 - 1

-- `map_or(u64::MAX, |t| t.elapsed().as_secs())`
abbrev pub secs_since : ℕ → Option ℕ → ℕ
secs_since now none = max_u64
secs_since now (some t) = (now - t) / 1_000_000_000

abbrev endpoint_text : External → Option SocketAddr → Text
endpoint_text x none = codes "-"
endpoint_text x (some ep) = socket_to_text x ep

abbrev relay_text : Option Ipv4Addr → Option Text
relay_text none = none
relay_text (some ip) = some (ipv4_to_text ip)

unfoldable pub peer_status : External → ℕ → Peer → PeerStatus
unfolding socket_to_text is_connected is_passing_data ipv4_to_text
peer_status x now p = record {
  hostname = p.hostname;
  address = ipv4_to_text p.wolfnet_ip;
  endpoint = endpoint_text x p.endpoint;
  public_key = x.base64_encode p.public_key;
  last_seen_secs = secs_since now p.last_seen;
  rx_bytes = p.rx_bytes;
  tx_bytes = p.tx_bytes;
  connected = is_connected now p;
  is_gateway = p.is_gateway;
  relay_via = relay_text p.relay_via;
  data_flowing = is_passing_data now p;
  last_data_rx_secs = secs_since now p.last_data_rx;
}

unfoldable pub status : External → ℕ → PeerManager → List PeerStatus
unfolding peer_status values
status x now m = map (peer_status x now) (values m.peers_by_ip)
