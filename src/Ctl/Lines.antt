-- ===== src/Ctl/Lines.antt =====
-- The lines of `cmd_list_servers` and `cmd_peers` of src/ctl/main.rs: the texts of their columns,
-- without the padding.
pub mod Counted
use wolf_net.Shared.{
  ℕ, Bool, true, false, List, [], ◌∷◌, ◌++◌, Option, none, some, map, if◌then◌else◌, ◌==◌, nat_eq,
  bytes_eq, codes,
}
use wolf_net.Net.{Text, decimal}
use wolf_net.Status.{PeerStatus, max_u64}
use wolf_net.Ctl.{
  Shown, online, handshake_only, via, offline, shown, daemon_reports_data_flow, format_duration,
}

-- What stands in the status file.
pub record NodeStatus : Type 0 where
  pub hostname : Text
  pub address : Text
  pub public_key : Text
  pub listen_port : ℕ
  pub gateway : Bool
  pub interface : Text
  pub uptime_secs : ℕ
  pub peers : List PeerStatus

-- The UTF-8 bytes of the four marks.
abbrev pub full_mark : Text
full_mark = 226 ∷ 151 ∷ 143 ∷ []

abbrev pub empty_mark : Text
empty_mark = 226 ∷ 151 ∷ 139 ∷ []

abbrev pub half_mark : Text
half_mark = 226 ∷ 151 ∷ 144 ∷ []

abbrev pub relay_mark : Text
relay_mark = 226 ∷ 151 ∷ 137 ∷ []

pub record ServerLine : Type 0 where
  pub name : Text
  pub addr : Text
  pub role : Text

abbrev role_text : Bool → Text
role_text is_gateway = if is_gateway then codes "Gateway" else codes "Node"

abbrev with_port_text : Text → ℕ → Text
with_port_text address port = address ++ b':' ∷ decimal port

abbrev self_line : NodeStatus → ServerLine
self_line s = record {
  name = full_mark ++ (b' ' ∷ (s.hostname ++ codes " (self)"));
  addr = with_port_text s.address s.listen_port;
  role = role_text s.gateway;
}

-- A peer is shown with this node's port.
abbrev pub peer_line : ℕ → PeerStatus → ServerLine
peer_line port p = record {
  name = (if p.connected then full_mark else empty_mark) ++ (b' ' ∷ p.hostname);
  addr = with_port_text p.address port;
  role = role_text p.is_gateway;
}

unfoldable pub server_lines : NodeStatus → List ServerLine
unfolding decimal
server_lines s = self_line s ∷ map (peer_line s.listen_port) s.peers

pub record PeerLine : Type 0 where
  pub host : Text
  pub address : Text
  pub endpoint : Text
  pub icon : Text
  pub status : Text
  pub last_seen : Text

abbrev icon_of : Shown → Text
icon_of online = full_mark
icon_of handshake_only = half_mark
icon_of (via relay) = relay_mark
icon_of offline = empty_mark

abbrev status_text : Shown → Text
status_text online = codes "online"
status_text handshake_only = codes "handshake-only"
status_text (via relay) = codes "via " ++ relay
status_text offline = codes "offline"

unfoldable pub last_seen_text : ℕ → Text
unfolding nat_eq format_duration
last_seen_text secs = if secs == max_u64 then codes "never" else format_duration secs

abbrev columns : Bool → PeerStatus → PeerLine
columns reports p = record {
  host = if p.hostname == [] then codes "-" else p.hostname;
  address = p.address;
  endpoint = p.endpoint;
  icon = icon_of (shown reports p);
  status = status_text (shown reports p);
  last_seen = last_seen_text p.last_seen_secs;
}

unfoldable pub peer_lines : List PeerStatus → List PeerLine
unfolding shown last_seen_text bytes_eq
peer_lines ps = map (columns (daemon_reports_data_flow ps)) ps
