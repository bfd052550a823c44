-- ===== src/Ctl/Program.antt =====
-- `main` of src/ctl/main.rs with `load_status`, `cmd_status` and `cmd_info`, and the status file that a
-- thread of src/main.rs writes for it. `none` is an exit with an error, or a panic.
pub mod Reported
use wolf_net.Shared.{
  ℕ, ◌-◌, ◌/◌, ◌≤◌, Bool, true, false, not, ◌&&◌, ◌||◌, List, [], ◌∷◌, ◌++◌, Option, none, some,
  length, take, drop, get_or, leb, ltb, if◌then◌else◌, ◌==◌, nat_eq, codes,
}
use wolf_net.Net.{Text, ◌>>=◌}
use wolf_net.External.{External}
use wolf_net.Config.{Config}
use wolf_net.Status.{PeerStatus, status}
use wolf_net.Daemon.{Node}
use wolf_net.Daemon.Run.{State}
use wolf_net.Gateway.{Command}
use wolf_net.Ctl.{Summary, summary, server_counts, total, format_duration}
use wolf_net.Ctl.Lines.{NodeStatus, ServerLine, server_lines, PeerLine, peer_lines}
use wolf_net.Ctl.Purge.{cmd_purge}

-- `serde_json` for the status.
pub record StatusJson : Type 0 where
  pub to_text : NodeStatus → Option Text
  pub from_text : Text → Option NodeStatus

pub data StatusFile : Type 0 where
  absent : StatusFile
  unreadable : StatusFile
  written : Text → StatusFile

-- How far a write of the file gets, and what it leaves if it fails.
pub data Writing : Type 0 where
  complete : Writing
  broken : StatusFile → Writing

-- One turn of the status writer: what it says of a node that has run since `start_time`.
unfoldable pub node_status : External → Config → Node → ℕ → State → NodeStatus
unfolding status
node_status x config node start_time s = record {
  hostname = node.hostname;
  address = config.network.address;
  public_key = x.base64_encode node.keys.public;
  listen_port = config.network.listen_port;
  gateway = config.network.gateway;
  interface = config.network.interface;
  uptime_secs = (s.clock - start_time) / 1_000_000_000;
  peers = status x s.clock s.world.manager;
}

unfoldable pub write_status : StatusJson → NodeStatus → Writing → StatusFile → StatusFile
write_status json n outcome file = elim (json.to_text n) [
  | none ↦ file
  | some text ↦ elim outcome [ complete ↦ written text | broken rest ↦ rest ]
]

unfoldable pub load_status : StatusJson → StatusFile → Option NodeStatus
load_status json absent = none
load_status json unreadable = none
load_status json (written text) = json.from_text text

-- A byte offset at which a text can be cut: its end, or the first byte of a character.
unfoldable pub is_char_boundary : ℕ → Text → Bool
unfolding nat_eq
is_char_boundary i t =
    i == length t || (ltb i (length t) && (ltb (get_or t i 0) 128 || leb 192 (get_or t i 0)))

-- The first eight bytes of the key and the last four; to cut elsewhere than between characters is a
-- panic.
unfoldable pub short_key : Text → Option Text
unfolding is_char_boundary
short_key t =
    if leb 8 (length t) && (is_char_boundary 8 t && is_char_boundary (length t - 4) t)
    then some (take 8 t ++ (codes "..." ++ drop (length t - 4) t))
    else none

pub record StatusLines : Type 0 where
  pub hostname : Text
  pub address : Text
  pub interface : Text
  pub listen_port : ℕ
  pub gateway : Bool
  pub key : Text
  pub uptime : Text
  pub peers : Summary

unfoldable pub cmd_status : NodeStatus → Option StatusLines
unfolding short_key format_duration summary
cmd_status n = short_key n.public_key >>= λ key. some (record {
  hostname = n.hostname;
  address = n.address;
  interface = n.interface;
  listen_port = n.listen_port;
  gateway = n.gateway;
  key = key;
  uptime = format_duration n.uptime_secs;
  peers = summary n.peers;
})

-- The lines of the peers with the sums of the bytes received and sent. Without peers, it says so, and
-- `cmd_info` does not call it.
unfoldable pub cmd_peers : NodeStatus → Option (List PeerLine × ℕ × ℕ)
unfolding peer_lines total
cmd_peers n = elim n.peers [
  | [] ↦ none
  | _ ∷ _ ↦ some (
    peer_lines n.peers,
    total (λ (p : PeerStatus). p.rx_bytes) n.peers,
    total (λ (p : PeerStatus). p.tx_bytes) n.peers,
  )
]

pub data CtlCommand : Type 0 where
  show_status : CtlCommand
  list_servers : CtlCommand
  list_peers : CtlCommand
  show_info : CtlCommand
  purge : CtlCommand

-- What a purge finds: the file of the container routes, whether it can go, and the answer of
-- `pidof`.
pub record Surroundings : Type 0 where
  pub routes : Option Text
  pub is_removed : Bool
  pub pids : Option (List Text)

pub data Printed : Type 0 where
  status_printed : StatusLines → Printed
  servers_printed : ℕ × ℕ → List ServerLine → Printed
  peers_printed : Option (List PeerLine × ℕ × ℕ) → Printed
  info_printed : StatusLines → Option (List PeerLine × ℕ × ℕ) → Printed
  purged : Option Text × Option Command → Printed

abbrev cmd_info : NodeStatus → Option Printed
cmd_info n = cmd_status n >>= λ lines. some (info_printed lines (cmd_peers n))

abbrev ctl_command : Surroundings → CtlCommand → NodeStatus → Option Printed
ctl_command sur show_status n = cmd_status n >>= λ lines. some (status_printed lines)
ctl_command sur list_servers n = some (servers_printed (server_counts n.peers) (server_lines n))
ctl_command sur list_peers n = some (peers_printed (cmd_peers n))
ctl_command sur show_info n = cmd_info n
ctl_command sur purge n = some (purged (cmd_purge sur.routes sur.is_removed sur.pids))

-- Every command reads the status first.
unfoldable pub ctl_main : StatusJson → StatusFile → Surroundings → CtlCommand → Option Printed
unfolding load_status cmd_status server_counts server_lines cmd_peers cmd_purge
ctl_main json file sur command = load_status json file >>= ctl_command sur command
