-- ===== src/Daemon/Run.antt =====
-- The whole event loop of src/main.rs, and the discovery listener of src/transport.rs beside it:
-- the daemon's state, its events and its runs. An event is one packet, one datagram, one pass of
-- the timers or one reload; between two events the clock may go forward.
pub mod Reached
pub mod Heard
pub mod Linking
use wolf_net.Shared.{◌∷◌}
use wolf_net.Shared.{ℕ, ◌≤◌, none, some, List, [], take}
use wolf_net.Net.{Bytes, ip_eq, SocketAddr}
use wolf_net.Config.{PeerConfig}
use wolf_net.Config.Files.{Toml, Files, load}
use wolf_net.External.{External}
use wolf_net.Manager.{new_manager, update_from_discovery}
use wolf_net.Transport.{discovery_announcement}
use wolf_net.Daemon.{Node, World}
use wolf_net.Daemon.Outbound.{handle_tun}
use wolf_net.Daemon.Inbound.{handle_datagram}
use wolf_net.Daemon.Periodic.{Timers, RouteFiles, run_periodic, load_route_files}
use wolf_net.Daemon.Reload.{add_configured, reload}

pub record State : Type 0 where
  pub clock : ℕ
  pub timers : Timers
  pub world : World

-- The peers of the configuration and the route files are loaded, and every timer starts now.
unfoldable pub start : External → Node → ℕ → List PeerConfig → RouteFiles → Bytes → State
unfolding add_configured new_manager
start x node now peers files send_buf = record {
  clock = now;
  timers = record {
    last_handshake = now;
    last_keepalive = now;
    last_pex = now;
    last_dns_resolve = now;
    last_route_reload = now;
  };
  world = record {
    manager = load_route_files x files (add_configured x now node.keys peers new_manager);
    send_buf = send_buf;
    sent = [];
    delivered = [];
  };
}

-- One datagram of the discovery socket, whose buffer holds 512 bytes.
unfoldable pub handle_discovery : External → Node → Bytes → SocketAddr → World → World
unfolding discovery_announcement update_from_discovery
handle_discovery x node packet src w =
    elim (discovery_announcement x node.hostname (take 512 packet) src) [
      | none ↦ w
      | some a ↦ record w { manager = update_from_discovery x a w.manager }
    ]

pub data Event : Type 0 where
  tun_packet : Bytes → Event
  datagram : Bytes → SocketAddr → Event
  discovery : Bytes → SocketAddr → Event
  timers_checked : RouteFiles → Event
  hangup : Files → RouteFiles → Event

-- An event at the present time; an empty datagram is not handled, and neither is a SIGHUP with a
-- configuration that does not load.
unfoldable pub react : External → Toml → Node → Event → State → State
unfolding handle_tun handle_datagram handle_discovery run_periodic reload load
react x toml node (tun_packet packet) s = record s {
  world = handle_tun x node s.clock packet s.world;
}
react x toml node (datagram [] src) s = s
react x toml node (datagram (b ∷ packet) src) s = record s {
  world = handle_datagram x node s.clock (b ∷ packet) src s.world;
}
react x toml node (discovery packet src) s = record s {
  world = handle_discovery x node packet src s.world;
}
react x toml node (timers_checked files) s =
    let (t, w) = run_periodic x node s.clock files (s.timers, s.world) in
    record s { timers = t; world = w }
react x toml node (hangup files routes) s = elim (load x toml files).0 [
  | none ↦ s
  | some config ↦
      let m = reload x s.clock node.keys config.peers routes s.world.manager in
      record s { world = record s.world { manager = m } }
]

-- The states of a run that starts from one state.
pub data Reach (x : External) (toml : Toml) (node : Node) (s : State) : State → Type 0 where
  begin : Reach x toml node s s
  wait :
      (t : State) (later : ℕ)
      → t.clock ≤ later
      → Reach x toml node s t
      → Reach x toml node s (record t { clock = later })
  then :
      (t : State) (e : Event) → Reach x toml node s t → Reach x toml node s (react x toml node e t)
