-- ===== src/Daemon/Periodic.antt =====
-- The periodic tasks of the event loop of src/main.rs. Times are in nanoseconds, as in `Peer`;
-- the two route files are given by their text, or `none` where they cannot be read.
use wolf_net.Shared.{
  ℕ, true, false, ◌-◌, ◌*◌, Bool, List, [], ◌∷◌, ◌++◌, Option, none, some, if◌then◌else◌, ◌==◌,
  option_eq, ltb, lookup,
}
use wolf_net.Net.{Text, Ipv4Addr, ip_eq, SocketAddr, socket_eq}
use wolf_net.External.{External}
use wolf_net.Peer.{is_some}
use wolf_net.Manager.{PeerManager, all_ips, update_endpoint}
use wolf_net.Routes.{load_routes, load_subnet_routes}
use wolf_net.Pex.{parse_socket}
use wolf_net.Transport.Senders.{Datagram, send_handshakes, send_keepalives, send_peer_exchange}
use wolf_net.Daemon.{Node, World, resolve_endpoint}

pub record Timers : Type 0 where
  pub last_handshake : ℕ
  pub last_keepalive : ℕ
  pub last_pex : ℕ
  pub last_dns_resolve : ℕ
  pub last_route_reload : ℕ

pub record RouteFiles : Type 0 where
  pub routes : Option Text
  pub subnet_routes : Option Text

-- `since.elapsed() > Duration::from_secs(secs)`
abbrev pub is_due : ℕ → ℕ → ℕ → Bool
is_due now since secs = ltb (secs * 1_000_000_000) (now - since)

-- `with_peer_by_ip(&ip, |peer| peer.configured_endpoint.clone()).flatten()`
abbrev pub configured_of : Ipv4Addr → PeerManager → Option Text
configured_of ip m = elim (lookup ip m.peers_by_ip) [ none ↦ none | some p ↦ p.configured_endpoint ]

-- `with_peer_by_ip(&ip, |peer| peer.endpoint).flatten()`
abbrev pub endpoint_of : Ipv4Addr → PeerManager → Option SocketAddr
endpoint_of ip m = elim (lookup ip m.peers_by_ip) [ none ↦ none | some p ↦ p.endpoint ]

-- Only a host name is resolved again, not an address.
unfoldable pub re_resolve : External → Ipv4Addr → PeerManager → PeerManager
unfolding update_endpoint
re_resolve x ip m = elim (configured_of ip m) [
  | none ↦ m
  | some text ↦ if is_some (parse_socket x text) then m else elim (resolve_endpoint x text) [
    | none ↦ m
    | some addr ↦ if endpoint_of ip m == some addr then m else update_endpoint ip addr m
  ]
]

unfoldable pub re_resolve_all : External → List Ipv4Addr → PeerManager → PeerManager
unfolding re_resolve
re_resolve_all x [] m = m
re_resolve_all x (ip ∷ ips) m = re_resolve_all x ips (re_resolve x ip m)

-- A sender runs where it is due.
abbrev pub send_if : Bool → (PeerManager → PeerManager × List Datagram) → World → World
send_if false sender w = w
send_if true sender w =
    let (m, out) = sender w.manager in record w { manager = m; sent = w.sent ++ out }

abbrev pub load_route_files : External → RouteFiles → PeerManager → PeerManager
load_route_files x files m = load_subnet_routes x files.subnet_routes (load_routes x files.routes m)

-- Tasks 3 to 6b, in order, all at one time.
unfoldable pub run_periodic : External → Node → ℕ → RouteFiles → Timers × World → Timers × World
unfolding send_handshakes send_keepalives send_peer_exchange re_resolve_all all_ips
run_periodic x node now files (t, w) =
    let w1 =
      send_if (is_due now t.last_handshake 10)
        (send_handshakes x now node.keys node.wolfnet_ip node.listen_port node.hostname
          node.is_gateway)
        w in
    let w2 = send_if (is_due now t.last_keepalive 25) (send_keepalives x now node.keys) w1 in
    let w3 =
      send_if (is_due now t.last_pex 30) (send_peer_exchange x now node.keys node.wolfnet_ip) w2 in
    let m4 =
      if is_due now t.last_dns_resolve 60
      then re_resolve_all x (all_ips w3.manager) w3.manager
      else w3.manager in
    let m5 = if is_due now t.last_route_reload 15 then load_route_files x files m4 else m4 in
    (
      record {
        last_handshake = if is_due now t.last_handshake 10 then now else t.last_handshake;
        last_keepalive = if is_due now t.last_keepalive 25 then now else t.last_keepalive;
        last_pex = if is_due now t.last_pex 30 then now else t.last_pex;
        last_dns_resolve = if is_due now t.last_dns_resolve 60 then now else t.last_dns_resolve;
        last_route_reload = if is_due now t.last_route_reload 15 then now else t.last_route_reload;
      },
      record w3 { manager = m5 },
    )
