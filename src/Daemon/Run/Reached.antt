-- ===== src/Daemon/Run/Reached.antt =====
-- The peer table in every state that the daemon of src/main.rs reaches.
use wolf_net.Shared.{
  ℕ, ◌≡◌, some, Option-cases, inl, inr, List, [], ◌∷◌, take, lookup, NodupKeys, true,
}
use wolf_net.Net.{Bytes, Ipv4Addr, ip_eq, SocketAddr}
use wolf_net.Config.{PeerConfig}
use wolf_net.Config.Files.{Toml, load}
use wolf_net.External.{External}
use wolf_net.Peer.{Peer, is_connected, is_passing_data}
use wolf_net.Peer.Health.{IsHealthy, passing_is_connected}
use wolf_net.Manager.{new_manager}
use wolf_net.Manager.Health.{
  new_manager-AreHealthy, later-AreHealthy, update_from_discovery-AreHealthy,
}
use wolf_net.Transport.{discovery_announcement}
use wolf_net.Daemon.{Node, World}
use wolf_net.Daemon.Periodic.{RouteFiles}
use wolf_net.Daemon.Reload.{add_configured}
use wolf_net.Daemon.Health.Sending.{Healthy, send_to_peer-Healthy, handle_tun_keeps}
use wolf_net.Daemon.Health.Receiving.{handle_datagram-Healthy}
use wolf_net.Daemon.Health.Tasks.{run_periodic-Healthy, load_route_files-AreHealthy}
use wolf_net.Daemon.Health.Reloading.{add_configured-AreHealthy, reload-AreHealthy}
use wolf_net.Daemon.Run.{
  State, start, handle_discovery, Event, tun_packet, datagram, discovery, timers_checked, hangup,
  react, Reach,
}

module _ (x : External) (node : Node) where
  abbrev HealthyState : State → Type 0
  HealthyState s = Healthy x node s.clock s.world

  start-HealthyState :
      (now : ℕ) (peers : List PeerConfig) (files : RouteFiles) (buf : Bytes)
      → HealthyState (start x node now peers files buf)
  unfolding start
  start-HealthyState now peers files buf =
      load_route_files-AreHealthy x node.keys now files
        (add_configured x now node.keys peers new_manager)
        (add_configured-AreHealthy x node.keys now peers new_manager
          (new_manager-AreHealthy x node.keys now))

  handle_discovery-Healthy :
      (now : ℕ) (packet : Bytes) (src : SocketAddr) (w : World)
      → Healthy x node now w
      → Healthy x node now (handle_discovery x node packet src w)
  unfolding handle_discovery
  handle_discovery-Healthy now packet src w all =
      elim (Option-cases (discovery_announcement x node.hostname (take 512 packet) src)) [
        | inl e ↦ rw (e, handle_discovery) all
        | inr (a, e) ↦
            rw (e, handle_discovery)
              (update_from_discovery-AreHealthy x node.keys now w.manager a all)
      ]

  react-HealthyState :
      (toml : Toml) (e : Event) (s : State) → HealthyState s → HealthyState (react x toml node e s)
  unfolding react
  react-HealthyState toml (tun_packet packet) s all =
      handle_tun_keeps (Healthy x node s.clock) x node s.clock (send_to_peer-Healthy x node s.clock)
        packet s.world all
  react-HealthyState toml (datagram [] src) s all = all
  react-HealthyState toml (datagram (b ∷ packet) src) s all =
      handle_datagram-Healthy x node s.clock (b ∷ packet) src s.world all
  react-HealthyState toml (discovery packet src) s all =
      handle_discovery-Healthy s.clock packet src s.world all
  react-HealthyState toml (timers_checked files) s all =
      run_periodic-Healthy x node s.clock files s.timers s.world all
  react-HealthyState toml (hangup files routes) s all = elim (Option-cases (load x toml files).0) [
    | inl e ↦ rw (e, react) all
    | inr (config, e) ↦
        rw (e, react)
          (reload-AreHealthy x node.keys s.clock config.peers routes s.world.manager all)
  ]

  Reach-HealthyState :
      (toml : Toml) (s t : State) → HealthyState s → Reach x toml node s t → HealthyState t
  Reach-HealthyState toml s _ all Reach.begin = all
  Reach-HealthyState toml s _ all (Reach.wait t later le r) =
      later-AreHealthy x node.keys t.clock later t.world.manager le
        (Reach-HealthyState toml s t all r)
  Reach-HealthyState toml s _ all (Reach.then t e r) =
      react-HealthyState toml e t (Reach-HealthyState toml s t all r)

-- Whatever packets, datagrams, announcements, timers and reloads the daemon has handled since its
-- start, and however the clock has moved forward: every peer in its table stands under its own
-- address, has the id of its public key, has no session but one under the key and the side that
-- this node and that public key give, and has no data packet from later than its last sign of life
-- or than the present.
pub reached-IsHealthy :
    (x : External) (toml : Toml) (node : Node) (now : ℕ) (peers : List PeerConfig)
    (files : RouteFiles) (buf : Bytes) (s : State) (ip : Ipv4Addr) (p : Peer)
    → Reach x toml node (start x node now peers files buf) s
    → lookup ip s.world.manager.peers_by_ip ≡ some p
    → IsHealthy x node.keys s.clock ip p
reached-IsHealthy x toml node now peers files buf s ip p run here =
    (Reach-HealthyState x node toml (start x node now peers files buf) s
        (start-HealthyState x node now peers files buf) run).1
      ip p here

-- In such a state no address stands twice in the table.
pub reached-NodupKeys :
    (x : External) (toml : Toml) (node : Node) (now : ℕ) (peers : List PeerConfig)
    (files : RouteFiles) (buf : Bytes) (s : State)
    → Reach x toml node (start x node now peers files buf) s
    → NodupKeys s.world.manager.peers_by_ip
reached-NodupKeys x toml node now peers files buf s run =
    (Reach-HealthyState x node toml (start x node now peers files buf) s
      (start-HealthyState x node now peers files buf) run).0

-- In every state that the daemon reaches, a peer in its table whose data flows is connected.
pub reached_passing_is_connected :
    (x : External) (toml : Toml) (node : Node) (now : ℕ) (peers : List PeerConfig)
    (files : RouteFiles) (buf : Bytes) (s : State) (ip : Ipv4Addr) (p : Peer)
    → Reach x toml node (start x node now peers files buf) s
    → lookup ip s.world.manager.peers_by_ip ≡ some p
    → is_passing_data s.clock p ≡ true
    → is_connected s.clock p ≡ true
reached_passing_is_connected x toml node now peers files buf s ip p run here passing =
    passing_is_connected x node.keys s.clock ip p
      (reached-IsHealthy x toml node now peers files buf s ip p run here) passing
