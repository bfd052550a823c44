-- ===== src/Daemon/Health/Reloading.antt =====
-- The configured peers and the reload of src/main.rs on a table of healthy peers.
use wolf_net.Shared.{sym}
use wolf_net.Daemon.Reload.{configured_endpoints}
use wolf_net.Shared.{subst}
use wolf_net.Daemon.Reload.{configured_ips}
use wolf_net.Shared.{
  ℕ, bytes_eq, Bool, Bool-cases, true, false, List, [], ◌∷◌, some, Option-cases, inl, inr, lookup,
  if◌then◌else◌, ◌==◌, ◌||◌, option_eq,
}
use wolf_net.Net.{Bytes, Ipv4Addr, ip_eq, SocketAddr, socket_eq}
use wolf_net.Config.{PeerConfig}
use wolf_net.External.{External}
use wolf_net.Crypto.{KeyPair}
use wolf_net.Peer.{Peer, new_peer}
use wolf_net.Peer.Health.{IsHealthy, new_peer-IsHealthy, establish_session-IsHealthy}
use wolf_net.Manager.{PeerManager, all_ips, contains, add_peer, purge_peer, update_endpoint}
use wolf_net.Manager.Health.{
  AreHealthy, with_peer_by_ip-AreHealthy, update_endpoint-AreHealthy, clear_endpoint-AreHealthy,
  add_peer-AreHealthy, purge_peer-AreHealthy,
}
use wolf_net.Daemon.{resolve_endpoint}
use wolf_net.Daemon.Periodic.{RouteFiles, endpoint_of}
use wolf_net.Daemon.Reload.{
  configured_peer, or_empty, resolved, peer_of_config, add_configured, with_configured,
  reload_endpoint, renamed, reload_name, reload_peers, purge_ghosts, is_spared, reload,
}
use wolf_net.Daemon.Health.Tasks.{load_route_files-AreHealthy}

module _ (x : External) (me : KeyPair) (now : ℕ) where
  configured_peer-IsHealthy :
      (pc : PeerConfig) (key : Bytes) (ip : Ipv4Addr)
      → IsHealthy x me now ip (configured_peer x now me pc key ip)
  unfolding configured_peer
  configured_peer-IsHealthy pc key ip =
      let p : Peer = record (new_peer x key ip) {
        hostname = or_empty pc.name;
        configured_endpoint = pc.endpoint;
        endpoint = resolved x pc.endpoint;
      } in
      establish_session-IsHealthy x me now ip p (new_peer-IsHealthy x me now ip key)

  add_configured_peer-AreHealthy :
      (pc : PeerConfig) (key : Bytes) (ip : Ipv4Addr) (m : PeerManager)
      → AreHealthy x me now m
      → AreHealthy x me now (add_peer (configured_peer x now me pc key ip) m)
  add_configured_peer-AreHealthy pc key ip m all =
      let p = configured_peer x now me pc key ip in
      let good = configured_peer-IsHealthy pc key ip in
      add_peer-AreHealthy x me now m p all (subst (λ i. IsHealthy x me now i p) (sym good.0) good)

  pub add_configured-AreHealthy :
      (peers : List PeerConfig) (m : PeerManager)
      → AreHealthy x me now m
      → AreHealthy x me now (add_configured x now me peers m)
  unfolding add_configured
  add_configured-AreHealthy [] m all = all
  add_configured-AreHealthy (pc ∷ peers) m all = elim (Option-cases (peer_of_config x pc)) [
    | inl e ↦ rw (e, add_configured) (add_configured-AreHealthy peers m all)
    | inr ((key, ip), e) ↦
        rw (e, add_configured)
          (add_configured-AreHealthy peers (add_peer (configured_peer x now me pc key ip) m)
            (add_configured_peer-AreHealthy pc key ip m all))
  ]

  reload_endpoint-AreHealthy :
      (pc : PeerConfig) (ip : Ipv4Addr) (m : PeerManager)
      → AreHealthy x me now m
      → AreHealthy x me now (reload_endpoint x pc ip m)
  unfolding reload_endpoint
  reload_endpoint-AreHealthy pc ip m all = elim (Option-cases pc.endpoint) [
    | inl e ↦ rw (e, reload_endpoint) (clear_endpoint-AreHealthy x me now m ip all)
    | inr (ep, e) ↦ elim (Option-cases (resolve_endpoint x ep)) [
      | inl f ↦ rw (e, f, reload_endpoint) all
      | inr (addr, f) ↦ elim (Bool-cases (endpoint_of ip m == some addr)) [
        | inl same ↦ rw (e, f, same, reload_endpoint) all
        | inr other ↦
            rw (e, f, other, reload_endpoint)
              (with_peer_by_ip-AreHealthy x me now (update_endpoint ip addr m) ip
                (with_configured ep) (update_endpoint-AreHealthy x me now m ip addr all) (λ p h. h))
      ]
    ]
  ]

  reload_name-AreHealthy :
      (pc : PeerConfig) (ip : Ipv4Addr) (m : PeerManager)
      → AreHealthy x me now m
      → AreHealthy x me now (reload_name pc ip m)
  unfolding reload_name
  reload_name-AreHealthy pc ip m all = elim (Bool-cases (or_empty pc.name == [])) [
    | inl unnamed ↦ rw (unnamed, reload_name) all
    | inr named ↦
        rw (named, reload_name)
          (with_peer_by_ip-AreHealthy x me now m ip (renamed (or_empty pc.name)) all (λ p h. h))
  ]

  reload_peers-AreHealthy :
      (existing : List Ipv4Addr) (peers : List PeerConfig) (m : PeerManager)
      → AreHealthy x me now m
      → AreHealthy x me now (reload_peers x now me existing peers m)
  unfolding reload_peers
  reload_peers-AreHealthy existing [] m all = all
  reload_peers-AreHealthy existing (pc ∷ peers) m all = elim (Option-cases (peer_of_config x pc)) [
    | inl e ↦ rw (e, reload_peers) (reload_peers-AreHealthy existing peers m all)
    | inr ((key, ip), e) ↦ elim (Bool-cases (contains existing ip)) [
      | inl old ↦
          rw (e, old, reload_peers)
            (reload_peers-AreHealthy existing peers (reload_name pc ip (reload_endpoint x pc ip m))
              (reload_name-AreHealthy pc ip (reload_endpoint x pc ip m)
                (reload_endpoint-AreHealthy pc ip m all)))
      | inr new ↦
          rw (e, new, reload_peers)
            (reload_peers-AreHealthy existing peers
              (add_peer (configured_peer x now me pc key ip) m)
              (add_configured_peer-AreHealthy pc key ip m all))
    ]
  ]

  if_purged :
      (b : Bool) (ip : Ipv4Addr) (m : PeerManager)
      → AreHealthy x me now m
      → AreHealthy x me now (if b then m else purge_peer ip m)
  if_purged true ip m all = all
  if_purged false ip m all = purge_peer-AreHealthy x me now m ip all

  purge_ghosts-AreHealthy :
      (ips : List Ipv4Addr) (endpoints : List SocketAddr) (runtime : List Ipv4Addr)
      (m : PeerManager)
      → AreHealthy x me now m
      → AreHealthy x me now (purge_ghosts now ips endpoints runtime m)
  unfolding purge_ghosts
  purge_ghosts-AreHealthy ips endpoints [] m all = all
  purge_ghosts-AreHealthy ips endpoints (ip ∷ runtime) m all =
      let kept = contains ips ip || is_spared now endpoints (lookup ip m.peers_by_ip) in
      purge_ghosts-AreHealthy ips endpoints runtime (if kept then m else purge_peer ip m)
        (if_purged kept ip m all)

  pub reload-AreHealthy :
      (peers : List PeerConfig) (files : RouteFiles) (m : PeerManager)
      → AreHealthy x me now m
      → AreHealthy x me now (reload x now me peers files m)
  unfolding reload
  reload-AreHealthy peers files m all =
      let m1 = reload_peers x now me (all_ips m) peers m in
      load_route_files-AreHealthy x me now files _ (
        purge_ghosts-AreHealthy (configured_ips peers) (configured_endpoints x peers) (all_ips m1)
          m1 (reload_peers-AreHealthy (all_ips m) peers m all))
