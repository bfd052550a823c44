-- ===== src/Daemon/Reload/Dropped.antt =====
-- What a reload of src/main.rs does to the routes, where the file of the container routes is gone.
use wolf_net.Shared.{
  ℕ, ◌≡◌, refl, ap, ◌∙◌, List, [], ◌∷◌, ◌||◌, Option, none, some, lookup, Option-cases, Bool-cases,
  inl, inr, ◌==◌, option_eq, bytes_eq,
}
use wolf_net.Net.{Text, Ipv4Addr, ip_eq, SocketAddr, socket_eq}
use wolf_net.External.{External}
use wolf_net.Crypto.{KeyPair}
use wolf_net.Peer.{Peer}
use wolf_net.Config.{PeerConfig}
use wolf_net.Manager.{
  PeerManager, contains, all_ips, add_peer, remove_peer, purge_peer, with_peer_by_ip,
  update_endpoint, clear_endpoint, find_route,
}
use wolf_net.Routes.{load_routes, load_subnet_routes}
use wolf_net.Daemon.{resolve_endpoint}
use wolf_net.Daemon.Periodic.{RouteFiles, endpoint_of}
use wolf_net.Daemon.Reload.{
  reload, reload_peers, reload_endpoint, reload_name, purge_ghosts, peer_of_config, configured_peer,
  configured_ips, configured_endpoints, or_empty, is_spared,
}

-- The table of container routes is the same.
SameRoutes : PeerManager → PeerManager → Type 0
SameRoutes after before = after.subnet_routes ≡ before.subnet_routes

remove_peer-SameRoutes : (ip : Ipv4Addr) (m : PeerManager) → SameRoutes (remove_peer ip m) m
unfolding SameRoutes remove_peer
remove_peer-SameRoutes ip m = elim (Option-cases (lookup ip m.peers_by_ip)) [
  | inl e ↦ rw (e, remove_peer) refl
  | inr (p, e) ↦ rw (e, remove_peer) refl
]

with_peer_by_ip-SameRoutes {ℓ} :
    {R : Type ℓ} (ip : Ipv4Addr) (f : Peer → Peer × R) (m : PeerManager)
    → SameRoutes (with_peer_by_ip ip f m).0 m
unfolding SameRoutes with_peer_by_ip
with_peer_by_ip-SameRoutes ip f m = elim (Option-cases (lookup ip m.peers_by_ip)) [
  | inl e ↦ rw (e, with_peer_by_ip) refl
  | inr (p, e) ↦ rw (e, with_peer_by_ip) refl
]

update_endpoint-SameRoutes :
    (ip : Ipv4Addr) (ep : SocketAddr) (m : PeerManager) → SameRoutes (update_endpoint ip ep m) m
unfolding SameRoutes update_endpoint
update_endpoint-SameRoutes ip ep m = elim (Option-cases (lookup ip m.peers_by_ip)) [
  | inl e ↦ rw (e, update_endpoint) refl
  | inr (p, e) ↦ rw (e, update_endpoint) refl
]

clear_endpoint-SameRoutes : (ip : Ipv4Addr) (m : PeerManager) → SameRoutes (clear_endpoint ip m).0 m
unfolding SameRoutes clear_endpoint
clear_endpoint-SameRoutes ip m = elim (Option-cases (lookup ip m.peers_by_ip)) [
  | inl e ↦ rw (e, clear_endpoint) refl
  | inr (p, e) ↦ rw (e, clear_endpoint) refl
]

reload_endpoint-SameRoutes :
    (x : External) (pc : PeerConfig) (ip : Ipv4Addr) (m : PeerManager)
    → SameRoutes (reload_endpoint x pc ip m) m
unfolding reload_endpoint SameRoutes
reload_endpoint-SameRoutes x pc ip m = elim (Option-cases pc.endpoint) [
  | inl e ↦ rw (e, reload_endpoint) (clear_endpoint-SameRoutes ip m)
  | inr (ep, e) ↦ elim (Option-cases (resolve_endpoint x ep)) [
    | inl f ↦ rw (e, reload_endpoint, f) refl
    | inr (addr, f) ↦ elim (Bool-cases (endpoint_of ip m == some addr)) [
      | inl same ↦ rw (e, reload_endpoint, f, same) refl
      | inr other ↦
          rw (e, reload_endpoint, f, other)
            (with_peer_by_ip-SameRoutes ip _ (update_endpoint ip addr m)
              ∙ update_endpoint-SameRoutes ip addr m)
    ]
  ]
]

reload_name-SameRoutes :
    (pc : PeerConfig) (ip : Ipv4Addr) (m : PeerManager) → SameRoutes (reload_name pc ip m) m
unfolding reload_name SameRoutes
reload_name-SameRoutes pc ip m = elim (Bool-cases (or_empty pc.name == [])) [
  | inl e ↦ rw (e, reload_name) refl
  | inr e ↦ rw (e, reload_name) (with_peer_by_ip-SameRoutes ip _ m)
]

reload_peers-SameRoutes :
    (x : External) (now : ℕ) (me : KeyPair) (existing : List Ipv4Addr) (peers : List PeerConfig)
    (m : PeerManager)
    → SameRoutes (reload_peers x now me existing peers m) m
unfolding reload_peers SameRoutes add_peer
reload_peers-SameRoutes x now me existing [] m = refl
reload_peers-SameRoutes x now me existing (pc ∷ peers) m =
    elim (Option-cases (peer_of_config x pc)) [
      | inl e ↦ rw (e, reload_peers) (reload_peers-SameRoutes x now me existing peers m)
      | inr ((key, ip), e) ↦ elim (Bool-cases (contains existing ip)) [
        | inl known ↦
            rw (e, reload_peers, known)
              (reload_peers-SameRoutes x now me existing peers
                  (reload_name pc ip (reload_endpoint x pc ip m))
                ∙ reload_name-SameRoutes pc ip (reload_endpoint x pc ip m)
                ∙ reload_endpoint-SameRoutes x pc ip m)
        | inr fresh ↦
            rw (e, reload_peers, fresh)
              (reload_peers-SameRoutes x now me existing peers
                (add_peer (configured_peer x now me pc key ip) m))
      ]
    ]

purge_ghosts-SameRoutes :
    (now : ℕ) (ips : List Ipv4Addr) (endpoints : List SocketAddr) (runtime : List Ipv4Addr)
    (m : PeerManager)
    → SameRoutes (purge_ghosts now ips endpoints runtime m) m
unfolding purge_ghosts SameRoutes purge_peer
purge_ghosts-SameRoutes now ips endpoints [] m = refl
purge_ghosts-SameRoutes now ips endpoints (ip ∷ runtime) m =
    elim (Bool-cases (contains ips ip || is_spared now endpoints (lookup ip m.peers_by_ip))) [
      | inl kept ↦ rw (purge_ghosts, kept) (purge_ghosts-SameRoutes now ips endpoints runtime m)
      | inr gone ↦
          rw (purge_ghosts, gone)
            (purge_ghosts-SameRoutes now ips endpoints runtime (purge_peer ip m)
              ∙ remove_peer-SameRoutes ip m)
    ]

load_subnet_routes-SameRoutes :
    (x : External) (file : Option Text) (m : PeerManager)
    → SameRoutes (load_subnet_routes x file m) m
unfolding SameRoutes load_subnet_routes
load_subnet_routes-SameRoutes x none m = refl
load_subnet_routes-SameRoutes x (some content) m = elim (Option-cases (x.map_of_json content)) [
  | inl e ↦ rw (e, load_subnet_routes) refl
  | inr (map, e) ↦ rw (e, load_subnet_routes) refl
]

-- A reload that finds no file of container routes keeps every container route.
pub reload-find_route :
    (x : External) (now : ℕ) (me : KeyPair) (peers : List PeerConfig) (files : RouteFiles)
    (m : PeerManager) (dest : Ipv4Addr)
    → files.routes ≡ none
    → find_route dest (reload x now me peers files m) ≡ find_route dest m
unfolding reload find_route load_routes SameRoutes
reload-find_route x now me peers files m dest gone =
    let m1 = reload_peers x now me (all_ips m) peers m in
    let m2 =
      purge_ghosts now (configured_ips peers) (configured_endpoints x peers) (all_ips m1) m1 in
    rw gone (
      ap (lookup dest) (
        load_subnet_routes-SameRoutes x files.subnet_routes m2
        ∙ purge_ghosts-SameRoutes now (configured_ips peers) (configured_endpoints x peers)
            (all_ips m1) m1
        ∙ reload_peers-SameRoutes x now me (all_ips m) peers m))
