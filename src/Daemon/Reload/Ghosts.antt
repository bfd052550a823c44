-- ===== src/Daemon/Reload/Ghosts.antt =====
-- Which peers a reload of src/main.rs drops from the table that the configuration was applied to.
use wolf_net.Shared.{
  ℕ, ◌≡◌, ◌⊎◌, inl, inr, refl, ◌∙◌, ap, arith, true, false, Bool-cases, List, [], ◌∷◌, Option, none,
  some, Option-cases, Dict, keys, lookup,
}
use mathlib.Core.Option.{none-ne-some}
use wolf_net.Net.{Text, Ipv4Addr, ip_eq, SocketAddr, socket_eq}
use wolf_net.External.{External}
use wolf_net.Crypto.{KeyPair}
use wolf_net.Config.{PeerConfig}
use wolf_net.Peer.{Peer, is_connected}
use wolf_net.Manager.{PeerManager, contains, all_ips}
use wolf_net.Routes.{load_routes, load_subnet_routes}
use wolf_net.Daemon.Periodic.{RouteFiles, load_route_files}
use wolf_net.Daemon.Reload.{
  reload, reload_peers, purge_ghosts, configured_ips, configured_endpoints, is_ghost,
}
use wolf_net.Daemon.Reload.Purge.{purge_ghosts-lookup}

-- A peer of its own: connected, without a relay, at no endpoint of the configuration.
abbrev pub StandsAlone : ℕ → List SocketAddr → Peer → Type 0
StandsAlone now endpoints p =
    (is_connected now p ≡ true)
    × (p.relay_via ≡ none)
    × ((p.endpoint ≡ none)
        ⊎ ((ep : SocketAddr) × (p.endpoint ≡ some ep) × (contains endpoints ep ≡ false)))

-- A ghost: not connected, or behind a relay, or at an endpoint of the configuration.
abbrev pub IsGhost : ℕ → List SocketAddr → Peer → Type 0
IsGhost now endpoints p =
    (is_connected now p ≡ false)
    ⊎ (((relay : Ipv4Addr) × (p.relay_via ≡ some relay))
        ⊎ ((ep : SocketAddr) × (p.endpoint ≡ some ep) × (contains endpoints ep ≡ true)))

is_ghost_cases :
    (now : ℕ) (endpoints : List SocketAddr) (p : Peer)
    → ((is_ghost now endpoints p ≡ false) × StandsAlone now endpoints p)
      ⊎ ((is_ghost now endpoints p ≡ true) × IsGhost now endpoints p)
unfolding is_ghost
is_ghost_cases now endpoints p = elim (Bool-cases (is_connected now p)) [
  | inr off ↦ inr (rw off (ground arith), inl off)
  | inl on ↦ elim (Option-cases p.relay_via) [
    | inr (relay, e) ↦ inr (rw (on, e) refl, inr (inl (relay, e)))
    | inl direct ↦ elim (Option-cases p.endpoint) [
      | inl nowhere ↦ inl (rw (on, direct, nowhere) refl, (on, direct, inl nowhere))
      | inr (ep, e) ↦ elim (Bool-cases (contains endpoints ep)) [
        | inl among ↦ inr (rw (on, direct, e, among) refl, inr (inr (ep, e, among)))
        | inr own ↦ inl (rw (on, direct, e, own) refl, (on, direct, inr (ep, e, own)))
      ]
    ]
  ]
]

contains-keys :
    (ip : Ipv4Addr) (d : Dict Ipv4Addr Peer) (p : Peer)
    → lookup ip d ≡ some p
    → contains (keys d) ip ≡ true
unfolding contains keys lookup
contains-keys ip [] p h = absurd (none-ne-some p h)
contains-keys ip ((k, q) ∷ d) p h = elim (ip_eq.dec ip k) [
  | yes same ↦ ground arith
  | no apart ↦ ground (arith, contains-keys ip d p)
]

-- The purge at one address of the table.
purged_or_kept :
    (now : ℕ) (ips : List Ipv4Addr) (endpoints : List SocketAddr) (m : PeerManager) (ip : Ipv4Addr)
    (p : Peer)
    → lookup ip m.peers_by_ip ≡ some p
    → let after = lookup ip (purge_ghosts now ips endpoints (all_ips m) m).peers_by_ip in
      ((contains ips ip ≡ true) × (after ≡ some p))
      ⊎ (((contains ips ip ≡ false) × StandsAlone now endpoints p × (after ≡ some p))
          ⊎ ((contains ips ip ≡ false) × IsGhost now endpoints p × (after ≡ none)))
unfolding all_ips
purged_or_kept now ips endpoints m ip p here =
    let there = contains-keys ip m.peers_by_ip p here in
    let at = purge_ghosts-lookup now ips endpoints (keys m.peers_by_ip) m ip in
    elim (Bool-cases (contains ips ip)) [
      | inl named ↦ inl (named, at ∙ rw (there, named, here) refl)
      | inr other ↦ elim (is_ghost_cases now endpoints p) [
        | inl (alive, alone) ↦ inr (inl (other, alone, at ∙ rw (here, there, other, alive) refl))
        | inr (dead, ghost) ↦ inr (inr (other, ghost, at ∙ rw (here, there, other, dead) refl))
      ]
    ]

load_routes-peers :
    (x : External) (file : Option Text) (m : PeerManager)
    → (load_routes x file m).peers_by_ip ≡ m.peers_by_ip
unfolding load_routes
load_routes-peers x none m = refl
load_routes-peers x (some content) m = elim (Option-cases (x.map_of_json content)) [
  | inl e ↦ rw (e, load_routes) refl
  | inr (map, e) ↦ rw (e, load_routes) refl
]

load_subnet_routes-peers :
    (x : External) (file : Option Text) (m : PeerManager)
    → (load_subnet_routes x file m).peers_by_ip ≡ m.peers_by_ip
unfolding load_subnet_routes
load_subnet_routes-peers x none m = refl
load_subnet_routes-peers x (some content) m = elim (Option-cases (x.map_of_json content)) [
  | inl e ↦ rw (e, load_subnet_routes) refl
  | inr (map, e) ↦ rw (e, load_subnet_routes) refl
]

-- The route files say nothing of the peers.
load_route_files-lookup :
    (x : External) (files : RouteFiles) (m : PeerManager) (ip : Ipv4Addr)
    → lookup ip (load_route_files x files m).peers_by_ip ≡ lookup ip m.peers_by_ip
load_route_files-lookup x files m ip = ap (lookup ip) (
    load_subnet_routes-peers x files.subnet_routes (load_routes x files.routes m)
    ∙ load_routes-peers x files.routes m)

-- A reload first applies the configuration's entries, and then drops ghosts: a peer that is in the
-- table at that point stays as it is if its address is configured, or if it is connected, without a
-- relay and at no endpoint of the configuration; and its address is empty afterwards if it is not
-- configured and the peer is not connected, or has a relay, or is at an endpoint of the configuration.
pub reload_drops_ghosts :
    (x : External) (now : ℕ) (me : KeyPair) (peers : List PeerConfig) (files : RouteFiles)
    (m : PeerManager) (ip : Ipv4Addr) (p : Peer)
    → lookup ip (reload_peers x now me (all_ips m) peers m).peers_by_ip ≡ some p
    → let ips = configured_ips peers in
      let endpoints = configured_endpoints x peers in
      let after = lookup ip (reload x now me peers files m).peers_by_ip in
      ((contains ips ip ≡ true) × (after ≡ some p))
      ⊎ (((contains ips ip ≡ false) × StandsAlone now endpoints p × (after ≡ some p))
          ⊎ ((contains ips ip ≡ false) × IsGhost now endpoints p × (after ≡ none)))
unfolding reload
reload_drops_ghosts x now me peers files m ip p here =
    let applied = reload_peers x now me (all_ips m) peers m in
    let purged =
      purge_ghosts now (configured_ips peers) (configured_endpoints x peers) (all_ips applied)
        applied in
    let same = load_route_files-lookup x files purged ip in
    elim (purged_or_kept now (configured_ips peers) (configured_endpoints x peers) applied ip p
      here) [
        | inl (named, kept) ↦ inl (named, same ∙ kept)
        | inr (inl (other, alone, kept)) ↦ inr (inl (other, alone, same ∙ kept))
        | inr (inr (other, ghost, gone)) ↦ inr (inr (other, ghost, same ∙ gone))
      ]
