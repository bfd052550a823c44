-- ===== src/Daemon/Reload/Pinning.antt =====
-- Which peers the reload of src/main.rs pins to the endpoint of the configuration.
use wolf_net.Shared.{sym, inl, inr, Bool-cases}
use wolf_net.Daemon.Periodic.{endpoint_of}
use wolf_net.Daemon.Reload.{with_configured}
use wolf_net.Shared.{Bool-cases}
use wolf_net.Shared.{
  ◌≡◌, ◌≢◌, refl, ◌∙◌, true, false, none, some, lookup, lookup-insert_self, if◌then◌else◌,
  option_eq,
}
use mathlib.Core.Logic.{if_pos, if_neg}
use wolf_net.Net.{Text, Ipv4Addr, ip_eq, SocketAddr, socket_eq}
use wolf_net.Config.{PeerConfig}
use wolf_net.External.{External}
use wolf_net.Peer.{Peer, is_some}
use wolf_net.Manager.{
  find_ip_by_endpoint, remove_changed, PeerManager, update_endpoint, update_endpoint_if_roaming,
  with_peer_by_ip,
}
use wolf_net.Daemon.{resolve_endpoint}
use wolf_net.Daemon.Reload.{reload_endpoint}

-- A pinned peer refuses a roamed source, and any other takes it.
roams :
    (ip : Ipv4Addr) (src : SocketAddr) (m : PeerManager) (p : Peer)
    → lookup ip m.peers_by_ip ≡ some p
    → (update_endpoint_if_roaming ip src m).1
      ≡ (if is_some p.configured_endpoint then false else true)
unfolding update_endpoint_if_roaming
roams ip src m p h = elim (Bool-cases (is_some p.configured_endpoint)) [
  | inl pinned ↦ rw (h, update_endpoint_if_roaming, pinned) refl
  | inr free ↦ rw (h, update_endpoint_if_roaming, free) refl
]

endpoint_at :
    (ip : Ipv4Addr) (m : PeerManager) (p : Peer)
    → lookup ip m.peers_by_ip ≡ some p
    → endpoint_of ip m ≡ p.endpoint
endpoint_at ip m p h = rw (h, endpoint_of) refl

pinned_at :
    (ip : Ipv4Addr) (addr : SocketAddr) (text : Text) (m : PeerManager) (p : Peer)
    → lookup ip m.peers_by_ip ≡ some p
    → lookup ip
        (with_peer_by_ip ip (with_configured text) (update_endpoint ip addr m)).0.peers_by_ip
      ≡ some (record p { endpoint = some addr; configured_endpoint = some text })
unfolding update_endpoint with_peer_by_ip
pinned_at ip addr text m p h =
    let moved : lookup ip (update_endpoint ip addr m).peers_by_ip
        ≡ some (record p { endpoint = some addr }) =
      rw (h, update_endpoint) (lookup-insert_self ip _ m.peers_by_ip) in
    rw (moved, with_peer_by_ip) (lookup-insert_self ip _ (update_endpoint ip addr m).peers_by_ip)

free_moves :
    (ip : Ipv4Addr) (src : SocketAddr) (m : PeerManager) (p : Peer)
    → lookup ip m.peers_by_ip ≡ some p
    → is_some p.configured_endpoint ≡ false
    → let after = (update_endpoint_if_roaming ip src m).0 in
      (lookup ip after.peers_by_ip ≡ some (record p { endpoint = some src }))
      × (find_ip_by_endpoint src after ≡ some ip)
unfolding update_endpoint_if_roaming find_ip_by_endpoint
free_moves ip src m p here free =
    rw (here, update_endpoint_if_roaming, free)
      (
        lookup-insert_self ip (record p { endpoint = some src }) m.peers_by_ip,
        lookup-insert_self src ip (remove_changed p.endpoint src m.endpoint_to_ip),
      )

-- After a reload that gives a known peer an endpoint other than its current one, the peer is
-- pinned: no roamed source moves it.
pub reload_pins :
    (x : External) (pc : PeerConfig) (ip : Ipv4Addr) (m : PeerManager) (p : Peer) (text : Text)
    (addr src : SocketAddr)
    → lookup ip m.peers_by_ip ≡ some p
    → pc.endpoint ≡ some text
    → resolve_endpoint x text ≡ some addr
    → p.endpoint ≢ some addr
    → (update_endpoint_if_roaming ip src (reload_endpoint x pc ip m)).1 ≡ false
unfolding reload_endpoint
reload_pins x pc ip m p text addr src here named resolves other =
    rw (named, resolves, if_neg _ (λ e. other (sym (endpoint_at ip m p here) ∙ e)), reload_endpoint)
      (roams ip src (with_peer_by_ip ip (with_configured text) (update_endpoint ip addr m)).0
        (record p { endpoint = some addr; configured_endpoint = some text })
        (pinned_at ip addr text m p here))

-- A reload that gives a known peer, which has no configured endpoint, the endpoint that it already
-- has does not pin it: the next roamed source moves it, so the peer has that source for its endpoint,
-- is otherwise what it was, and is found by it.
pub reload_misses :
    (x : External) (pc : PeerConfig) (ip : Ipv4Addr) (m : PeerManager) (p : Peer) (text : Text)
    (addr src : SocketAddr)
    → lookup ip m.peers_by_ip ≡ some p
    → pc.endpoint ≡ some text
    → resolve_endpoint x text ≡ some addr
    → p.endpoint ≡ some addr
    → p.configured_endpoint ≡ none
    → let after = (update_endpoint_if_roaming ip src (reload_endpoint x pc ip m)).0 in
      (lookup ip after.peers_by_ip ≡ some (record p { endpoint = some src }))
      × (find_ip_by_endpoint src after ≡ some ip)
unfolding reload_endpoint
reload_misses x pc ip m p text addr src here named resolves same free =
    rw unchanged (free_moves ip src m p here (rw free refl))
  where
    unchanged : reload_endpoint x pc ip m ≡ m
    unchanged =
        rw (named, resolves, if_pos _ (endpoint_at ip m p here ∙ same), reload_endpoint) refl
