-- ===== src/Manager/Sticky.antt =====
-- A configured endpoint is the operator's choice: which methods leave it alone, and which do not.
use wolf_net.Manager.{remove_changed}
use mathlib.Core.Logic.{if_pos}
use wolf_net.Shared.{
  lookup-insert_self, ◌≡◌, ◌⊎◌, inl, inr, refl, true, false, Option, none, some, arith, lookup,
  erase, lookup-insert, Option-cases, Bool-cases, bytes_eq,
}
use wolf_net.Net.{Text, Ipv4Addr, ip_eq, SocketAddr, socket_eq}
use wolf_net.External.{External}
use wolf_net.Peer.{Peer, is_some}
use wolf_net.Manager.{
  PeerManager, update_endpoint_if_roaming, Announcement, refresh_peer, migrate_peer,
  update_from_discovery, find_ip_by_endpoint,
}

abbrev pub peer_at : Ipv4Addr → PeerManager → Option Peer
peer_at ip m = lookup ip m.peers_by_ip

-- A roamed source is refused, and nothing changes, exactly when the peer is missing or pinned;
-- otherwise the peer gets the endpoint and is found by it.
pub roaming_cases :
    (ip : Ipv4Addr) (ep : SocketAddr) (m : PeerManager)
    → ((update_endpoint_if_roaming ip ep m ≡ (m, false))
        × ((peer_at ip m ≡ none)
            ⊎ ((p : Peer) × (peer_at ip m ≡ some p) × (is_some p.configured_endpoint ≡ true))))
      ⊎ ((p : Peer) × (peer_at ip m ≡ some p)
          × (is_some p.configured_endpoint ≡ false)
          × ((update_endpoint_if_roaming ip ep m).1 ≡ true)
          × (peer_at ip (update_endpoint_if_roaming ip ep m).0
              ≡ some (record p { endpoint = some ep }))
          × (find_ip_by_endpoint ep (update_endpoint_if_roaming ip ep m).0 ≡ some ip))
unfolding update_endpoint_if_roaming find_ip_by_endpoint
roaming_cases ip ep m = elim (Option-cases (peer_at ip m)) [
  | inl e ↦ inl (rw (e, update_endpoint_if_roaming), inl e)
  | inr (p, e) ↦ elim (Bool-cases (is_some p.configured_endpoint)) [
    | inl pinned ↦ inl (rw (e, update_endpoint_if_roaming, pinned), inr (p, e, pinned))
    | inr roams ↦ inr (
      p,
      e,
      roams,
      rw (e, update_endpoint_if_roaming, roams),
      rw (e, update_endpoint_if_roaming, roams)
          (lookup-insert_self ip (record p { endpoint = some ep }) m.peers_by_ip),
      rw (e, update_endpoint_if_roaming, roams)
          (lookup-insert_self ep ip (remove_changed p.endpoint ep m.endpoint_to_ip)),
    )
  ]
]

-- A handshake or broadcast from a peer that is known under its address and key never moves a
-- configured endpoint, whatever source it came from, and always takes the name and the role.
pub discovery_keeps_pinned :
    (x : External) (a : Announcement) (m : PeerManager) (p : Peer) (t : Text)
    → peer_at a.wolfnet_ip m ≡ some p
    → p.public_key ≡ a.key
    → p.configured_endpoint ≡ some t
    → (peer_at a.wolfnet_ip (update_from_discovery x a m)
        ≡ some (record p { hostname = a.hostname; is_gateway = a.is_gateway; relay_via = none }))
      × ((update_from_discovery x a m).endpoint_to_ip ≡ m.endpoint_to_ip)
unfolding update_from_discovery refresh_peer
discovery_keeps_pinned x a m p t at same pinned =
    rw (at, update_from_discovery, if_pos _ same, pinned)
      (
        ground (
          arith,
          lookup-insert a.wolfnet_ip a.wolfnet_ip
              (record p { hostname = a.hostname; is_gateway = a.is_gateway; relay_via = none })
              m.peers_by_ip,
        ),
        refl,
      )

-- A peer with a configured endpoint that moves to a new address takes the source of the packet for
-- its endpoint all the same, and keeps the configured text.
pub migration_moves_pinned :
    (a : Announcement) (old : Ipv4Addr) (p : Peer) (m : PeerManager) (t : Text)
    → p.configured_endpoint ≡ some t
    → peer_at a.wolfnet_ip (migrate_peer a old p m)
      ≡ some (record p {
        wolfnet_ip = a.wolfnet_ip;
        endpoint = some a.source;
        hostname = a.hostname;
        is_gateway = a.is_gateway;
        relay_via = none;
      })
unfolding migrate_peer
migration_moves_pinned a old p m t pinned = ground (
  arith,
  lookup-insert a.wolfnet_ip a.wolfnet_ip
      (record p {
        wolfnet_ip = a.wolfnet_ip;
        endpoint = some a.source;
        hostname = a.hostname;
        is_gateway = a.is_gateway;
        relay_via = none;
      })
      (erase old m.peers_by_ip),
)
