-- ===== src/Manager/Endpoints.antt =====
-- The index of `PeerManager` in src/peer.rs by endpoint, against the peer table.
use wolf_net.Manager.{remove_endpoint}
use wolf_net.Manager.{remove_changed}
use wolf_net.Manager.{insert_endpoint}
use wolf_net.Manager.{option_eq}
use wolf_net.Shared.{
  ◌≡◌, inl, inr, refl, ap, Option, none, some, arith, lookup, insert, erase, lookup-insert,
  lookup-erase, Option-cases, Bool-cases, Dict,
}
use wolf_net.Net.{Ipv4Addr, ip_eq, SocketAddr, socket_eq}
use wolf_net.Peer.{Peer, is_some}
use wolf_net.Manager.{
  PeerManager, new_manager, add_peer, remove_peer, update_endpoint, update_endpoint_if_roaming,
  clear_endpoint,
}

abbrev pub endpoint_of : Option Peer → Option SocketAddr
endpoint_of none = none
endpoint_of (some p) = p.endpoint

-- An entry of the index names an address, and the peer there has this endpoint.
abbrev pub IsSoundIn : Dict Ipv4Addr Peer → Dict SocketAddr Ipv4Addr → Type 0
IsSoundIn peers index =
    (ep : SocketAddr) (ip : Ipv4Addr)
    → lookup ep index ≡ some ip
    → endpoint_of (lookup ip peers) ≡ some ep

abbrev pub IsSound : PeerManager → Type 0
IsSound m = IsSoundIn m.peers_by_ip m.endpoint_to_ip

pub new_manager-IsSound : IsSound new_manager
unfolding new_manager lookup
new_manager-IsSound ep ip h = cc

-- The endpoint's entry is dropped, and the peer with it.
erase-IsSoundIn :
    (peers : Dict Ipv4Addr Peer) (index : Dict SocketAddr Ipv4Addr) (home : Ipv4Addr)
    (old : Option SocketAddr)
    → IsSoundIn peers index
    → endpoint_of (lookup home peers) ≡ old
    → IsSoundIn (erase home peers) (remove_endpoint old index)
erase-IsSoundIn peers index home none sound at ep ip h =
    ground (arith, sound ep ip, lookup-erase ip home peers)
erase-IsSoundIn peers index home (some o) sound at ep ip h =
    ground (arith, sound ep ip, lookup-erase ip home peers, lookup-erase ep o index)

-- The endpoint's entry is dropped, and the peer has none any more.
clear-IsSoundIn :
    (peers : Dict Ipv4Addr Peer) (index : Dict SocketAddr Ipv4Addr) (home : Ipv4Addr) (p' : Peer)
    (old : Option SocketAddr)
    → IsSoundIn peers index
    → endpoint_of (lookup home peers) ≡ old
    → IsSoundIn (insert home p' peers) (remove_endpoint old index)
clear-IsSoundIn peers index home p' none sound at ep ip h =
    ground (arith, sound ep ip, lookup-insert ip home p' peers)
clear-IsSoundIn peers index home p' (some o) sound at ep ip h =
    ground (arith, sound ep ip, lookup-insert ip home p' peers, lookup-erase ep o index)

-- The entry of the old endpoint gives way to one for the new.
move-IsSoundIn :
    (peers : Dict Ipv4Addr Peer) (index : Dict SocketAddr Ipv4Addr) (home : Ipv4Addr) (p' : Peer)
    (old : Option SocketAddr) (new : SocketAddr)
    → IsSoundIn peers index
    → endpoint_of (lookup home peers) ≡ old
    → p'.endpoint ≡ some new
    → IsSoundIn (insert home p' peers) (insert new home (remove_changed old new index))
move-IsSoundIn peers index home p' none new sound at has ep ip h =
    ground (arith, sound ep ip, lookup-insert ip home p' peers, lookup-insert ep new home index)
move-IsSoundIn peers index home p' (some o) new sound at has ep ip h = ground (
  arith,
  sound ep ip,
  lookup-insert ip home p' peers,
  lookup-insert ep new home index,
  lookup-insert ep new home (erase o index),
  lookup-erase ep o index,
)

-- A new peer at a free address, with or without an endpoint.
add-IsSoundIn :
    (peers : Dict Ipv4Addr Peer) (index : Dict SocketAddr Ipv4Addr) (home : Ipv4Addr) (p : Peer)
    (new : Option SocketAddr)
    → IsSoundIn peers index
    → lookup home peers ≡ none
    → p.endpoint ≡ new
    → IsSoundIn (insert home p peers) (insert_endpoint new home index)
add-IsSoundIn peers index home p none sound vacant has ep ip h =
    ground (arith, sound ep ip, lookup-insert ip home p peers)
add-IsSoundIn peers index home p (some new) sound vacant has ep ip h =
    ground (arith, sound ep ip, lookup-insert ip home p peers, lookup-insert ep new home index)

pub add_peer-IsSound :
    (m : PeerManager) (peer : Peer)
    → IsSound m
    → lookup peer.wolfnet_ip m.peers_by_ip ≡ none
    → IsSound (add_peer peer m)
unfolding add_peer
add_peer-IsSound m peer sound vacant =
    add-IsSoundIn m.peers_by_ip m.endpoint_to_ip peer.wolfnet_ip peer peer.endpoint sound vacant
      refl

pub remove_peer-IsSound :
    (m : PeerManager) (gone : Ipv4Addr) → IsSound m → IsSound (remove_peer gone m)
unfolding remove_peer
remove_peer-IsSound m gone sound = elim (Option-cases (lookup gone m.peers_by_ip)) [
  | inl e ↦ rw (e, remove_peer) sound
  | inr (q, e) ↦
      rw (e, remove_peer)
        (erase-IsSoundIn m.peers_by_ip m.endpoint_to_ip gone q.endpoint sound (ap endpoint_of e))
]

pub update_endpoint-IsSound :
    (m : PeerManager) (home : Ipv4Addr) (ep : SocketAddr)
    → IsSound m
    → IsSound (update_endpoint home ep m)
unfolding update_endpoint
update_endpoint-IsSound m home ep sound = elim (Option-cases (lookup home m.peers_by_ip)) [
  | inl e ↦ rw (e, update_endpoint) sound
  | inr (p, e) ↦
      rw (e, update_endpoint)
        (move-IsSoundIn m.peers_by_ip m.endpoint_to_ip home (record p { endpoint = some ep })
          p.endpoint ep sound (ap endpoint_of e) refl)
]

-- If every entry of the index by endpoint names the peer that has this endpoint, this is so after a
-- roaming update, whether it is taken or refused.
pub update_endpoint_if_roaming-IsSound :
    (m : PeerManager) (home : Ipv4Addr) (ep : SocketAddr)
    → IsSound m
    → IsSound (update_endpoint_if_roaming home ep m).0
unfolding update_endpoint_if_roaming
update_endpoint_if_roaming-IsSound m home ep sound =
    elim (Option-cases (lookup home m.peers_by_ip)) [
      | inl e ↦ rw (e, update_endpoint_if_roaming) sound
      | inr (p, e) ↦ elim (Bool-cases (is_some p.configured_endpoint)) [
        | inl pinned ↦ rw (e, update_endpoint_if_roaming, pinned) sound
        | inr roams ↦
            rw (e, update_endpoint_if_roaming, roams)
              (move-IsSoundIn m.peers_by_ip m.endpoint_to_ip home (record p { endpoint = some ep })
                p.endpoint ep sound (ap endpoint_of e) refl)
      ]
    ]

-- If every entry of the index by endpoint names the peer that has this endpoint, this is so after
-- an endpoint is cleared.
pub clear_endpoint-IsSound :
    (m : PeerManager) (home : Ipv4Addr) → IsSound m → IsSound (clear_endpoint home m).0
unfolding clear_endpoint
clear_endpoint-IsSound m home sound = elim (Option-cases (lookup home m.peers_by_ip)) [
  | inl e ↦ rw (e, clear_endpoint) sound
  | inr (p, e) ↦
      rw (e, clear_endpoint)
        (clear-IsSoundIn m.peers_by_ip m.endpoint_to_ip home
          (record p { endpoint = none; configured_endpoint = none }) p.endpoint sound
          (ap endpoint_of e))
]
