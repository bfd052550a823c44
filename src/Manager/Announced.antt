-- ===== src/Manager/Announced.antt =====
-- What `update_from_discovery` of src/peer.rs enters at the announced address.
use mathlib.Core.Logic.{if_pos, if_neg}
use wolf_net.Shared.{
  arith, bytes_eq, ◌≡◌, refl, inl, inr, ◌==◌, ◌&&◌, Bool, false, Option, some, none, Option-cases,
  Bool-cases, lookup, erase, lookup-insert_self, NodupKeys, if◌then◌else◌,
}
use wolf_net.Net.{Bytes, Ipv4Addr, ip_eq, SocketAddr}
use wolf_net.External.{External}
use wolf_net.Peer.{Peer, new_peer, is_some}
use wolf_net.Manager.{
  PeerManager, Announcement, refresh_peer, migrate_peer, introduce_peer, place_peer, find_by_key,
  update_from_discovery, remove_peer,
}
use wolf_net.Manager.Migration.{find_peer-some}

-- A peer of this key whose endpoint the configuration names.
abbrev pub is_pinned : Option Peer → Bytes → Bool
is_pinned none key = false
is_pinned (some p) key = p.public_key == key && is_some p.configured_endpoint

abbrev pub endpoint_before : Option Peer → Option SocketAddr
endpoint_before none = none
endpoint_before (some p) = p.endpoint

-- The endpoint that the announced peer is to have.
abbrev pub expected_endpoint : PeerManager → Announcement → Option SocketAddr
expected_endpoint m a =
    let before = lookup a.wolfnet_ip m.peers_by_ip in
    if is_pinned before a.key then endpoint_before before else some a.source

-- The announced address has a peer as the announcement says, with an endpoint.
abbrev pub Holds : PeerManager → Announcement → Option SocketAddr → Type 0
Holds m a endpoint =
    (q : Peer) × (lookup a.wolfnet_ip m.peers_by_ip ≡ some q)
    × (q.public_key ≡ a.key)
    × (q.hostname ≡ a.hostname)
    × (q.is_gateway ≡ a.is_gateway)
    × (q.relay_via ≡ none)
    × (q.endpoint ≡ endpoint)

refresh_peer-Holds :
    (a : Announcement) (p : Peer) (m : PeerManager)
    → p.public_key ≡ a.key
    → Holds
        (refresh_peer a p m)
        a
        (if is_some p.configured_endpoint then p.endpoint else some a.source)
unfolding refresh_peer
refresh_peer-Holds a p m same = elim (Bool-cases (is_some p.configured_endpoint)) [
  | inl pinned ↦
      rw (pinned, refresh_peer)
        (_, lookup-insert_self a.wolfnet_ip _ m.peers_by_ip, same, refl, refl, refl, refl)
  | inr free ↦
      rw (free, refresh_peer)
        (_, lookup-insert_self a.wolfnet_ip _ m.peers_by_ip, same, refl, refl, refl, refl)
]

introduce_peer-Holds :
    (x : External) (a : Announcement) (m : PeerManager)
    → Holds (introduce_peer x a m) a (some a.source)
unfolding introduce_peer new_peer
introduce_peer-Holds x a m = (
  _,
  lookup-insert_self a.wolfnet_ip _ (remove_peer a.wolfnet_ip m).peers_by_ip,
  refl,
  refl,
  refl,
  refl,
  refl,
)

migrate_peer-Holds :
    (a : Announcement) (old : Ipv4Addr) (p : Peer) (m : PeerManager)
    → p.public_key ≡ a.key
    → Holds (migrate_peer a old p m) a (some a.source)
unfolding migrate_peer
migrate_peer-Holds a old p m same =
    (_, lookup-insert_self a.wolfnet_ip _ (erase old m.peers_by_ip), same, refl, refl, refl, refl)

place_peer-Holds :
    (x : External) (a : Announcement) (m : PeerManager)
    → NodupKeys m.peers_by_ip
    → Holds (place_peer x a m) a (some a.source)
unfolding place_peer
place_peer-Holds x a m unique = elim (Option-cases (find_by_key a.key m.peers_by_ip)) [
  | inl e ↦ rw (e, place_peer) (introduce_peer-Holds x a m)
  | inr (old, e) ↦
      let (p, at, hit) = find_peer-some (λ q. q.public_key == a.key) m.peers_by_ip old unique e in
      elim (ip_eq.dec old a.wolfnet_ip) [
        | yes same ↦ rw (e, place_peer, at, if_pos _ same) (introduce_peer-Holds x a m)
        | no differ ↦
            rw (e, place_peer, at, if_neg _ differ) (migrate_peer-Holds a old p m (ground arith))
      ]
]

-- Whichever branch of the discovery runs, the announced address holds a peer as announced, at the
-- announcement's source, but at its old endpoint if it was there under this key with a configured one.
pub update_from_discovery-Holds :
    (x : External) (a : Announcement) (m : PeerManager)
    → NodupKeys m.peers_by_ip
    → Holds (update_from_discovery x a m) a (expected_endpoint m a)
unfolding update_from_discovery
update_from_discovery-Holds x a m unique = elim (Option-cases (lookup a.wolfnet_ip m.peers_by_ip)) [
  | inl e ↦ rw (e, update_from_discovery) (place_peer-Holds x a m unique)
  | inr (p, e) ↦ elim (bytes_eq.dec p.public_key a.key) [
    | yes same ↦ rw (e, update_from_discovery, if_pos _ same) (refresh_peer-Holds a p m same)
    | no differ ↦ rw (e, update_from_discovery, if_neg _ differ) (place_peer-Holds x a m unique)
  ]
]

-- A peer of this key is in the table at this address.
abbrev pub IsKnown : PeerManager → Ipv4Addr → Bytes → Type 0
IsKnown m ip key = (p : Peer) × (lookup ip m.peers_by_ip ≡ some p) × (p.public_key ≡ key)

pub update_from_discovery-IsKnown :
    (x : External) (a : Announcement) (m : PeerManager)
    → NodupKeys m.peers_by_ip
    → IsKnown (update_from_discovery x a m) a.wolfnet_ip a.key
update_from_discovery-IsKnown x a m unique =
    let h = update_from_discovery-Holds x a m unique in (h.0, h.1, h.2)
