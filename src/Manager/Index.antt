-- ===== src/Manager/Index.antt =====
-- The index of `PeerManager` in src/peer.rs by peer id, against the peer table.
use wolf_net.Shared.{
  ◌≡◌, inl, inr, refl, none, some, arith, lookup, insert, erase, lookup-insert, lookup-erase,
  Option-cases, Bool-cases, bytes_eq, Dict,
}
use wolf_net.Net.{Bytes, Ipv4Addr, ip_eq, SocketAddr}
use wolf_net.External.{External}
use wolf_net.Crypto.{peer_id}
use wolf_net.Peer.{Peer, is_some}
use wolf_net.Manager.{
  PeerManager, new_manager, add_peer, remove_peer, purge_peer, with_peer_by_ip, update_endpoint,
  update_endpoint_if_roaming, clear_endpoint,
}

-- A peer table agrees with an index of ids.
abbrev pub IsIndexedIn : External → Dict Ipv4Addr Peer → Dict Bytes Ipv4Addr → Type 0
IsIndexedIn x peers ids =
    (ip : Ipv4Addr) (p : Peer)
    → lookup ip peers ≡ some p
    → (p.wolfnet_ip ≡ ip) × (p.id ≡ peer_id x p.public_key) × (lookup p.id ids ≡ some ip)

abbrev pub IsIndexed : External → PeerManager → Type 0
IsIndexed x m = IsIndexedIn x m.peers_by_ip m.id_to_ip

-- Nobody at another address has this id.
abbrev pub IsFreeFor : PeerManager → Bytes → Ipv4Addr → Type 0
IsFreeFor m id home =
    (ip : Ipv4Addr) (q : Peer) → lookup ip m.peers_by_ip ≡ some q → q.id ≡ id → ip ≡ home

abbrev pub SameIdentity : Peer → Peer → Type 0
SameIdentity p q = (p.public_key ≡ q.public_key) × (p.id ≡ q.id) × (p.wolfnet_ip ≡ q.wolfnet_ip)

pub new_manager-IsIndexed : (x : External) → IsIndexed x new_manager
unfolding new_manager lookup
new_manager-IsIndexed x ip p h = cc

-- The rule for every write: the new peer is at home, hashed and indexed, and no other has its id.
pub insert-IsIndexedIn :
    (x : External) (peers : Dict Ipv4Addr Peer) (ids : Dict Bytes Ipv4Addr) (peer : Peer)
    → IsIndexedIn x peers ids
    → peer.id ≡ peer_id x peer.public_key
    → ((ip : Ipv4Addr) (q : Peer)
        → lookup ip peers ≡ some q
        → q.id ≡ peer.id
        → ip ≡ peer.wolfnet_ip)
    → IsIndexedIn x (insert peer.wolfnet_ip peer peers) (insert peer.id peer.wolfnet_ip ids)
insert-IsIndexedIn x peers ids peer inv hash free ip p h = ground (
  arith,
  lookup-insert ip peer.wolfnet_ip peer peers,
  lookup-insert p.id peer.id peer.wolfnet_ip ids,
  inv ip p,
  free ip p,
)

-- A peer that leaves takes its id along.
pub erase-IsIndexedIn :
    (x : External) (peers : Dict Ipv4Addr Peer) (ids : Dict Bytes Ipv4Addr) (gone : Ipv4Addr)
    (q : Peer)
    → IsIndexedIn x peers ids
    → lookup gone peers ≡ some q
    → IsIndexedIn x (erase gone peers) (erase q.id ids)
erase-IsIndexedIn x peers ids gone q inv e ip p h =
    ground (arith, lookup-erase ip gone peers, lookup-erase p.id q.id ids, inv ip p, inv gone q e)

-- A peer that keeps its identity may change in all else.
pub replace-IsIndexedIn :
    (x : External) (peers : Dict Ipv4Addr Peer) (ids : Dict Bytes Ipv4Addr) (home : Ipv4Addr)
    (p p' : Peer)
    → IsIndexedIn x peers ids
    → lookup home peers ≡ some p
    → SameIdentity p' p
    → IsIndexedIn x (insert home p' peers) ids
replace-IsIndexedIn x peers ids home p p' inv at same ip q h =
    ground (arith, lookup-insert ip home p' peers, inv ip q, inv home p at)

pub add_peer-IsIndexed :
    (x : External) (m : PeerManager) (peer : Peer)
    → IsIndexed x m
    → peer.id ≡ peer_id x peer.public_key
    → IsFreeFor m peer.id peer.wolfnet_ip
    → IsIndexed x (add_peer peer m)
unfolding add_peer
add_peer-IsIndexed x m peer inv hash free =
    insert-IsIndexedIn x m.peers_by_ip m.id_to_ip peer inv hash free

pub remove_peer-IsIndexed :
    (x : External) (m : PeerManager) (gone : Ipv4Addr)
    → IsIndexed x m
    → IsIndexed x (remove_peer gone m)
unfolding remove_peer
remove_peer-IsIndexed x m gone inv = elim (Option-cases (lookup gone m.peers_by_ip)) [
  | inl e ↦ rw (e, remove_peer) inv
  | inr (q, e) ↦ rw (e, remove_peer) (erase-IsIndexedIn x m.peers_by_ip m.id_to_ip gone q inv e)
]

-- If every peer is found under its address by the id of its key, this is so after a purge.
pub purge_peer-IsIndexed :
    (x : External) (m : PeerManager) (gone : Ipv4Addr)
    → IsIndexed x m
    → IsIndexed x (purge_peer gone m)
unfolding purge_peer
purge_peer-IsIndexed x m gone inv = remove_peer-IsIndexed x m gone inv

-- A callback that keeps the identity of the peer keeps the index.
pub with_peer_by_ip-IsIndexed {ℓ} :
    {R : Type ℓ} (x : External) (m : PeerManager) (home : Ipv4Addr) (f : Peer → Peer × R)
    → IsIndexed x m
    → ((p : Peer) → SameIdentity (f p).0 p)
    → IsIndexed x (with_peer_by_ip home f m).0
unfolding with_peer_by_ip
with_peer_by_ip-IsIndexed x m home f inv keeps = elim (Option-cases (lookup home m.peers_by_ip)) [
  | inl e ↦ rw (e, with_peer_by_ip) inv
  | inr (p, e) ↦
      rw (e, with_peer_by_ip)
        (replace-IsIndexedIn x m.peers_by_ip m.id_to_ip home p (f p).0 inv e (keeps p))
]

pub update_endpoint-IsIndexed :
    (x : External) (m : PeerManager) (home : Ipv4Addr) (ep : SocketAddr)
    → IsIndexed x m
    → IsIndexed x (update_endpoint home ep m)
unfolding update_endpoint
update_endpoint-IsIndexed x m home ep inv = elim (Option-cases (lookup home m.peers_by_ip)) [
  | inl e ↦ rw (e, update_endpoint) inv
  | inr (p, e) ↦
      rw (e, update_endpoint)
        (replace-IsIndexedIn x m.peers_by_ip m.id_to_ip home p (record p { endpoint = some ep }) inv
          e (refl, refl, refl))
]

pub update_endpoint_if_roaming-IsIndexed :
    (x : External) (m : PeerManager) (home : Ipv4Addr) (ep : SocketAddr)
    → IsIndexed x m
    → IsIndexed x (update_endpoint_if_roaming home ep m).0
unfolding update_endpoint_if_roaming
update_endpoint_if_roaming-IsIndexed x m home ep inv =
    elim (Option-cases (lookup home m.peers_by_ip)) [
      | inl e ↦ rw (e, update_endpoint_if_roaming) inv
      | inr (p, e) ↦
          let moved =
            replace-IsIndexedIn x m.peers_by_ip m.id_to_ip home p (record p { endpoint = some ep })
              inv e (refl, refl, refl) in
          elim (Bool-cases (is_some p.configured_endpoint)) [
            | inl pinned ↦ rw (e, update_endpoint_if_roaming, pinned) inv
            | inr roams ↦ rw (e, update_endpoint_if_roaming, roams) moved
          ]
    ]

pub clear_endpoint-IsIndexed :
    (x : External) (m : PeerManager) (home : Ipv4Addr)
    → IsIndexed x m
    → IsIndexed x (clear_endpoint home m).0
unfolding clear_endpoint
clear_endpoint-IsIndexed x m home inv = elim (Option-cases (lookup home m.peers_by_ip)) [
  | inl e ↦ rw (e, clear_endpoint) inv
  | inr (p, e) ↦
      rw (e, clear_endpoint)
        (replace-IsIndexedIn x m.peers_by_ip m.id_to_ip home p
          (record p { endpoint = none; configured_endpoint = none }) inv e (refl, refl, refl))
]
