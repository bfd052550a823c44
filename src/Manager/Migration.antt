-- ===== src/Manager/Migration.antt =====
-- `update_from_discovery`: which branch runs, and what it keeps.
use wolf_net.Manager.{update_from_discovery}
use wolf_net.Manager.{place_peer}
use mathlib.Core.Logic.{if_pos, if_neg}
use wolf_net.Shared.{
  ◌≢◌, bytes_eq, ◌≡◌, inl, inr, refl, sym, ◌∙◌, Bool, true, false, [], ◌∷◌, none, some, arith,
  lookup, erase, lookup-insert, lookup-erase, Option-cases, Bool-cases, ◌==◌, bytes_eq, Dict,
  NodupKeys,
}
use wolf_net.Net.{Bytes, Ipv4Addr, ip_eq}
use wolf_net.External.{External}
use wolf_net.Crypto.{peer_id}
use wolf_net.Peer.{Peer, new_peer, is_some}
use wolf_net.Manager.{
  PeerManager, Announcement, refresh_peer, migrate_peer, introduce_peer, find_peer, find_by_key,
  remove_peer,
}
use wolf_net.Manager.Index.{
  IsIndexed, insert-IsIndexedIn, replace-IsIndexedIn, remove_peer-IsIndexed,
}

-- `find` returns a peer that passes the test, and misses none.
pub find_peer-some :
    (test : Peer → Bool) (d : Dict Ipv4Addr Peer) (ip : Ipv4Addr)
    → NodupKeys d
    → find_peer test d ≡ some ip
    → (p : Peer) × (lookup ip d ≡ some p) × (test p ≡ true)
unfolding find_peer lookup
find_peer-some test [] ip u h = absurd (ground arith)
find_peer-some test ((j, q) ∷ d) ip (fresh, u) h = elim (Bool-cases (test q)) [
  | inl hit ↦ (q, ground arith, hit)
  | inr miss ↦
      let (p, at, good) = find_peer-some test d ip u (ground arith) in (p, ground arith, good)
]

pub find_peer-none :
    (test : Peer → Bool) (d : Dict Ipv4Addr Peer) (ip : Ipv4Addr) (p : Peer)
    → find_peer test d ≡ none
    → lookup ip d ≡ some p
    → test p ≡ false
unfolding find_peer lookup
find_peer-none test [] ip p h at = absurd (ground arith)
find_peer-none test ((j, q) ∷ d) ip p h at = ground (arith, find_peer-none test d ip p)

-- No two keys in the table, with the new one, share the four bytes of their hash.
abbrev pub NoCollision : External → PeerManager → Bytes → Type 0
NoCollision x m key =
    (ip : Ipv4Addr) (q : Peer)
    → lookup ip m.peers_by_ip ≡ some q
    → peer_id x q.public_key ≡ peer_id x key
    → q.public_key ≡ key

-- Every peer of this key is at this address.
abbrev pub OnlyAt : PeerManager → Bytes → Ipv4Addr → Type 0
OnlyAt m key home =
    (ip : Ipv4Addr) (q : Peer) → lookup ip m.peers_by_ip ≡ some q → q.public_key ≡ key → ip ≡ home

pub introduce_peer-IsIndexed :
    (x : External) (m : PeerManager) (a : Announcement)
    → IsIndexed x m
    → NoCollision x m a.key
    → OnlyAt m a.key a.wolfnet_ip
    → IsIndexed x (introduce_peer x a m)
unfolding introduce_peer
introduce_peer-IsIndexed x m a inv apart only =
    insert-IsIndexedIn x (remove_peer a.wolfnet_ip m).peers_by_ip
      (remove_peer a.wolfnet_ip m).id_to_ip
      (record (new_peer x a.key a.wolfnet_ip) {
        endpoint = some a.source;
        hostname = a.hostname;
        is_gateway = a.is_gateway;
      })
      (remove_peer-IsIndexed x m a.wolfnet_ip inv) refl free
  where
    kept :
        (ip : Ipv4Addr) (q : Peer)
        → lookup ip (remove_peer a.wolfnet_ip m).peers_by_ip ≡ some q
        → lookup ip m.peers_by_ip ≡ some q
    kept ip q h = elim (Option-cases (lookup a.wolfnet_ip m.peers_by_ip)) [
      | inl e ↦ ground arith
      | inr (p, e) ↦ ground (arith, lookup-erase ip a.wolfnet_ip m.peers_by_ip)
    ]

    free :
        (ip : Ipv4Addr) (q : Peer)
        → lookup ip (remove_peer a.wolfnet_ip m).peers_by_ip ≡ some q
        → q.id ≡ peer_id x a.key
        → ip ≡ a.wolfnet_ip
    free ip q h same =
        let at = kept ip q h in only ip q at (apart ip q at (sym (inv ip q at).1 ∙ same))

-- A peer moves to a new address and takes its id along; whoever held the address is gone.
pub migrate_peer-IsIndexed :
    (x : External) (m : PeerManager) (a : Announcement) (old : Ipv4Addr) (peer : Peer)
    → IsIndexed x m
    → lookup old m.peers_by_ip ≡ some peer
    → IsIndexed x (migrate_peer a old peer m)
unfolding migrate_peer
migrate_peer-IsIndexed x m a old peer inv at ip p h = ground (
  arith,
  lookup-insert ip a.wolfnet_ip
      (record peer {
        wolfnet_ip = a.wolfnet_ip;
        endpoint = some a.source;
        hostname = a.hostname;
        is_gateway = a.is_gateway;
        relay_via = none;
      })
      (erase old m.peers_by_ip),
  lookup-erase ip old m.peers_by_ip,
  lookup-insert p.id peer.id a.wolfnet_ip m.id_to_ip,
  inv ip p,
  inv old peer at,
)

pub refresh_peer-IsIndexed :
    (x : External) (m : PeerManager) (a : Announcement) (peer : Peer)
    → IsIndexed x m
    → lookup a.wolfnet_ip m.peers_by_ip ≡ some peer
    → IsIndexed x (refresh_peer a peer m)
unfolding refresh_peer
refresh_peer-IsIndexed x m a peer inv at = elim (Bool-cases (is_some peer.configured_endpoint)) [
  | inl pinned ↦ rw pinned (
      replace-IsIndexedIn x m.peers_by_ip m.id_to_ip a.wolfnet_ip peer
        (record peer { hostname = a.hostname; is_gateway = a.is_gateway; relay_via = none }) inv at
        (refl, refl, refl))
  | inr roams ↦ rw roams (
      replace-IsIndexedIn x m.peers_by_ip m.id_to_ip a.wolfnet_ip peer
        (record peer {
          endpoint = some a.source;
          hostname = a.hostname;
          is_gateway = a.is_gateway;
          relay_via = none;
        })
        inv at (refl, refl, refl))
]

-- A key that `find` does not see is nowhere.
not_elsewhere :
    (m : PeerManager) (key : Bytes) (home : Ipv4Addr)
    → find_by_key key m.peers_by_ip ≡ none
    → OnlyAt m key home
not_elsewhere m key home missing ip p at same = absurd (
    ground
      (arith, find_peer-none (λ (q : Peer). q.public_key == key) m.peers_by_ip ip p missing at))

pub place_peer-IsIndexed :
    (x : External) (m : PeerManager) (a : Announcement)
    → IsIndexed x m
    → NodupKeys m.peers_by_ip
    → NoCollision x m a.key
    → ((p : Peer) → lookup a.wolfnet_ip m.peers_by_ip ≡ some p → p.public_key ≢ a.key)
    → IsIndexed x (place_peer x a m)
unfolding place_peer
place_peer-IsIndexed x m a inv unique apart other =
    elim (Option-cases (find_by_key a.key m.peers_by_ip)) [
      | inl e ↦
          rw (e, place_peer)
            (introduce_peer-IsIndexed x m a inv apart (not_elsewhere m a.key a.wolfnet_ip e))
      | inr (old, e) ↦
          let (p, at, hit) =
            find_peer-some (λ q. q.public_key == a.key) m.peers_by_ip old unique e in
          elim (ip_eq.dec old a.wolfnet_ip) [
            | yes same ↦ absurd (other p (rw same at at) (ground arith))
            | no differ ↦
                rw (e, place_peer, at, if_neg _ differ) (migrate_peer-IsIndexed x m a old p inv at)
          ]
    ]

-- Discovery keeps the index by id, whichever of its branches runs, if the addresses in the table
-- are distinct and no key in it collides with the announced one in the four bytes of the id.
pub update_from_discovery-IsIndexed :
    (x : External) (m : PeerManager) (a : Announcement)
    → IsIndexed x m
    → NodupKeys m.peers_by_ip
    → NoCollision x m a.key
    → IsIndexed x (update_from_discovery x a m)
unfolding update_from_discovery
update_from_discovery-IsIndexed x m a inv unique apart =
    elim (Option-cases (lookup a.wolfnet_ip m.peers_by_ip)) [
      | inl e ↦
          rw (e, update_from_discovery)
            (place_peer-IsIndexed x m a inv unique apart (λ p h. absurd (ground arith)))
      | inr (p, e) ↦ elim (bytes_eq.dec p.public_key a.key) [
        | yes same ↦
            rw (e, update_from_discovery, if_pos _ same) (refresh_peer-IsIndexed x m a p inv e)
        | no differ ↦
            rw (e, update_from_discovery, if_neg _ differ)
              (place_peer-IsIndexed x m a inv unique apart (λ q h k. differ (ground arith)))
      ]
    ]
