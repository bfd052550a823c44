-- ===== src/Manager/Health.antt =====
-- The operations of `PeerManager` in src/peer.rs on a table of healthy peers.
use wolf_net.Shared.{bytes_eq, subst}
use wolf_net.Shared.{
  ℕ, ◌≤◌, ◌≡◌, refl, sym, Bool-cases, none, some, Option-cases, inl, inr, Dict, lookup, insert,
  erase, lookup-insert, lookup-erase, NodupKeys, insert-NodupKeys, erase-NodupKeys, ◌==◌,
}
use mathlib.Core.Logic.{if_pos, if_neg}
use mathlib.Core.Option.{some-injective, none-ne-some}
use wolf_net.Net.{Ipv4Addr, ip_eq, SocketAddr}
use wolf_net.External.{External}
use wolf_net.Crypto.{KeyPair}
use wolf_net.Peer.{Peer, is_some}
use wolf_net.Peer.Health.{IsHealthy, later-IsHealthy, new_peer-IsHealthy}
use wolf_net.Manager.{
  PeerManager, new_manager, add_peer, remove_peer, purge_peer, with_peer_by_ip, update_endpoint,
  update_endpoint_if_roaming, clear_endpoint, Announcement, refresh_peer, migrate_peer,
  introduce_peer, place_peer, update_from_discovery, find_by_key,
}

-- No address stands twice, and every peer has a property with its address.
abbrev pub AllIn : (Ipv4Addr → Peer → Type 0) → Dict Ipv4Addr Peer → Type 0
AllIn P d = NodupKeys d × ((ip : Ipv4Addr) (p : Peer) → lookup ip d ≡ some p → P ip p)

insert-AllIn :
    (P : Ipv4Addr → Peer → Type 0) (d : Dict Ipv4Addr Peer) (home : Ipv4Addr) (q : Peer)
    → AllIn P d
    → P home q
    → AllIn P (insert home q d)
insert-AllIn P d home q (unique, all) good = (
  insert-NodupKeys home q d unique,
  λ ip p h. elim (ip_eq.dec ip home) [
    | yes same ↦
        let found : some q ≡ some p = rw (lookup-insert ip home q d, if_pos _ same) at h in
        subst (P ip) (some-injective _ _ found) (subst (λ i. P i q) (sym same) good)
    | no apart ↦
        let found : lookup ip d ≡ some p = rw (lookup-insert ip home q d, if_neg _ apart) at h in
        all ip p found
  ],
)

erase-AllIn :
    (P : Ipv4Addr → Peer → Type 0) (d : Dict Ipv4Addr Peer) (gone : Ipv4Addr)
    → AllIn P d
    → AllIn P (erase gone d)
erase-AllIn P d gone (unique, all) = (
  erase-NodupKeys gone d unique,
  λ ip p h. elim (ip_eq.dec ip gone) [
    | yes same ↦
        let missed : none ≡ some p = rw (lookup-erase ip gone d, if_pos _ same) at h in
        absurd (none-ne-some p missed)
    | no apart ↦
        let found : lookup ip d ≡ some p = rw (lookup-erase ip gone d, if_neg _ apart) at h in
        all ip p found
  ],
)

-- Every peer in the table is healthy, and no address stands twice.
abbrev pub AreHealthy : External → KeyPair → ℕ → PeerManager → Type 0
AreHealthy x me now m = AllIn (IsHealthy x me now) m.peers_by_ip

module _ (x : External) (me : KeyPair) (now : ℕ) where
  pub new_manager-AreHealthy : AreHealthy x me now new_manager
  unfolding new_manager lookup
  new_manager-AreHealthy = (tt, λ ip p h. absurd (none-ne-some p h))

  pub later-AreHealthy :
      (later : ℕ) (m : PeerManager) → now ≤ later → AreHealthy x me now m → AreHealthy x me later m
  later-AreHealthy later m le (unique, all) =
      (unique, λ ip p h. later-IsHealthy x me now later ip p le (all ip p h))

  pub add_peer-AreHealthy :
      (m : PeerManager) (p : Peer)
      → AreHealthy x me now m
      → IsHealthy x me now p.wolfnet_ip p
      → AreHealthy x me now (add_peer p m)
  unfolding add_peer
  add_peer-AreHealthy m p all good =
      insert-AllIn (IsHealthy x me now) m.peers_by_ip p.wolfnet_ip p all good

  -- Writing a healthy peer into the table.
  pub put-AreHealthy :
      (d : Dict Ipv4Addr Peer) (ip : Ipv4Addr) (p : Peer)
      → AllIn (IsHealthy x me now) d
      → IsHealthy x me now ip p
      → AllIn (IsHealthy x me now) (insert ip p d)
  put-AreHealthy d ip p all good = insert-AllIn (IsHealthy x me now) d ip p all good

  pub remove_peer-AreHealthy :
      (m : PeerManager) (ip : Ipv4Addr)
      → AreHealthy x me now m
      → AreHealthy x me now (remove_peer ip m)
  unfolding remove_peer
  remove_peer-AreHealthy m ip all = elim (Option-cases (lookup ip m.peers_by_ip)) [
    | inl e ↦ rw (e, remove_peer) all
    | inr (p, e) ↦ rw (e, remove_peer) (erase-AllIn (IsHealthy x me now) m.peers_by_ip ip all)
  ]

  pub purge_peer-AreHealthy :
      (m : PeerManager) (ip : Ipv4Addr)
      → AreHealthy x me now m
      → AreHealthy x me now (purge_peer ip m)
  unfolding purge_peer
  purge_peer-AreHealthy m ip all = remove_peer-AreHealthy m ip all

  -- A callback that keeps a peer healthy keeps the table healthy.
  pub with_peer_by_ip-AreHealthy {ℓ} :
      {R : Type ℓ} (m : PeerManager) (ip : Ipv4Addr) (f : Peer → Peer × R)
      → AreHealthy x me now m
      → ((p : Peer) → IsHealthy x me now ip p → IsHealthy x me now ip (f p).0)
      → AreHealthy x me now (with_peer_by_ip ip f m).0
  unfolding with_peer_by_ip
  with_peer_by_ip-AreHealthy m ip f all keep = elim (Option-cases (lookup ip m.peers_by_ip)) [
    | inl e ↦ rw (e, with_peer_by_ip) all
    | inr (p, e) ↦
        rw (e, with_peer_by_ip)
          (put-AreHealthy m.peers_by_ip ip (f p).0 all (keep p (all.1 ip p e)))
  ]

  pub update_endpoint-AreHealthy :
      (m : PeerManager) (ip : Ipv4Addr) (ep : SocketAddr)
      → AreHealthy x me now m
      → AreHealthy x me now (update_endpoint ip ep m)
  unfolding update_endpoint
  update_endpoint-AreHealthy m ip ep all = elim (Option-cases (lookup ip m.peers_by_ip)) [
    | inl e ↦ rw (e, update_endpoint) all
    | inr (p, e) ↦ rw (e, update_endpoint) (put-AreHealthy m.peers_by_ip ip _ all (all.1 ip p e))
  ]

  pub update_endpoint_if_roaming-AreHealthy :
      (m : PeerManager) (ip : Ipv4Addr) (ep : SocketAddr)
      → AreHealthy x me now m
      → AreHealthy x me now (update_endpoint_if_roaming ip ep m).0
  unfolding update_endpoint_if_roaming
  update_endpoint_if_roaming-AreHealthy m ip ep all =
      elim (Option-cases (lookup ip m.peers_by_ip)) [
        | inl e ↦ rw (e, update_endpoint_if_roaming) all
        | inr (p, e) ↦ elim (Bool-cases (is_some p.configured_endpoint)) [
          | inl pinned ↦ rw (e, pinned, update_endpoint_if_roaming) all
          | inr free ↦
              rw (e, free, update_endpoint_if_roaming)
                (put-AreHealthy m.peers_by_ip ip _ all (all.1 ip p e))
        ]
      ]

  pub clear_endpoint-AreHealthy :
      (m : PeerManager) (ip : Ipv4Addr)
      → AreHealthy x me now m
      → AreHealthy x me now (clear_endpoint ip m).0
  unfolding clear_endpoint
  clear_endpoint-AreHealthy m ip all = elim (Option-cases (lookup ip m.peers_by_ip)) [
    | inl e ↦ rw (e, clear_endpoint) all
    | inr (p, e) ↦ rw (e, clear_endpoint) (put-AreHealthy m.peers_by_ip ip _ all (all.1 ip p e))
  ]

  refresh_peer-AreHealthy :
      (m : PeerManager) (a : Announcement) (p : Peer)
      → AreHealthy x me now m
      → IsHealthy x me now a.wolfnet_ip p
      → AreHealthy x me now (refresh_peer a p m)
  unfolding refresh_peer
  refresh_peer-AreHealthy m a p all good = elim (Bool-cases (is_some p.configured_endpoint)) [
    | inl pinned ↦ rw (pinned, refresh_peer) (put-AreHealthy m.peers_by_ip a.wolfnet_ip _ all good)
    | inr free ↦ rw (free, refresh_peer) (put-AreHealthy m.peers_by_ip a.wolfnet_ip _ all good)
  ]

  introduce_peer-AreHealthy :
      (m : PeerManager) (a : Announcement)
      → AreHealthy x me now m
      → AreHealthy x me now (introduce_peer x a m)
  unfolding introduce_peer
  introduce_peer-AreHealthy m a all =
      put-AreHealthy (remove_peer a.wolfnet_ip m).peers_by_ip a.wolfnet_ip _
        (remove_peer-AreHealthy m a.wolfnet_ip all) (new_peer-IsHealthy x me now a.wolfnet_ip a.key)

  migrate_peer-AreHealthy :
      (m : PeerManager) (a : Announcement) (old : Ipv4Addr) (p : Peer)
      → AreHealthy x me now m
      → IsHealthy x me now old p
      → AreHealthy x me now (migrate_peer a old p m)
  unfolding migrate_peer
  migrate_peer-AreHealthy m a old p all good =
      put-AreHealthy (erase old m.peers_by_ip) a.wolfnet_ip _
        (erase-AllIn (IsHealthy x me now) m.peers_by_ip old all) (refl, good.1, good.2, good.3)

  place_peer-AreHealthy :
      (m : PeerManager) (a : Announcement)
      → AreHealthy x me now m
      → AreHealthy x me now (place_peer x a m)
  unfolding place_peer
  place_peer-AreHealthy m a all = elim (Option-cases (find_by_key a.key m.peers_by_ip)) [
    | inl e ↦ rw (e, place_peer) (introduce_peer-AreHealthy m a all)
    | inr (old, e) ↦ elim (Option-cases (lookup old m.peers_by_ip)) [
      | inl f ↦ rw (e, f, place_peer) (introduce_peer-AreHealthy m a all)
      | inr (p, f) ↦ elim (ip_eq.dec old a.wolfnet_ip) [
        | yes same ↦ rw (e, f, place_peer, if_pos _ same) (introduce_peer-AreHealthy m a all)
        | no apart ↦
            rw (e, f, place_peer, if_neg _ apart)
              (migrate_peer-AreHealthy m a old p all (all.1 old p f))
      ]
    ]
  ]

  pub update_from_discovery-AreHealthy :
      (m : PeerManager) (a : Announcement)
      → AreHealthy x me now m
      → AreHealthy x me now (update_from_discovery x a m)
  unfolding update_from_discovery
  update_from_discovery-AreHealthy m a all =
      elim (Option-cases (lookup a.wolfnet_ip m.peers_by_ip)) [
        | inl e ↦ rw (e, update_from_discovery) (place_peer-AreHealthy m a all)
        | inr (p, e) ↦ elim (Bool-cases (p.public_key == a.key)) [
          | inl same ↦
              rw (e, same, update_from_discovery)
                (refresh_peer-AreHealthy m a p all (all.1 a.wolfnet_ip p e))
          | inr other ↦ rw (e, other, update_from_discovery) (place_peer-AreHealthy m a all)
        ]
      ]
