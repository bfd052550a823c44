-- ===== src/Daemon/Reload/Purge.antt =====
-- What the reload of the configuration in src/main.rs leaves of the peer table.
use wolf_net.Shared.{
  ◌&&◌, ◌≡◌, refl, ◌∙◌, true, false, Bool, inl, inr, ◌||◌, not, Option, none, List, [], ◌∷◌, lookup,
  lookup-erase, if◌then◌else◌, ◌==◌, ℕ,
}
use wolf_net.Net.{Ipv4Addr, ip_eq, SocketAddr}
use wolf_net.Peer.{Peer}
use wolf_net.Manager.{PeerManager, contains, purge_peer, remove_peer}
use wolf_net.Daemon.Reload.{purge_ghosts, is_spared}
use mathlib.Core.Logic.{if_pos, if_neg}
use mathlib.Core.Path.{sym, subst}
use wolf_net.Shared.{Option-cases}

-- A purge takes one peer out of the table.
purge_peer-lookup :
    (ip other : Ipv4Addr) (m : PeerManager)
    → lookup ip (purge_peer other m).peers_by_ip
      ≡ (if ip == other then none else lookup ip m.peers_by_ip)
unfolding purge_peer remove_peer
purge_peer-lookup ip other m = elim (Option-cases (lookup other m.peers_by_ip)) [
  | inl e ↦ elim (ip_eq.dec ip other) [
    | yes same ↦
        rw (e, remove_peer, if_pos _ same) (subst (λ j. lookup j m.peers_by_ip ≡ none) (sym same) e)
    | no apart ↦ rw (e, remove_peer, if_neg _ apart) refl
  ]
  | inr (p, e) ↦ rw (e, remove_peer) (lookup-erase ip other m.peers_by_ip)
]

-- What the purge is to do with an address.
abbrev pub is_purged :
    ℕ → List Ipv4Addr → List SocketAddr → List Ipv4Addr → Ipv4Addr → Option Peer → Bool
is_purged now ips endpoints runtime ip p =
    contains runtime ip && not (contains ips ip || is_spared now endpoints p)

none_purged : (b : Bool) (o : Option Peer) → o ≡ none → (if b then none else o) ≡ none
none_purged true o h = refl
none_purged false o h = h

spared_lem : (b : Bool) (o : Option Peer) → (if b && false then none else o) ≡ o
spared_lem true o = refl
spared_lem false o = refl

if_pos_lem :
    (ip r : Ipv4Addr) (same : ip ≡ r) (o : Option Peer) → (if ip == r then none else o) ≡ none
if_pos_lem ip r same o = rw (if_pos _ same) refl

if_neg_lem :
    (ip r : Ipv4Addr) (apart : ¬ (ip ≡ r)) (o : Option Peer) → (if ip == r then none else o) ≡ o
if_neg_lem ip r apart o = rw (if_neg _ apart) refl

abbrev IsKept : ℕ → List Ipv4Addr → List SocketAddr → PeerManager → Bool → Ipv4Addr → Type 0
IsKept now ips endpoints m b ip =
    (contains ips ip || is_spared now endpoints (lookup ip m.peers_by_ip)) ≡ b

purged_head :
    (now : ℕ) (ips : List Ipv4Addr) (endpoints : List SocketAddr) (runtime : List Ipv4Addr)
    (m : PeerManager) (ip r : Ipv4Addr) (left : Option Peer) (k : Bool)
    → IsKept now ips endpoints m k r
    → left ≡ (
        if is_purged now ips endpoints runtime ip
          (lookup ip (if k then m else purge_peer r m).peers_by_ip)
        then none
        else lookup ip (if k then m else purge_peer r m).peers_by_ip)
    → left ≡ (
        if is_purged now ips endpoints (r ∷ runtime) ip (lookup ip m.peers_by_ip)
        then none
        else lookup ip m.peers_by_ip)
unfolding contains
purged_head now ips endpoints runtime m ip r left true kept rest = elim (ip_eq.dec ip r) [
  | yes same ↦
      let kept' = subst (IsKept now ips endpoints m true) (sym same) kept in
      rw (if_pos _ same, kept') (rest ∙ rw kept' (spared_lem (contains runtime ip) _))
  | no apart ↦ rw (if_neg _ apart) rest
]
purged_head now ips endpoints runtime m ip r left false gone rest = elim (ip_eq.dec ip r) [
  | yes same ↦
      let gone' = subst (IsKept now ips endpoints m false) (sym same) gone in
      rw (if_pos _ same, gone')
        (rest
          ∙ none_purged
              (is_purged now ips endpoints runtime ip (lookup ip (purge_peer r m).peers_by_ip)) _
              (purge_peer-lookup ip r m ∙ if_pos_lem ip r same _))
  | no apart ↦
      let here = purge_peer-lookup ip r m ∙ if_neg_lem ip r apart _ in
      rw (if_neg _ apart) (rw here at rest)
]

-- The purge empties just the addresses that is_purged names, and leaves every other peer as it was.
pub purge_ghosts-lookup :
    (now : ℕ) (ips : List Ipv4Addr) (endpoints : List SocketAddr) (runtime : List Ipv4Addr)
    (m : PeerManager) (ip : Ipv4Addr)
    → lookup ip (purge_ghosts now ips endpoints runtime m).peers_by_ip ≡ (
        if is_purged now ips endpoints runtime ip (lookup ip m.peers_by_ip)
        then none
        else lookup ip m.peers_by_ip)
unfolding purge_ghosts contains
purge_ghosts-lookup now ips endpoints [] m ip = refl
purge_ghosts-lookup now ips endpoints (r ∷ runtime) m ip =
    let k = contains ips r || is_spared now endpoints (lookup r m.peers_by_ip) in
    purged_head now ips endpoints runtime m ip r _ k refl
      (purge_ghosts-lookup now ips endpoints runtime (if k then m else purge_peer r m) ip)
