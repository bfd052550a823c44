-- ===== src/Pex/Admission.antt =====
-- Whom peer exchange lets in.
use wolf_net.Shared.{
  ℕ, ◌≡◌, inl, inr, refl, sym, ◌∙◌, true, false, List, [], ◌∷◌, Option, none, some, arith, lookup,
  lookup-insert_self, Option-cases, Bool-cases, subst,
}
use wolf_net.Net.{Bytes, Ipv4Addr, ip_eq, SocketAddr, is_routable_endpoint}
use wolf_net.External.{External, PexEntry}
use wolf_net.Crypto.{KeyPair, peer_id}
use wolf_net.Peer.{Peer, is_connected, is_some}
use wolf_net.Manager.{PeerManager, contains}
use wolf_net.Pex.{
  accept_entry, is_barred, add_pex_entry, add_from_pex, learned_peer, learned_endpoint, same_subnet,
  routable, parse_socket,
}
use wolf_net.Pex.Known.{entry_cases, accept_elsewhere}

-- An endpoint that we might dial: none, or one that is routable.
abbrev pub IsDialable : Option SocketAddr → Type 0
IsDialable none = Unit
IsDialable (some ep) = is_routable_endpoint ep ≡ true

-- The state of a peer that was learned from this sender.
abbrev pub IsLearned : External → Ipv4Addr → Ipv4Addr → Peer → Type 0
IsLearned x sender_ip ip p =
    (p.wolfnet_ip ≡ ip)
    × (p.id ≡ peer_id x p.public_key)
    × (p.relay_via ≡ some sender_ip)
    × (p.configured_endpoint ≡ none)
    × (p.last_seen ≡ none)
    × (is_some p.cipher ≡ true)
    × IsDialable p.endpoint

routable-IsDialable : (o : Option SocketAddr) → IsDialable (routable o)
unfolding routable
routable-IsDialable none = tt
routable-IsDialable (some ep) = elim (Bool-cases (is_routable_endpoint ep)) [
  | inl t ↦ rw (t, routable) t
  | inr f ↦ rw f tt
]

learned_endpoint-IsDialable :
    (x : External) (entry : PexEntry) → IsDialable (learned_endpoint x entry)
unfolding learned_endpoint
learned_endpoint-IsDialable x entry = elim (Option-cases entry.endpoint) [
  | inl e ↦ rw (e, learned_endpoint) tt
  | inr (s, e) ↦ rw (e, learned_endpoint) (routable-IsDialable (parse_socket x s))
]

learned_peer-IsLearned :
    (x : External) (now : ℕ) (sender_ip : Ipv4Addr) (me : KeyPair) (entry : PexEntry)
    (entry_ip : Ipv4Addr) (key : Bytes)
    → IsLearned x sender_ip entry_ip (learned_peer x now sender_ip me entry entry_ip key)
unfolding learned_peer
learned_peer-IsLearned x now sender_ip me entry entry_ip key =
    (refl, refl, refl, refl, refl, refl, learned_endpoint-IsDialable x entry)

-- What holds of an address after an exchange if it was free before.
abbrev pub Admitted : External → Ipv4Addr → Ipv4Addr → PeerManager → Ipv4Addr → Option Peer → Type 0
Admitted x sender_ip my_ip m ip none = Unit
Admitted x sender_ip my_ip m ip (some p) =
    (is_barred my_ip m ip ≡ false) × IsLearned x sender_ip ip p

accept_purged :
    (x : External) (now : ℕ) (sender_ip : Ipv4Addr) (me : KeyPair) (entry : PexEntry)
    (entry_ip : Ipv4Addr) (key : Bytes) (m : PeerManager)
    → (accept_entry x now sender_ip me entry entry_ip key m).purged_ips ≡ m.purged_ips
unfolding accept_entry
accept_purged x now sender_ip me entry entry_ip key m =
    elim (Option-cases (lookup entry_ip m.peers_by_ip)) [
      | inl e ↦ rw (e, accept_entry) refl
      | inr (q, e) ↦ elim (Bool-cases (is_connected now q)) [
        | inl t ↦ rw (e, accept_entry, t) refl
        | inr f ↦ rw (e, accept_entry, f) refl
      ]
    ]

-- Accepting an entry, at its own address and at any other.
accept_home :
    (x : External) (now : ℕ) (sender_ip my_ip : Ipv4Addr) (me : KeyPair) (entry : PexEntry)
    (home : Ipv4Addr) (key : Bytes) (m : PeerManager)
    → Admitted x sender_ip my_ip m home (lookup home m.peers_by_ip)
    → is_barred my_ip m home ≡ false
    → Admitted x sender_ip my_ip m home
        (lookup home (accept_entry x now sender_ip me entry home key m).peers_by_ip)
unfolding accept_entry
accept_home x now sender_ip my_ip me entry home key m before free =
    elim (Option-cases (lookup home m.peers_by_ip)) [
      | inl e ↦
          rw
            (
              e,
              accept_entry,
              lookup-insert_self home (learned_peer x now sender_ip me entry home key)
                  m.peers_by_ip,
            )
            (free, learned_peer-IsLearned x now sender_ip me entry home key)
      | inr (q, e) ↦
          let known : Admitted x sender_ip my_ip m home (some q) = rw e at before in
          elim (Bool-cases (is_connected now q)) [
            | inl t ↦ rw (e, accept_entry, t) before
            | inr f ↦
                rw
                  (
                    e,
                    accept_entry,
                    f,
                    lookup-insert_self home (record q { relay_via = some sender_ip }) m.peers_by_ip,
                  )
                  (free, (known.1.0, known.1.1, refl, known.1.3, known.1.4, known.1.5, known.1.6))
          ]
    ]

accept_admits :
    (x : External) (now : ℕ) (sender_ip my_ip : Ipv4Addr) (me : KeyPair) (entry : PexEntry)
    (entry_ip : Ipv4Addr) (key : Bytes) (m : PeerManager) (ip : Ipv4Addr)
    → Admitted x sender_ip my_ip m ip (lookup ip m.peers_by_ip)
    → is_barred my_ip m entry_ip ≡ false
    → Admitted x sender_ip my_ip m ip
        (lookup ip (accept_entry x now sender_ip me entry entry_ip key m).peers_by_ip)
accept_admits x now sender_ip my_ip me entry entry_ip key m ip before free =
    elim (ip_eq.dec entry_ip ip) [
      | no differ ↦
          rw (accept_elsewhere x now sender_ip me entry entry_ip key m ip (λ e. differ (sym e)))
            before
      | yes same ↦
          subst
            (λ home.
              Admitted x sender_ip my_ip m home (lookup home m.peers_by_ip)
              → is_barred my_ip m home ≡ false
              → Admitted x sender_ip my_ip m home
                  (lookup home (accept_entry x now sender_ip me entry entry_ip key m).peers_by_ip))
            same (accept_home x now sender_ip my_ip me entry entry_ip key m) before
            (subst (λ home. is_barred my_ip m home ≡ false) same free)
    ]

barred_same :
    (my_ip ip : Ipv4Addr) (m m' : PeerManager)
    → m'.purged_ips ≡ m.purged_ips
    → is_barred my_ip m' ip ≡ is_barred my_ip m ip
unfolding is_barred
barred_same my_ip ip m m' e = rw e

Admitted-same :
    (x : External) (sender_ip my_ip ip : Ipv4Addr) (m m' : PeerManager) (o : Option Peer)
    → m'.purged_ips ≡ m.purged_ips
    → Admitted x sender_ip my_ip m ip o
    → Admitted x sender_ip my_ip m' ip o
Admitted-same x sender_ip my_ip ip m m' none e a = tt
Admitted-same x sender_ip my_ip ip m m' (some p) e a = (barred_same my_ip ip m m' e ∙ a.0, a.1)

-- What the loop keeps: the purge list, and that newcomers are as admitted.
abbrev Stays : External → Ipv4Addr → Ipv4Addr → PeerManager → Ipv4Addr → PeerManager → Type 0
Stays x sender_ip my_ip m ip m' =
    (m'.purged_ips ≡ m.purged_ips) × Admitted x sender_ip my_ip m ip (lookup ip m'.peers_by_ip)

exchange_admits :
    (x : External) (now : ℕ) (entries : List PexEntry) (sender_ip my_ip : Ipv4Addr) (me : KeyPair)
    (m m' : PeerManager) (ip : Ipv4Addr)
    → Stays x sender_ip my_ip m ip m'
    → Stays x sender_ip my_ip m ip (add_from_pex x now entries sender_ip my_ip me m')
unfolding add_from_pex
exchange_admits x now [] sender_ip my_ip me m m' ip s = s
exchange_admits x now (entry ∷ entries) sender_ip my_ip me m m' ip s =
    exchange_admits x now entries sender_ip my_ip me m
      (add_pex_entry x now sender_ip my_ip me entry m') ip
      (entry_cases (Stays x sender_ip my_ip m ip) x now sender_ip my_ip me entry m' s
        λ entry_ip key free unsettled. (
          accept_purged x now sender_ip me entry entry_ip key m' ∙ s.0,
          Admitted-same x sender_ip my_ip ip m' m _ (sym s.0) (
              accept_admits x now sender_ip my_ip me entry entry_ip key m' ip
                (Admitted-same x sender_ip my_ip ip m m' (lookup ip m'.peers_by_ip) s.0 s.1) free),
        ))

same_subnet_lem :
    (p q : Ipv4Addr) → same_subnet p q ≡ true → (p.a ≡ q.a) × (p.b ≡ q.b) × (p.c ≡ q.c)
unfolding same_subnet
same_subnet_lem p q h = (ground arith, ground arith, ground arith)

-- An address that was free before an exchange and is taken after it is not our own, was not
-- purged and has our first three octets; and its peer is reached through the sender, has a session, no
-- configured endpoint, and no endpoint but a routable one.
pub newcomer_is_admitted :
    (x : External) (now : ℕ) (entries : List PexEntry) (sender_ip my_ip : Ipv4Addr) (me : KeyPair)
    (m : PeerManager) (ip : Ipv4Addr) (p : Peer)
    → lookup ip m.peers_by_ip ≡ none
    → lookup ip (add_from_pex x now entries sender_ip my_ip me m).peers_by_ip ≡ some p
    → (¬ (ip ≡ my_ip))
      × (contains m.purged_ips ip ≡ false)
      × ((ip.a ≡ my_ip.a) × (ip.b ≡ my_ip.b) × (ip.c ≡ my_ip.c))
      × IsLearned x sender_ip ip p
unfolding is_barred
newcomer_is_admitted x now entries sender_ip my_ip me m ip p vacant there =
    let start : Stays x sender_ip my_ip m ip m = (refl, rw vacant tt) in
    let after = exchange_admits x now entries sender_ip my_ip me m m ip start in
    let new : Admitted x sender_ip my_ip m ip (some p) = rw there at (after.1) in
    let (home, rest) = bars (new.0) in (home, rest.0, same_subnet_lem ip my_ip rest.1, new.1)
  where
    bars :
        is_barred my_ip m ip ≡ false
        → (¬ (ip ≡ my_ip)) × ((contains m.purged_ips ip ≡ false) × (same_subnet ip my_ip ≡ true))
    bars free = (λ e. ground arith, (ground arith, ground arith))
