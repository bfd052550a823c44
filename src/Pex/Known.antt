-- ===== src/Pex/Known.antt =====
-- What peer exchange does to peers that are in the table already.
use wolf_net.Shared.{
  if◌then◌else◌, ℕ, ◌≡◌, ◌⊎◌, none, inl, inr, refl, ap, ◌∙◌, true, false, ◌||◌, List, [], ◌∷◌, some,
  arith, lookup, lookup-insert, Option-cases, Bool-cases,
}
use wolf_net.Net.{Bytes, Ipv4Addr, ip_eq, parse_ipv4}
use wolf_net.External.{External, PexEntry}
use wolf_net.Crypto.{KeyPair, Result, ok, err, parse_public_key}
use wolf_net.Peer.{Peer, is_connected}
use wolf_net.Manager.{PeerManager}
use wolf_net.Pex.{
  is_settled, accept_entry, is_elsewhere, is_barred, add_pex_entry, add_from_pex, learned_peer,
}

-- Every branch of the loop body leaves the manager alone or accepts an entry that passed the
-- tests.
pub entry_cases {ℓ} :
    (P : PeerManager → Type ℓ) (x : External) (now : ℕ) (sender_ip my_ip : Ipv4Addr) (me : KeyPair)
    (entry : PexEntry) (m : PeerManager)
    → P m
    → ((entry_ip : Ipv4Addr) (pub_key : Bytes)
        → is_barred my_ip m entry_ip ≡ false
        → is_settled now (lookup entry_ip m.peers_by_ip) ≡ false
        → P (accept_entry x now sender_ip me entry entry_ip pub_key m))
    → P (add_pex_entry x now sender_ip my_ip me entry m)
unfolding add_pex_entry
entry_cases P x now sender_ip my_ip me entry m skip accept =
    elim (Option-cases (parse_ipv4 entry.wolfnet_ip)) [
      | inl e ↦ rw (e, add_pex_entry) skip
      | inr (ip, e) ↦
          elim (Bool-cases (is_barred my_ip m ip || is_settled now (lookup ip m.peers_by_ip))) [
            | inl t ↦ rw (e, add_pex_entry, t) skip
            | inr f ↦
                rw (e, add_pex_entry, f)
                  (key_cases (parse_public_key x entry.public_key) ip (ground arith) (ground arith))
          ]
    ]
  where
    key_cases :
        (r : Result Bytes) (ip : Ipv4Addr)
        → is_barred my_ip m ip ≡ false
        → is_settled now (lookup ip m.peers_by_ip) ≡ false
        → P (elim r [
          | err e ↦ m
          | ok pub_key ↦
              if is_elsewhere pub_key ip m
              then m
              else accept_entry x now sender_ip me entry ip pub_key m
        ])
    key_cases (err e) ip open_ip unsettled = skip
    key_cases (ok key) ip open_ip unsettled = elim (Bool-cases (is_elsewhere key ip m)) [
      | inl t ↦ rw t skip
      | inr f ↦ rw f (accept ip key open_ip unsettled)
    ]

-- Accepting an entry writes at its own address alone.
pub accept_elsewhere :
    (x : External) (now : ℕ) (sender_ip : Ipv4Addr) (me : KeyPair) (entry : PexEntry)
    (entry_ip : Ipv4Addr) (key : Bytes) (m : PeerManager) (ip : Ipv4Addr)
    → ¬ (ip ≡ entry_ip)
    → lookup ip (accept_entry x now sender_ip me entry entry_ip key m).peers_by_ip
      ≡ lookup ip m.peers_by_ip
unfolding accept_entry
accept_elsewhere x now sender_ip me entry entry_ip key m ip differ =
    elim (Option-cases (lookup entry_ip m.peers_by_ip)) [
      | inl e ↦
          rw (e, accept_entry)
            (ground (
              arith,
              lookup-insert ip entry_ip (learned_peer x now sender_ip me entry entry_ip key)
                  m.peers_by_ip,
            ))
      | inr (q, e) ↦ elim (Bool-cases (is_connected now q)) [
        | inl t ↦ rw (e, accept_entry, t) refl
        | inr f ↦
            rw (e, accept_entry, f)
              (ground (
                arith,
                lookup-insert ip entry_ip (record q { relay_via = some sender_ip }) m.peers_by_ip,
              ))
      ]
    ]

-- A settled peer stays as it is under one entry.
entry_settled :
    (x : External) (now : ℕ) (sender_ip my_ip : Ipv4Addr) (me : KeyPair) (entry : PexEntry)
    (m : PeerManager) (ip : Ipv4Addr) (p : Peer)
    → lookup ip m.peers_by_ip ≡ some p
    → is_settled now (some p) ≡ true
    → lookup ip (add_pex_entry x now sender_ip my_ip me entry m).peers_by_ip ≡ some p
entry_settled x now sender_ip my_ip me entry m ip p at settled =
    entry_cases (λ m'. lookup ip m'.peers_by_ip ≡ some p) x now sender_ip my_ip me entry m at
      accepted
  where
    accepted :
        (entry_ip : Ipv4Addr) (pub_key : Bytes)
        → is_barred my_ip m entry_ip ≡ false
        → is_settled now (lookup entry_ip m.peers_by_ip) ≡ false
        → lookup ip (accept_entry x now sender_ip me entry entry_ip pub_key m).peers_by_ip ≡ some p
    accepted entry_ip key free unsettled = elim (ip_eq.dec ip entry_ip) [
      | yes same ↦ absurd (clash (ap (λ t. is_settled now (lookup t m.peers_by_ip)) same))
      | no differ ↦ accept_elsewhere x now sender_ip me entry entry_ip key m ip differ ∙ at
    ]
      where
        clash :
            is_settled now (lookup ip m.peers_by_ip)
              ≡ is_settled now (lookup entry_ip m.peers_by_ip)
            → ⊥
        clash e = ground arith

settled_stays :
    (x : External) (now : ℕ) (entries : List PexEntry) (sender_ip my_ip : Ipv4Addr) (me : KeyPair)
    (m : PeerManager) (ip : Ipv4Addr) (p : Peer)
    → lookup ip m.peers_by_ip ≡ some p
    → is_settled now (some p) ≡ true
    → lookup ip (add_from_pex x now entries sender_ip my_ip me m).peers_by_ip ≡ some p
unfolding add_from_pex
settled_stays x now [] sender_ip my_ip me m ip p at settled = at
settled_stays x now (entry ∷ entries) sender_ip my_ip me m ip p at settled =
    settled_stays x now entries sender_ip my_ip me (add_pex_entry x now sender_ip my_ip me entry m)
      ip p (entry_settled x now sender_ip my_ip me entry m ip p at settled) settled

connected_or_direct :
    (now : ℕ) (p : Peer)
    → (is_connected now p ≡ true) ⊎ (p.relay_via ≡ none)
    → is_settled now (some p) ≡ true
unfolding is_settled
connected_or_direct now p (inl on) = rw on refl
connected_or_direct now p (inr direct) = rw direct (ground arith)

-- A peer that is connected, or that has no relay, is untouched by any list of entries, whoever sent
-- it.
pub settled_untouched :
    (x : External) (now : ℕ) (entries : List PexEntry) (sender_ip my_ip : Ipv4Addr) (me : KeyPair)
    (m : PeerManager) (ip : Ipv4Addr) (p : Peer)
    → lookup ip m.peers_by_ip ≡ some p
    → (is_connected now p ≡ true) ⊎ (p.relay_via ≡ none)
    → lookup ip (add_from_pex x now entries sender_ip my_ip me m).peers_by_ip ≡ some p
settled_untouched x now entries sender_ip my_ip me m ip p at known =
    settled_stays x now entries sender_ip my_ip me m ip p at (connected_or_direct now p known)
