-- ===== src/Daemon/Inbound/Forged.antt =====
-- Datagrams of src/main.rs whose payload does not authenticate.
use wolf_net.Shared.{
  sym, Dict, ℕ, ◌≡◌, refl, ◌∙◌, ap, not, none, some, take, drop, from_le_bytes, lookup, insert,
  lookup-insert,
}
use mathlib.Core.Logic.{if_pos, if_neg}
use wolf_net.Net.{Bytes, Ipv4Addr, ip_eq, SocketAddr}
use wolf_net.External.{External, IsLawful}
use wolf_net.Crypto.{SessionCipher, make_nonce}
use wolf_net.Peer.{Peer}
use wolf_net.Peer.Session.{decrypt_into-forged}
use wolf_net.Manager.{find_ip_by_endpoint_or_id, with_peer_by_ip}
use wolf_net.Daemon.{Node, World}
use wolf_net.Daemon.Inbound.{handle_data, open_packet}

-- Nothing is sent or delivered, and every peer is as before.
abbrev pub IsInert : World → World → Type 0
IsInert w w' =
    (w'.sent ≡ w.sent)
    × (w'.delivered ≡ w.delivered)
    × ((j : Ipv4Addr) → lookup j w'.manager.peers_by_ip ≡ lookup j w.manager.peers_by_ip)
    × (w'.manager.endpoint_to_ip ≡ w.manager.endpoint_to_ip)
    × (w'.manager.id_to_ip ≡ w.manager.id_to_ip)

insert-same :
    (j ip : Ipv4Addr) (p q : Peer) (d : Dict Ipv4Addr Peer)
    → lookup ip d ≡ some p
    → q ≡ p
    → lookup j (insert ip q d) ≡ lookup j d
insert-same j ip p q d h e = elim (ip_eq.dec j ip) [
  | yes same ↦ rw (lookup-insert j ip q d, if_pos _ same, e) (sym (ap (λ i. lookup i d) same ∙ h))
  | no apart ↦ rw (lookup-insert j ip q d, if_neg _ apart) refl
]

-- A data packet that does not authenticate under the session of the peer that its source or its id
-- names has no effect: nothing is sent or delivered, every peer is as before, and so are both
-- indexes.
pub forged-IsInert :
    (x : External) (law : IsLawful x) (node : Node) (now : ℕ) (packet : Bytes) (src : SocketAddr)
    (w : World) (ip : Ipv4Addr) (p : Peer) (s : SessionCipher)
    → find_ip_by_endpoint_or_id src (take 4 (drop 1 packet)) w.manager ≡ some ip
    → lookup ip w.manager.peers_by_ip ≡ some p
    → p.cipher ≡ some s
    → x.unseal s.key
        (make_nonce (from_le_bytes (take 8 (drop 5 packet))) (not s.is_low_side))
        (drop 13 packet)
      ≡ none
    → IsInert w (handle_data x node now packet src w)
unfolding handle_data open_packet
forged-IsInert x law node now packet src w ip p s found here session bad =
    let (same, e, failed) =
      decrypt_into-forged x law now p s (from_le_bytes (take 8 (drop 5 packet))) (drop 13 packet)
        session bad in
    rw (found, handle_data)
      (rw (here, with_peer_by_ip)
        (rw failed (
          refl,
          refl,
          λ j. rw (here, with_peer_by_ip) (insert-same j ip p _ w.manager.peers_by_ip here same),
          rw (here, with_peer_by_ip) refl,
          rw (here, with_peer_by_ip) refl,
        )))
