-- ===== src/Daemon/Link/Departure.antt =====
-- A data packet as the sending node of src/main.rs builds it, out of its peer table.
use wolf_net.Shared.{
  inl, inr, Option-cases, ℕ, ◌≤◌, ◌+◌, ◌≡◌, refl, ◌∙◌, ap, arith, true, inl, inr, some,
  Option-cases, ◌∷◌, ◌++◌, [], length, lookup, length-take,
}
use wolf_net.Net.{Bytes, Ipv4Addr, ip_eq, SocketAddr}
use wolf_net.External.{External, IsLawful}
use wolf_net.Crypto.{SessionCipher, KeyPair, Result, ok, err, peer_id, make_nonce}
use wolf_net.Crypto
use wolf_net.Peer.{Peer, is_connected}
use wolf_net.Peer
use wolf_net.Manager.{with_peer_by_ip}
use wolf_net.Transport.{build_data_packet}
use wolf_net.Transport.Senders.{encrypted_to}
use wolf_net.Daemon.{Node, World, send_to_peer}
use wolf_net.Daemon.Packet.{encrypt_and_send-encrypted_to}

pub sealed_by :
    (x : External) (law : IsLawful x) (s : SessionCipher) (text c : Bytes) (n : ℕ)
    → (Crypto.encrypt x s text).1 ≡ ok (n, c)
    → 1 ≤ length c
unfolding Crypto.encrypt
sealed_by x law s text c n h =
    let nonce = make_nonce s.send_counter s.is_low_side in
    elim (Option-cases (x.seal s.key nonce text)) [
      | inl e ↦ absurd (ground arith)
      | inr (b, e) ↦ ground (arith, law.length-seal s.key nonce text b e)
    ]

pub length-my_peer_id :
    (x : External) (law : IsLawful x) (me : KeyPair) → length (peer_id x me.public) ≡ 4
unfolding peer_id
length-my_peer_id x law me =
    omega (arith, length-take 4 (x.sha256 me.public), law.length-sha256 me.public)

-- What the sender's peer makes of the payload.
encrypted_to-connected :
    (x : External) (now : ℕ) (id text c : Bytes) (p : Peer) (ep : SocketAddr) (s : SessionCipher)
    (n : ℕ)
    → is_connected now p ≡ true
    → p.endpoint ≡ some ep
    → p.cipher ≡ some s
    → (Crypto.encrypt x s text).1 ≡ ok (n, c)
    → (encrypted_to x now id text p).1 ≡ (ep, build_data_packet id n c) ∷ []
unfolding encrypted_to Peer.encrypt
encrypted_to-connected x now id text c p ep s n on at session sealed =
    rw (on, at) (rw (session, Peer.encrypt) (rw sealed refl))

pub send_to_peer-sent :
    (x : External) (law : IsLawful x) (node : Node) (now : ℕ) (text c : Bytes) (ip : Ipv4Addr)
    (w : World) (p : Peer) (ep : SocketAddr) (s : SessionCipher) (n : ℕ)
    → lookup ip w.manager.peers_by_ip ≡ some p
    → is_connected now p ≡ true
    → p.endpoint ≡ some ep
    → p.cipher ≡ some s
    → (Crypto.encrypt x s text).1 ≡ ok (n, c)
    → 13 + length text + 16 ≤ length w.send_buf
    → (send_to_peer x node now text ip w).0.sent
      ≡ w.sent ++ (ep, build_data_packet (peer_id x node.keys.public) n c) ∷ []
unfolding send_to_peer
send_to_peer-sent x law node now text c ip w p ep s n here on at session sealed fits =
    let id = peer_id x node.keys.public in
    let (peer, out, flag) =
      encrypt_and_send-encrypted_to x law now id w.send_buf text p
        (length-my_peer_id x law node.keys) fits in
    let gone = out ∙ encrypted_to-connected x now id text c p ep s n on at session sealed in
    rw (here, send_to_peer, with_peer_by_ip) (ap (λ ds. w.sent ++ ds) gone)
