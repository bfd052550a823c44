-- ===== src/Daemon/Link/Arrival.antt =====
-- A data packet as the receiving node of src/main.rs handles it, up to its TUN device.
use wolf_net.Shared.{
  ℕ, ◌<◌, ◌≡◌, refl, sym, ap, subst, arith, true, false, not, inl, inr, Bool, Bool-cases, some, [],
  ◌∷◌, ◌++◌, take, drop, length, from_le_bytes, lookup, ltb, ◌==◌, ◌||◌, ◌&&◌, if◌then◌else◌,
  nat_eq,
}
use mathlib.Core.Logic.{if_pos}
use mathlib.Core.Option.{some-injective}
use wolf_net.Net.{Bytes, Ipv4Addr, ip_eq, SocketAddr}
use wolf_net.External.{External, IsLawful}
use wolf_net.Crypto.{SessionCipher, Result, ok, err, peer_id, advance, is_stale}
use wolf_net.Crypto
use wolf_net.Crypto.Sealing.{OpenedAs, decrypt_into-decrypt}
use wolf_net.Peer.{Peer}
use wolf_net.Peer.{decrypt_into}
use wolf_net.Manager.{
  PeerManager, with_peer_by_ip, find_ip_by_endpoint_or_id, update_endpoint_if_roaming,
}
use wolf_net.Tun.{byte_at, get_dest_ip}
use wolf_net.Transport.{pkt_data, pkt_handshake, pkt_peer_exchange, parse_data_packet}
use wolf_net.Daemon.{Node, World}
use wolf_net.Daemon.Outbound.{is_broadcast}
use wolf_net.Daemon.Inbound.{
  Opened, forward, handle_plaintext, open_packet, handle_opened, handle_data, handle_datagram,
}

abbrev pub IsFramed : Bytes → Bytes → ℕ → Bytes → Type 0
IsFramed packet id n c =
    ((byte_at packet 0 == pkt_data) ≡ true)
    × (ltb 13 (length packet) ≡ true)
    × (take 4 (drop 1 packet) ≡ id)
    × (from_le_bytes (take 8 (drop 5 packet)) ≡ n)
    × (drop 13 packet ≡ c)

-- What the event loop reads in place is what the parser reads.
pub parsed_IsFramed :
    (packet id : Bytes) (n : ℕ) (c : Bytes)
    → parse_data_packet packet ≡ some (id, n, c)
    → IsFramed packet id n c
unfolding parse_data_packet
parsed_IsFramed packet id n c h =
    elim (Bool-cases (ltb (length packet) 14 || not (byte_at packet 0 == pkt_data))) [
      | inl bad ↦ absurd (ground arith)
      | inr good ↦
          let e = some-injective _ _ (rw good at h) in
          (ground arith, ground arith, ap (λ t. t.0) e, ap (λ t. t.1) e, ap (λ t. t.2) e)
    ]

-- The first byte of a v4 packet is no packet type.
v4_not_control :
    (text : Bytes) (dest : Ipv4Addr) (kind : ℕ)
    → get_dest_ip text ≡ some dest
    → kind < 64
    → (ltb 1 (length text) && byte_at text 0 == kind) ≡ false
unfolding get_dest_ip
v4_not_control text dest kind h small = elim (Bool-cases (ltb (length text) 20)) [
  | inl short ↦ absurd (ground arith)
  | inr long ↦ ground arith
]

own_address : (ip : Ipv4Addr) (b : Bool) → (ip == ip || b) ≡ true
own_address ip b = let same : ip ≡ ip = refl in rw (if_pos _ same) refl

-- A packet for this node goes to its TUN device, whichever peer it came from.
own_packet_delivered :
    (x : External) (node : Node) (now : ℕ) (text : Bytes) (ip : Ipv4Addr) (w : World)
    → get_dest_ip text ≡ some node.wolfnet_ip
    → (handle_plaintext x node now text ip w).delivered ≡ w.delivered ++ text ∷ []
unfolding handle_plaintext forward
own_packet_delivered x node now text ip w own =
    rw
      (
        v4_not_control text node.wolfnet_ip pkt_peer_exchange own (omega arith),
        v4_not_control text node.wolfnet_ip pkt_handshake own (omega arith),
        own,
        own_address node.wolfnet_ip (is_broadcast node.wolfnet_ip node.wolfnet_ip),
        handle_plaintext,
        forward,
      )
      refl

-- The peer's callback returns the plaintext, at the front of its buffer.
abbrev IsOpened : Bytes → Opened → Type 0
IsOpened text o = (o.result ≡ ok (length text)) × (take (length text) o.buffer ≡ text)

ok-OpenedAs :
    (r : Result Bytes) (i : Result ℕ) (buf text : Bytes)
    → r ≡ ok text
    → OpenedAs r (i, buf)
    → (i ≡ ok (length text)) × (take (length text) buf ≡ text)
ok-OpenedAs r i buf text h k = subst (λ t. OpenedAs t (i, buf)) h k

open_packet-IsOpened :
    (x : External) (law : IsLawful x) (now n : ℕ) (c text : Bytes) (src : SocketAddr) (p : Peer)
    (t : SessionCipher)
    → p.cipher ≡ some t
    → (Crypto.decrypt x t n c).1 ≡ ok text
    → IsOpened text (open_packet x now n c src p).1
unfolding open_packet decrypt_into
open_packet-IsOpened x law now n c text src p t session opened =
    rw (session, decrypt_into)
      (ok-OpenedAs (Crypto.decrypt x t n c).1 (Crypto.decrypt_into x t n c (length c)).1
        (Crypto.decrypt_into x t n c (length c)).2 text opened
        (decrypt_into-decrypt x law t n c (length c) refl).1)

opened_delivered :
    (x : External) (node : Node) (now : ℕ) (text : Bytes) (src : SocketAddr) (ip : Ipv4Addr)
    (w : World) (m : PeerManager) (o : Opened) (r : Result ℕ)
    → r ≡ ok (length text)
    → take (length text) o.buffer ≡ text
    → get_dest_ip text ≡ some node.wolfnet_ip
    → (handle_opened x node now src ip w m o r).delivered ≡ w.delivered ++ text ∷ []
opened_delivered x node now text src ip w m o r good same own =
    let m' = if o.is_elsewhere then (update_endpoint_if_roaming ip src m).0 else m in
    rw good (rw same (own_packet_delivered x node now text ip (record w { manager = m' }) own))

pub data_delivered :
    (x : External) (law : IsLawful x) (node : Node) (now : ℕ) (packet id : Bytes) (n : ℕ)
    (c text : Bytes) (src : SocketAddr) (w : World) (ip : Ipv4Addr) (q : Peer) (t : SessionCipher)
    → IsFramed packet id n c
    → find_ip_by_endpoint_or_id src id w.manager ≡ some ip
    → lookup ip w.manager.peers_by_ip ≡ some q
    → q.cipher ≡ some t
    → (Crypto.decrypt x t n c).1 ≡ ok text
    → get_dest_ip text ≡ some node.wolfnet_ip
    → (handle_data x node now packet src w).delivered ≡ w.delivered ++ text ∷ []
unfolding handle_data
data_delivered x law node now packet id n c text src w ip q t framed found here session opened own =
    let (kind, long, at_id, at_n, at_c) = framed in
    let counter = from_le_bytes (take 8 (drop 5 packet)) in
    let sealed = drop 13 packet in
    let found_here =
      subst (λ i. find_ip_by_endpoint_or_id src i w.manager ≡ some ip) (sym at_id) found in
    let opened_n = subst (λ k. (Crypto.decrypt x t k c).1 ≡ ok text) (sym at_n) opened in
    let opened_here = subst (λ b. (Crypto.decrypt x t counter b).1 ≡ ok text) (sym at_c) opened_n in
    let o = (open_packet x now counter sealed src q).1 in
    let good = open_packet-IsOpened x law now counter sealed text src q t session opened_here in
    rw (found_here, handle_data)
      (rw (here, with_peer_by_ip)
        (opened_delivered x node now text src ip w _ o o.result good.0 good.1 own))

pub handle_datagram-data :
    (x : External) (node : Node) (now : ℕ) (packet : Bytes) (src : SocketAddr) (w : World)
    → (byte_at packet 0 == pkt_data) ≡ true
    → ltb 13 (length packet) ≡ true
    → handle_datagram x node now packet src w ≡ handle_data x node now packet src w
unfolding handle_datagram
handle_datagram-data x node now packet src w kind long =
    let other : (byte_at packet 0 == pkt_handshake) ≡ false = ground arith in
    rw (other, kind, long) refl
