-- ===== src/Daemon/Packet.antt =====
-- The datagrams of `encrypt_and_send` in src/main.rs, which seals in the send buffer, beside those
-- that `send_peer_exchange` of src/transport.rs builds in fresh memory.
use wolf_net.Shared.{Option}
use wolf_net.Shared.{if◌then◌else◌, Bool}
use mathlib.Core.List.{List}
use wolf_net.Shared.{
  ℕ, ◌+◌, ◌≤◌, ◌≡◌, refl, ap, sym, arith, ◌∙◌, true, false, not, Bool-cases, some, none, inl, inr,
  ◌∷◌, ◌++◌, [], length, take, drop, take-append, drop-append, drop-drop, take-append-drop,
  length-append, length-take, length-drop, subst, length-write_at, drop-write_at, write_at,
  write_at_front, write_at_behind, to_le_bytes, length-to_le_bytes,
}
use mathlib.Core.List.{append_assoc}
use wolf_net.Net.{Bytes, SocketAddr}
use wolf_net.External.{External, IsLawful}
use wolf_net.Crypto.{Result, ok, err}
use wolf_net.Crypto.Sealing.{SealedAs}
use wolf_net.Peer.{Peer, is_connected}
use wolf_net.Peer
use wolf_net.Peer.Session.{encrypt_into-encrypt_peer}
use wolf_net.Transport.{pkt_data, build_data_packet}
use wolf_net.Transport.Senders.{encrypted_to, sealed_for, data_packet, Datagram}
use wolf_net.Daemon.{encrypt_and_send, send_sealed, Sending, send_at, write_header}

-- The header fills the thirteen bytes in front of the sealed payload.
pub write_header_front :
    (front tail id : Bytes) (counter : ℕ)
    → length front ≡ 13
    → length id ≡ 4
    → write_header (front ++ tail) id counter ≡ (pkt_data ∷ id) ++ (to_le_bytes 8 counter ++ tail)
write_header_front front tail id counter h four =
    rw
      (
        write_at_front (front ++ tail) (pkt_data ∷ []),
        write_at_behind (pkt_data ∷ []) (drop 1 (front ++ tail)) id 1 refl,
        write_at_behind (pkt_data ∷ id) (drop (length id) (drop 1 (front ++ tail)))
            (to_le_bytes 8 counter) 5 (omega arith),
        length-to_le_bytes 8 counter,
        four,
        drop-drop 4 8 (drop 1 (front ++ tail)),
        drop-drop 1 12 (front ++ tail),
        drop-append 13 front tail h,
      )
      refl

abbrev is_empty : List Datagram → Bool
is_empty [] = true
is_empty (d ∷ ds) = false

-- What the socket gets of the buffer is the data packet.
pub packet_of_buffer :
    (front tail id ciphertext : Bytes) (counter : ℕ)
    → length front ≡ 13
    → length id ≡ 4
    → take (length ciphertext) tail ≡ ciphertext
    → take (13 + length ciphertext) (write_header (front ++ tail) id counter)
      ≡ build_data_packet id counter ciphertext
unfolding build_data_packet
packet_of_buffer front tail id c counter h four e =
    ap (take (13 + length c)) (
      write_header_front front tail id counter h four
      ∙ ap (λ t. (pkt_data ∷ id) ++ (to_le_bytes 8 counter ++ t)) whole
      ∙ joined)
    ∙ take-append (13 + length c) (pkt_data ∷ (id ++ (to_le_bytes 8 counter ++ c))) rest (
        omega (
          arith,
          length-append id (to_le_bytes 8 counter ++ c),
          length-append (to_le_bytes 8 counter) c,
          length-to_le_bytes 8 counter,
        ))
  where
    rest : Bytes
    rest = drop (length c) tail

    whole : tail ≡ c ++ rest
    whole = sym (take-append-drop (length c) tail) ∙ ap (λ t. t ++ rest) e

    joined :
        (pkt_data ∷ id) ++ (to_le_bytes 8 counter ++ (c ++ rest))
        ≡ (pkt_data ∷ (id ++ (to_le_bytes 8 counter ++ c))) ++ rest
    joined = simp append_assoc refl

-- A sending does to the peer and to the socket what the other does, and returns whether it sent.
abbrev pub SendsAs : Sending → Peer × List Datagram → Type 0
SendsAs s (p, out) = (s.peer ≡ p) × (s.datagrams ≡ out) × (s.is_sent ≡ not (is_empty out))

send_sealed_lem :
    (ep : SocketAddr) (id front : Bytes) (p q : Peer) (r : Result (ℕ × Bytes)) (i : Result (ℕ × ℕ))
    (tail : Bytes)
    → q ≡ p
    → SealedAs r (i, tail)
    → length front ≡ 13
    → length id ≡ 4
    → SendsAs (send_sealed ep id q i (front ++ tail)) (p, data_packet id ep r)
send_sealed_lem ep id front p q (ok (n, c)) i tail h k f four =
    rw (k.0, packet_of_buffer front tail id c n f four k.1) (h, refl, refl)
send_sealed_lem ep id front p q (err e) i tail h k f four = rw k (h, refl, refl)

-- The payload, copied behind the header's place, is what is sealed.
sealed_payload :
    (x : External) (law : IsLawful x) (buf text : Bytes) (p : Peer)
    → 13 + length text + 16 ≤ length buf
    → ((Peer.encrypt_into x p (drop 13 (write_at buf 13 text)) (length text)).0
        ≡ (Peer.encrypt x p text).0)
      × SealedAs (Peer.encrypt x p text).1 (
        (Peer.encrypt_into x p (drop 13 (write_at buf 13 text)) (length text)).1,
        (Peer.encrypt_into x p (drop 13 (write_at buf 13 text)) (length text)).2,
      )
sealed_payload x law buf text p fits =
    subst
      (λ t.
        ((Peer.encrypt_into x p payload (length text)).0 ≡ (Peer.encrypt x p t).0)
        × SealedAs (Peer.encrypt x p t).1 (
          (Peer.encrypt_into x p payload (length text)).1,
          (Peer.encrypt_into x p payload (length text)).2,
        ))
      same (encrypt_into-encrypt_peer x law p payload (length text) room)
  where
    payload : Bytes
    payload = drop 13 (write_at buf 13 text)

    same : take (length text) payload ≡ text
    same =
        rw (drop-write_at buf 13 text (omega arith))
          (take-append (length text) text (drop (13 + length text) buf) refl)

    room : length text + 16 ≤ length payload
    room = omega (arith, length-drop 13 (write_at buf 13 text), length-write_at buf 13 text)

send_at-sealed_for :
    (x : External) (law : IsLawful x) (now : ℕ) (id buf text : Bytes) (p : Peer)
    (ep : Option SocketAddr)
    → length id ≡ 4
    → 13 + length text + 16 ≤ length buf
    → SendsAs
        (send_at x now id buf text p ep)
        (if is_connected now p then sealed_for x id text p ep else (p, []))
send_at-sealed_for x law now id buf text p none four fits = elim (Bool-cases (is_connected now p)) [
  | inl on ↦ rw on (refl, refl, refl)
  | inr off ↦ rw off (refl, refl, refl)
]
send_at-sealed_for x law now id buf text p (some ep) four fits =
    elim (Bool-cases (is_connected now p)) [
      | inl on ↦
          let framed = write_at buf 13 text in
          let sealed = Peer.encrypt_into x p (drop 13 framed) (length text) in
          let same = sealed_payload x law buf text p fits in
          let room : length (take 13 framed) ≡ 13 =
            omega (arith, length-take 13 framed, length-write_at buf 13 text) in
          rw on (
            send_sealed_lem ep id (take 13 framed) (Peer.encrypt x p text).0 sealed.0
              (Peer.encrypt x p text).1 sealed.1 sealed.2 same.0 same.1 room four)
      | inr off ↦ rw off (refl, refl, refl)
    ]

-- Sealing in the send buffer is sealing in fresh memory: the same peer afterwards and the same
-- datagrams, for a peer in any state, where the id has four bytes and the buffer has room for the
-- header, the payload and the tag. The call returns true just where it sends.
pub encrypt_and_send-encrypted_to :
    (x : External) (law : IsLawful x) (now : ℕ) (id buf text : Bytes) (p : Peer)
    → length id ≡ 4
    → 13 + length text + 16 ≤ length buf
    → SendsAs (encrypt_and_send x now id buf text p) (encrypted_to x now id text p)
unfolding encrypt_and_send encrypted_to
encrypt_and_send-encrypted_to x law now id buf text p four fits =
    send_at-sealed_for x law now id buf text p p.endpoint four fits
