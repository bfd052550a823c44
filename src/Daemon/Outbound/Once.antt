-- ===== src/Daemon/Outbound/Once.antt =====
-- How often a packet of the TUN device leaves the node in src/main.rs.
use wolf_net.Shared.{subst, subst}
use mathlib.Core.List.{append-nil}
use wolf_net.Shared.{
  ℕ, ◌≡◌, refl, ap, ◌⊎◌, inl, inr, true, false, Bool, Bool-cases, Option, none, some, Option-cases,
  List, [], ◌∷◌, ◌++◌, lookup, length, drop, take, write_at, if◌then◌else◌, ◌∙◌,
}
use wolf_net.Net.{Bytes, Ipv4Addr, ip_eq, SocketAddr}
use wolf_net.External.{External}
use wolf_net.Crypto.{Result, ok, err, peer_id}
use wolf_net.Peer.{Peer, is_connected}
use wolf_net.Peer
use wolf_net.Manager.{find_route, find_relay_for, find_gateway, with_peer_by_ip}
use wolf_net.Routes.{find_subnet_match, find_subnet_match_v6}
use wolf_net.Tun.{get_dest_ip, get_dest_ip6}
use wolf_net.Transport.Senders.{Datagram}
use wolf_net.Daemon.{Node, World, send_to_peer, encrypt_and_send, send_at, send_sealed}
use wolf_net.Daemon.Outbound.{
  is_broadcast, send_last, send_unicast, handle_tun, is_broadcast, try_send, send_last,
  send_unicast, handle_tun,
}

-- One datagram where the call says that it sent, and none where it says not.
abbrev AsTold : List Datagram → Bool → Type 0
AsTold out true = (d : Datagram) × (out ≡ d ∷ [])
AsTold out false = out ≡ []

-- The same, of what the socket has been given.
abbrev Adds : List Datagram → List Datagram → Bool → Type 0
Adds before after true = (d : Datagram) × (after ≡ before ++ d ∷ [])
Adds before after false = after ≡ before

abbrev pub AtMostOne : List Datagram → List Datagram → Type 0
AtMostOne before after = (after ≡ before) ⊎ ((d : Datagram) × (after ≡ before ++ d ∷ []))

send_sealed-AsTold :
    (ep : SocketAddr) (id : Bytes) (p : Peer) (r : Result (ℕ × ℕ)) (buf : Bytes)
    → AsTold (send_sealed ep id p r buf).datagrams (send_sealed ep id p r buf).is_sent
send_sealed-AsTold ep id p (ok (n, c)) buf = (_, refl)
send_sealed-AsTold ep id p (err e) buf = refl

told-Adds : (before out : List Datagram) (b : Bool) → AsTold out b → Adds before (before ++ out) b
told-Adds before out true (d, e) = (d, ap (λ o. before ++ o) e)
told-Adds before out false e = ap (λ o. before ++ o) e ∙ append-nil before

Adds-AtMostOne :
    (before after : List Datagram) (b : Bool) → Adds before after b → AtMostOne before after
Adds-AtMostOne before after true h = inr h
Adds-AtMostOne before after false h = inl h

module _ (x : External) (node : Node) (now : ℕ) (packet : Bytes) where
  send_at-AsTold :
      (id buf : Bytes) (p : Peer) (ep : Option SocketAddr)
      → AsTold
          (send_at x now id buf packet p ep).datagrams
          (send_at x now id buf packet p ep).is_sent
  send_at-AsTold id buf p none = refl
  send_at-AsTold id buf p (some ep) = elim (Bool-cases (is_connected now p)) [
    | inr off ↦ rw off refl
    | inl on ↦
        let framed = write_at buf 13 packet in
        rw on (
          send_sealed-AsTold ep id (Peer.encrypt_into x p (drop 13 framed) (length packet)).0
            (Peer.encrypt_into x p (drop 13 framed) (length packet)).1
            (take 13 framed ++ (Peer.encrypt_into x p (drop 13 framed) (length packet)).2))
  ]

  send_to_peer-Adds :
      (ip : Ipv4Addr) (w : World)
      → Adds w.sent
          (send_to_peer x node now packet ip w).0.sent
          (send_to_peer x node now packet ip w).1
  unfolding send_to_peer encrypt_and_send
  send_to_peer-Adds ip w = elim (Option-cases (lookup ip w.manager.peers_by_ip)) [
    | inl e ↦ rw (e, send_to_peer, with_peer_by_ip) refl
    | inr (p, e) ↦
        let id = peer_id x node.keys.public in
        let r = send_at x now id w.send_buf packet p p.endpoint in
        rw (e, send_to_peer, with_peer_by_ip)
          (told-Adds w.sent r.datagrams r.is_sent (send_at-AsTold id w.send_buf p p.endpoint))
  ]

  try_send-Adds :
      (ip : Option Ipv4Addr) (w : World)
      → Adds w.sent (try_send x node now packet ip w).0.sent (try_send x node now packet ip w).1
  try_send-Adds none w = refl
  try_send-Adds (some ip) w = send_to_peer-Adds ip w

  -- The next route is tried only after a send that added nothing.
  if_sent :
      (before : List Datagram) (b : Bool) (u v : World)
      → Adds before u.sent b
      → (u.sent ≡ before → AtMostOne before v.sent)
      → AtMostOne before (if b then u else v).sent
  if_sent before true u v h next = inr h
  if_sent before false u v h next = next h

  later_route :
      (before : List Datagram) (w v : World)
      → w.sent ≡ before
      → AtMostOne w.sent v.sent
      → AtMostOne before v.sent
  later_route before w v same h = subst (λ s. AtMostOne s v.sent) same h

  send_last-AtMostOne :
      (dest : Ipv4Addr) (w : World) → AtMostOne w.sent (send_last x node now packet dest w).sent
  send_last-AtMostOne dest w = elim (Option-cases (find_relay_for now dest w.manager)) [
    | inl e ↦
        rw (e, send_last)
          (Adds-AtMostOne w.sent (try_send x node now packet (find_gateway now w.manager) w).0.sent
            (try_send x node now packet (find_gateway now w.manager) w).1
            (try_send-Adds (find_gateway now w.manager) w))
    | inr (relay, e) ↦
        rw (e, send_last)
          (Adds-AtMostOne w.sent (send_to_peer x node now packet relay w).0.sent
            (send_to_peer x node now packet relay w).1 (send_to_peer-Adds relay w))
  ]

  send_unicast-AtMostOne :
      (dest : Ipv4Addr) (w : World) → AtMostOne w.sent (send_unicast x node now packet dest w).sent
  unfolding send_unicast
  send_unicast-AtMostOne dest w =
      let w1 = (send_to_peer x node now packet dest w).0 in
      let r2 = try_send x node now packet (find_route dest w1.manager) w1 in
      let r3 = try_send x node now packet (find_subnet_match dest r2.0.manager) r2.0 in
      let last = send_last x node now packet dest r3.0 in
      let via_cidr = if r3.1 then r3.0 else last in
      if_sent w.sent _ w1 (if r2.1 then r2.0 else via_cidr) (send_to_peer-Adds dest w) (λ same1.
        later_route w.sent w1 (if r2.1 then r2.0 else via_cidr) same1 (
          if_sent w1.sent r2.1 r2.0 via_cidr (try_send-Adds (find_route dest w1.manager) w1)
            (λ same2. later_route w1.sent r2.0 via_cidr same2 (
              if_sent r2.0.sent r3.1 r3.0 last
                (try_send-Adds (find_subnet_match dest r2.0.manager) r2.0)
                (λ same3. later_route r2.0.sent r3.0 last same3 (send_last-AtMostOne dest r3.0))))))

-- A v4 broadcast, which goes to every peer.
abbrev pub is_broadcast_packet : Node → Bytes → Bool
is_broadcast_packet node packet = elim (get_dest_ip packet) [
  | none ↦ false
  | some dest ↦ is_broadcast node.wolfnet_ip dest
]

-- A packet from the TUN device that is no v4 broadcast leaves the node in at most one datagram,
-- whichever of its routes there are: no route is tried after one that took the packet.
pub handle_tun-AtMostOne :
    (x : External) (node : Node) (now : ℕ) (packet : Bytes) (w : World)
    → is_broadcast_packet node packet ≡ false
    → AtMostOne w.sent (handle_tun x node now packet w).sent
unfolding handle_tun
handle_tun-AtMostOne x node now packet w single = elim (Option-cases (get_dest_ip packet)) [
  | inr (dest, e) ↦
      let here : is_broadcast node.wolfnet_ip dest ≡ false =
        rw (e, is_broadcast_packet) at single in
      rw (e, handle_tun, here) (send_unicast-AtMostOne x node now packet dest w)
  | inl e ↦ elim (Option-cases (get_dest_ip6 packet)) [
    | inl f ↦ rw (e, f, handle_tun) (inl refl)
    | inr (dest6, f) ↦
        let gw = find_subnet_match_v6 dest6 w.manager in
        rw (e, f, handle_tun)
          (Adds-AtMostOne w.sent (try_send x node now packet gw w).0.sent
            (try_send x node now packet gw w).1 (try_send-Adds x node now packet gw w))
  ]
]
