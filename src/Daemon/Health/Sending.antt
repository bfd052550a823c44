-- ===== src/Daemon/Health/Sending.antt =====
-- The outbound half of the event loop of src/main.rs on a table of healthy peers.
use wolf_net.Shared.{
  ℕ, ◌≡◌, refl, true, false, not, Bool, Bool-cases, Option, none, some, Option-cases, inl, inr,
  List, [], ◌∷◌, ◌++◌, lookup, length, drop, take, write_at, if◌then◌else◌,
}
use wolf_net.Net.{Bytes, Ipv4Addr, ip_eq, SocketAddr}
use wolf_net.External.{External}
use wolf_net.Crypto.{Result, ok, err, peer_id}
use wolf_net.Peer.{Peer, is_connected}
use wolf_net.Peer
use wolf_net.Peer.Health.{IsHealthy, encrypt_into-IsHealthy}
use wolf_net.Manager.{contains, find_route, find_relay_for, find_gateway, with_peer_by_ip}
use wolf_net.Manager.Health.{AreHealthy, with_peer_by_ip-AreHealthy}
use wolf_net.Routes.{find_subnet_match, find_subnet_match_v6}
use wolf_net.Tun.{get_dest_ip, get_dest_ip6}
use wolf_net.Daemon.{Node, World, Sending, send_to_peer, encrypt_and_send, send_at, send_sealed}
use wolf_net.Daemon.Outbound.{
  broadcast_targets, send_broadcast, try_send, send_last, send_unicast, handle_tun,
}

send_sealed-peer :
    (ep : SocketAddr) (id : Bytes) (p : Peer) (r : Result (ℕ × ℕ)) (buf : Bytes)
    → (send_sealed ep id p r buf).peer ≡ p
send_sealed-peer ep id p (ok (n, c)) buf = refl
send_sealed-peer ep id p (err e) buf = refl

module _ (x : External) (node : Node) (now : ℕ) where
  -- The peers of this world are healthy.
  abbrev pub Healthy : World → Type 0
  Healthy w = AreHealthy x node.keys now w.manager

  send_at-IsHealthy :
      (id buf text : Bytes) (ip : Ipv4Addr) (p : Peer) (ep : Option SocketAddr)
      → IsHealthy x node.keys now ip p
      → IsHealthy x node.keys now ip (send_at x now id buf text p ep).peer
  send_at-IsHealthy id buf text ip p none h = h
  send_at-IsHealthy id buf text ip p (some ep) h = elim (Bool-cases (is_connected now p)) [
    | inr off ↦ rw off h
    | inl on ↦
        let framed = write_at buf 13 text in
        rw
          (
            on,
            send_sealed-peer ep id (Peer.encrypt_into x p (drop 13 framed) (length text)).0
                (Peer.encrypt_into x p (drop 13 framed) (length text)).1
                (take 13 framed ++ (Peer.encrypt_into x p (drop 13 framed) (length text)).2),
          )
          (encrypt_into-IsHealthy x node.keys now ip p (drop 13 framed) (length text) h)
  ]

  encrypt_and_send-IsHealthy :
      (id buf text : Bytes) (ip : Ipv4Addr) (p : Peer)
      → IsHealthy x node.keys now ip p
      → IsHealthy x node.keys now ip (encrypt_and_send x now id buf text p).peer
  unfolding encrypt_and_send
  encrypt_and_send-IsHealthy id buf text ip p h = send_at-IsHealthy id buf text ip p p.endpoint h

  pub send_to_peer-Healthy :
      (packet : Bytes) (ip : Ipv4Addr) (w : World)
      → Healthy w
      → Healthy (send_to_peer x node now packet ip w).0
  unfolding send_to_peer
  send_to_peer-Healthy packet ip w all =
      let callback : Peer → Peer × Sending = λ peer.
        let r = encrypt_and_send x now (peer_id x node.keys.public) w.send_buf packet peer in
        (r.peer, r) in
      let kept =
        with_peer_by_ip-AreHealthy x node.keys now w.manager ip callback all (λ p h.
          encrypt_and_send-IsHealthy (peer_id x node.keys.public) w.send_buf packet ip p h) in
      elim (Option-cases (lookup ip w.manager.peers_by_ip)) [
        | inl e ↦ rw (e, send_to_peer, with_peer_by_ip) all
        | inr (p, e) ↦ rw (e, send_to_peer, with_peer_by_ip) kept
      ]

-- What every send keeps, the routing of a packet keeps.
module _ (Q : World → Type 0) (x : External) (node : Node) (now : ℕ)
    (keep : (packet : Bytes) (ip : Ipv4Addr) (w : World)
      → Q w
      → Q (send_to_peer x node now packet ip w).0) where
  pub if_keeps : (b : Bool) (u v : World) → Q u → Q v → Q (if b then u else v)
  if_keeps true u v h k = h
  if_keeps false u v h k = k

  pub try_send_keeps :
      (packet : Bytes) (ip : Option Ipv4Addr) (w : World)
      → Q w
      → Q (try_send x node now packet ip w).0
  try_send_keeps packet none w h = h
  try_send_keeps packet (some ip) w h = keep packet ip w h

  send_broadcast_keeps :
      (packet : Bytes) (targets : List (Ipv4Addr × Option Ipv4Addr)) (relayed : List Ipv4Addr)
      (w : World)
      → Q w
      → Q (send_broadcast x node now packet targets relayed w)
  unfolding send_broadcast
  send_broadcast_keeps packet [] relayed w h = h
  send_broadcast_keeps packet ((ip, none) ∷ targets) relayed w h =
      send_broadcast_keeps packet targets relayed (send_to_peer x node now packet ip w).0
        (keep packet ip w h)
  send_broadcast_keeps packet ((ip, some relay) ∷ targets) relayed w h =
      let first = not (contains relayed relay) in
      send_broadcast_keeps packet targets (if first then relay ∷ relayed else relayed)
        (if first then (send_to_peer x node now packet relay w).0 else w)
        (if_keeps first _ _ (keep packet relay w h) h)

  last_resort_keeps :
      (packet : Bytes) (dest : Ipv4Addr) (w : World) → Q w → Q (send_last x node now packet dest w)
  last_resort_keeps packet dest w h = elim (Option-cases (find_relay_for now dest w.manager)) [
    | inl e ↦ rw (e, send_last) (try_send_keeps packet (find_gateway now w.manager) w h)
    | inr (relay, e) ↦ rw (e, send_last) (keep packet relay w h)
  ]

  send_unicast_keeps :
      (packet : Bytes) (dest : Ipv4Addr) (w : World)
      → Q w
      → Q (send_unicast x node now packet dest w)
  unfolding send_unicast
  send_unicast_keeps packet dest w h =
      let w1 = (send_to_peer x node now packet dest w).0 in
      let h1 = keep packet dest w h in
      let w2 = (try_send x node now packet (find_route dest w1.manager) w1).0 in
      let h2 = try_send_keeps packet (find_route dest w1.manager) w1 h1 in
      let w3 = (try_send x node now packet (find_subnet_match dest w2.manager) w2).0 in
      let h3 = try_send_keeps packet (find_subnet_match dest w2.manager) w2 h2 in
      if_keeps _ _ _ h1
        (if_keeps _ _ _ h2 (if_keeps _ _ _ h3 (last_resort_keeps packet dest w3 h3)))

  pub handle_tun_keeps : (packet : Bytes) (w : World) → Q w → Q (handle_tun x node now packet w)
  unfolding handle_tun
  handle_tun_keeps packet w h = elim (Option-cases (get_dest_ip packet)) [
    | inr (dest, e) ↦
        rw (e, handle_tun)
          (if_keeps _ _ _
            (send_broadcast_keeps packet
              (broadcast_targets now node.wolfnet_ip w.manager.peers_by_ip) [] w h)
            (send_unicast_keeps packet dest w h))
    | inl e ↦ elim (Option-cases (get_dest_ip6 packet)) [
      | inl f ↦ rw (e, f, handle_tun) h
      | inr (dest6, f) ↦
          rw (e, f, handle_tun) (try_send_keeps packet (find_subnet_match_v6 dest6 w.manager) w h)
    ]
  ]
