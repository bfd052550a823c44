-- ===== src/Daemon/Health/Receiving.antt =====
-- The inbound half of the event loop of src/main.rs on a table of healthy peers.
use wolf_net.External.{PexEntry}
use wolf_net.Shared.{
  if◌then◌else◌, ℕ, true, false, Bool, Option, none, some, Option-cases, inl, inr, List, length,
  take, drop, from_le_bytes, ◌==◌, nat_eq,
}
use wolf_net.Net.{Bytes, Ipv4Addr, ip_eq, SocketAddr}
use wolf_net.External.{External}
use wolf_net.Crypto.{Result, ok, err}
use wolf_net.Peer.{Peer, is_some, establish_session}
use wolf_net.Peer.Health.{
  IsHealthy, establish_session-IsHealthy, seen-IsHealthy, decrypt_into-IsHealthy,
}
use wolf_net.Manager.{
  PeerManager, update_from_discovery, with_peer_by_ip, find_ip_by_endpoint,
  find_ip_by_endpoint_or_id, update_endpoint_if_roaming, find_route,
}
use wolf_net.Manager.Health.{
  AreHealthy, with_peer_by_ip-AreHealthy, update_from_discovery-AreHealthy,
  update_endpoint_if_roaming-AreHealthy,
}
use wolf_net.Pex.{add_from_pex}
use wolf_net.Pex.Health.{add_from_pex-AreHealthy}
use wolf_net.Routes.{find_subnet_match, find_subnet_match_v6}
use wolf_net.Tun.{get_dest_ip, get_dest_ip6}
use wolf_net.Transport.{parse_handshake, parse_peer_exchange}
use wolf_net.Daemon.{Node, World, send_to_peer, deliver}
use wolf_net.Daemon.Inbound.{
  Opened, announcement_of, greet, handle_handshake, hand_over, route_onward, forward,
  handle_plaintext, open_packet, handle_opened, handle_data, handle_keepalive, handle_datagram,
}
use wolf_net.Daemon.Health.Sending.{Healthy, send_to_peer-Healthy, if_keeps}

-- What every send and every delivery keeps, the forwarding of a packet keeps.
module _ (Q : World → Type 0) (x : External) (node : Node) (now : ℕ)
    (keep : (packet : Bytes) (ip : Ipv4Addr) (w : World)
      → Q w
      → Q (send_to_peer x node now packet ip w).0)
    (put : (packet : Bytes) (w : World) → Q w → Q (deliver packet w)) where
  hand_over_keeps :
      (text : Bytes) (next : Ipv4Addr) (w : World) → Q w → Q (hand_over x node now text next w)
  hand_over_keeps text next w h =
      if_keeps Q x node now keep (next == node.wolfnet_ip) _ _ (put text w h) (keep text next w h)

  route_onward_keeps :
      (text : Bytes) (dest : Ipv4Addr) (w : World) → Q w → Q (route_onward x node now text dest w)
  unfolding route_onward
  route_onward_keeps text dest w h = elim (Option-cases (find_route dest w.manager)) [
    | inr (host, e) ↦ rw (e, route_onward) (hand_over_keeps text host w h)
    | inl e ↦ elim (Option-cases (find_subnet_match dest w.manager)) [
      | inl f ↦ rw (e, f, route_onward) h
      | inr (gw, f) ↦ rw (e, f, route_onward) (hand_over_keeps text gw w h)
    ]
  ]

  pub forward_keeps : (text : Bytes) (w : World) → Q w → Q (forward x node now text w)
  unfolding forward
  forward_keeps text w h = elim (Option-cases (get_dest_ip text)) [
    | inr (dest, e) ↦
        let w' = (send_to_peer x node now text dest w).0 in
        rw (e, forward)
          (if_keeps Q x node now keep _ _ _ (put text w h) (
            if_keeps Q x node now keep _ _ _ (keep text dest w h)
              (route_onward_keeps text dest w' (keep text dest w h))))
    | inl e ↦ elim (Option-cases (get_dest_ip6 text)) [
      | inl f ↦ rw (e, f, forward) h
      | inr (dest6, f) ↦ elim (Option-cases (find_subnet_match_v6 dest6 w.manager)) [
        | inl g ↦ rw (e, f, g, forward) h
        | inr (gw, g) ↦ rw (e, f, g, forward) (hand_over_keeps text gw w h)
      ]
    ]
  ]

module _ (x : External) (node : Node) (now : ℕ) where
  if-Healthy :
      (b : Bool) (u v : World)
      → Healthy x node now u
      → Healthy x node now v
      → Healthy x node now (if b then u else v)
  if-Healthy = if_keeps (Healthy x node now) x node now (send_to_peer-Healthy x node now)

  greet-IsHealthy :
      (ip : Ipv4Addr) (p : Peer)
      → IsHealthy x node.keys now ip p
      → IsHealthy x node.keys now ip (greet x node now p).0
  unfolding greet
  greet-IsHealthy ip p h =
      seen-IsHealthy x node.keys now ip (establish_session x now node.keys p)
        (establish_session-IsHealthy x node.keys now ip p h)

  handle_handshake-Healthy :
      (packet : Bytes) (src : SocketAddr) (w : World)
      → Healthy x node now w
      → Healthy x node now (handle_handshake x node now packet src w)
  unfolding handle_handshake
  handle_handshake-Healthy packet src w all = elim (Option-cases (parse_handshake x packet)) [
    | inl e ↦ rw (e, handle_handshake) all
    | inr (h, e) ↦
        let m = update_from_discovery x (announcement_of h src) w.manager in
        let greeted =
          with_peer_by_ip-AreHealthy x node.keys now m h.ip (greet x node now)
            (update_from_discovery-AreHealthy x node.keys now w.manager (announcement_of h src) all)
            (greet-IsHealthy h.ip) in
        rw (e, handle_handshake) (if-Healthy _ _ _ greeted greeted)
  ]

  forward-Healthy :
      (text : Bytes) (w : World)
      → Healthy x node now w
      → Healthy x node now (forward x node now text w)
  forward-Healthy =
      forward_keeps (Healthy x node now) x node now (send_to_peer-Healthy x node now) (λ p w h. h)

  handle_plaintext-Healthy :
      (text : Bytes) (ip : Ipv4Addr) (w : World)
      → Healthy x node now w
      → Healthy x node now (handle_plaintext x node now text ip w)
  unfolding handle_plaintext
  handle_plaintext-Healthy text ip w all =
      if-Healthy _ _ _ (exchange (parse_peer_exchange x text))
        (if-Healthy _ _ _ all (forward-Healthy text w all))
    where
      exchange :
          (es : Option (List PexEntry))
          → Healthy x node now (elim es [
            | none ↦ w
            | some entries ↦ record w {
              manager = add_from_pex x now entries ip node.wolfnet_ip node.keys w.manager;
            }
          ])
      exchange none = all
      exchange (some entries) =
          add_from_pex-AreHealthy x node.keys now entries ip node.wolfnet_ip w.manager all

  open_packet-IsHealthy :
      (n : ℕ) (sealed : Bytes) (src : SocketAddr) (ip : Ipv4Addr) (p : Peer)
      → IsHealthy x node.keys now ip p
      → IsHealthy x node.keys now ip (open_packet x now n sealed src p).0
  unfolding open_packet
  open_packet-IsHealthy n sealed src ip p h =
      decrypt_into-IsHealthy x node.keys now ip p n sealed (length sealed) h

  -- The rest of the handler, once the peer's callback has returned.
  opened_keeps :
      (src : SocketAddr) (ip : Ipv4Addr) (w : World) (m : PeerManager) (o : Opened) (r : Result ℕ)
      → AreHealthy x node.keys now m
      → Healthy x node now (handle_opened x node now src ip w m o r)
  opened_keeps src ip w m o (err e) all = all
  opened_keeps src ip w m o (ok n) all =
      let roamed = (update_endpoint_if_roaming ip src m).0 in
      handle_plaintext-Healthy (take n o.buffer) ip
        (record w { manager = if o.is_elsewhere then roamed else m }) (if_roamed o.is_elsewhere)
    where
      if_roamed :
          (b : Bool)
          → AreHealthy x node.keys now (if b then (update_endpoint_if_roaming ip src m).0 else m)
      if_roamed true = update_endpoint_if_roaming-AreHealthy x node.keys now m ip src all
      if_roamed false = all

  handle_data-Healthy :
      (packet : Bytes) (src : SocketAddr) (w : World)
      → Healthy x node now w
      → Healthy x node now (handle_data x node now packet src w)
  unfolding handle_data
  handle_data-Healthy packet src w all =
      let n = from_le_bytes (take 8 (drop 5 packet)) in
      let callback = open_packet x now n (drop 13 packet) src in
      elim (Option-cases (find_ip_by_endpoint_or_id src (take 4 (drop 1 packet)) w.manager)) [
        | inl e ↦ rw (e, handle_data) all
        | inr (ip, e) ↦
            let kept =
              with_peer_by_ip-AreHealthy x node.keys now w.manager ip callback all
                (open_packet-IsHealthy n (drop 13 packet) src ip) in
            elim (Option-cases (with_peer_by_ip ip callback w.manager).1) [
              | inl f ↦ rw (e, f, handle_data) all
              | inr (o, f) ↦
                  rw (e, f, handle_data)
                    (opened_keeps src ip w (with_peer_by_ip ip callback w.manager).0 o o.result
                      kept)
            ]
      ]

  handle_keepalive-Healthy :
      (packet : Bytes) (src : SocketAddr) (w : World)
      → Healthy x node now w
      → Healthy x node now (handle_keepalive now packet src w)
  unfolding handle_keepalive
  handle_keepalive-Healthy packet src w all =
      elim (Option-cases (find_ip_by_endpoint_or_id src (take 4 (drop 1 packet)) w.manager)) [
        | inl e ↦ rw (e, handle_keepalive) all
        | inr (ip, e) ↦
            rw (e, handle_keepalive)
              (with_peer_by_ip-AreHealthy x node.keys now _ ip
                (λ p. (record p { last_seen = some now }, true))
                (roamed ip (is_some (find_ip_by_endpoint src w.manager)))
                (seen-IsHealthy x node.keys now ip))
      ]
    where
      roamed :
          (ip : Ipv4Addr) (b : Bool)
          → AreHealthy x node.keys now
              (if b then w.manager else (update_endpoint_if_roaming ip src w.manager).0)
      roamed ip true = all
      roamed ip false = update_endpoint_if_roaming-AreHealthy x node.keys now w.manager ip src all

  pub handle_datagram-Healthy :
      (packet : Bytes) (src : SocketAddr) (w : World)
      → Healthy x node now w
      → Healthy x node now (handle_datagram x node now packet src w)
  unfolding handle_datagram
  handle_datagram-Healthy packet src w all =
      if-Healthy _ _ _ (handle_handshake-Healthy packet src w all) (
        if-Healthy _ _ _ (handle_data-Healthy packet src w all)
          (if-Healthy _ _ _ (handle_keepalive-Healthy packet src w all) all))
