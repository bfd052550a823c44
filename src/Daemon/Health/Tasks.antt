-- ===== src/Daemon/Health/Tasks.antt =====
-- The periodic tasks of src/main.rs on a table of healthy peers.
use wolf_net.Transport.{build_keepalive}
use wolf_net.Transport.{build_handshake}
use wolf_net.Daemon.Periodic.{send_if}
use wolf_net.Daemon.Periodic.{configured_of}
use wolf_net.Shared.{
  ℕ, bytes_eq, Bool, Bool-cases, true, false, List, [], ◌∷◌, Option, none, some, Option-cases, inl,
  inr, if◌then◌else◌, ◌==◌, length, leb, option_eq,
}
use wolf_net.Net.{Bytes, Text, Ipv4Addr, ip_eq, SocketAddr, socket_eq}
use wolf_net.External.{External}
use wolf_net.Crypto.{KeyPair, peer_id}
use wolf_net.Peer.{Peer, is_connected, is_some}
use wolf_net.Peer.Health.{IsHealthy, encrypt-IsHealthy}
use wolf_net.Manager.{PeerManager, all_ips, with_peer_by_ip}
use wolf_net.Manager.Health.{AreHealthy, with_peer_by_ip-AreHealthy, update_endpoint-AreHealthy}
use wolf_net.Pex.{parse_socket}
use wolf_net.Routes.{load_routes, load_subnet_routes}
use wolf_net.Transport.{build_peer_exchange}
use wolf_net.Transport.Senders.{
  Datagram, for_each_peer, send_handshakes, handshakes_to, send_keepalives, to_endpoint, sealed_for,
  encrypted_to, send_peer_exchange,
}
use wolf_net.Daemon.{Node, World, resolve_endpoint}
use wolf_net.Daemon.Periodic.{
  Timers, RouteFiles, is_due, re_resolve, re_resolve_all, load_route_files, run_periodic,
  endpoint_of,
}
use wolf_net.Daemon.Health.Sending.{Healthy}

module _ (x : External) (me : KeyPair) (now : ℕ) where
  for_each_peer-AreHealthy :
      (f : Peer → Peer × List Datagram) (ips : List Ipv4Addr) (m : PeerManager)
      → ((ip : Ipv4Addr) (p : Peer) → IsHealthy x me now ip p → IsHealthy x me now ip (f p).0)
      → AreHealthy x me now m
      → AreHealthy x me now (for_each_peer f ips m).0
  for_each_peer-AreHealthy f [] m keep all = all
  for_each_peer-AreHealthy f (ip ∷ ips) m keep all =
      let m' = (with_peer_by_ip ip f m).0 in
      let rest =
        for_each_peer-AreHealthy f ips m' keep
          (with_peer_by_ip-AreHealthy x me now m ip f all (keep ip)) in
      elim (Option-cases (with_peer_by_ip ip f m).1) [
        | inl e ↦ rw (e, for_each_peer) rest
        | inr (out, e) ↦ rw (e, for_each_peer) rest
      ]

  sealed_for-IsHealthy :
      (id message : Bytes) (ip : Ipv4Addr) (p : Peer) (ep : Option SocketAddr)
      → IsHealthy x me now ip p
      → IsHealthy x me now ip (sealed_for x id message p ep).0
  sealed_for-IsHealthy id message ip p none h = h
  sealed_for-IsHealthy id message ip p (some ep) h = encrypt-IsHealthy x me now ip p message h

  encrypted_to-IsHealthy :
      (id message : Bytes) (ip : Ipv4Addr) (p : Peer)
      → IsHealthy x me now ip p
      → IsHealthy x me now ip (encrypted_to x now id message p).0
  unfolding encrypted_to
  encrypted_to-IsHealthy id message ip p h = elim (Bool-cases (is_connected now p)) [
    | inl on ↦ rw (on, encrypted_to) (sealed_for-IsHealthy id message ip p p.endpoint h)
    | inr off ↦ rw (off, encrypted_to) h
  ]

  send_peer_exchange-AreHealthy :
      (ip : Ipv4Addr) (m : PeerManager)
      → AreHealthy x me now m
      → AreHealthy x me now (send_peer_exchange x now me ip m).0
  unfolding send_peer_exchange
  send_peer_exchange-AreHealthy ip m all =
      let packet = build_peer_exchange x ip m in
      elim (Bool-cases (leb (length packet) 1)) [
        | inl small ↦ rw (small, send_peer_exchange) all
        | inr large ↦
            rw (large, send_peer_exchange)
              (for_each_peer-AreHealthy (encrypted_to x now (peer_id x me.public) packet)
                (all_ips m) m (encrypted_to-IsHealthy (peer_id x me.public) packet) all)
      ]

  re_resolve-AreHealthy :
      (ip : Ipv4Addr) (m : PeerManager)
      → AreHealthy x me now m
      → AreHealthy x me now (re_resolve x ip m)
  unfolding re_resolve
  re_resolve-AreHealthy ip m all = elim (Option-cases (configured_of ip m)) [
    | inl e ↦ rw (e, re_resolve) all
    | inr (text, e) ↦ elim (Bool-cases (is_some (parse_socket x text))) [
      | inl f ↦ rw (e, f, re_resolve) all
      | inr f ↦ elim (Option-cases (resolve_endpoint x text)) [
        | inl g ↦ rw (e, f, g, re_resolve) all
        | inr (addr, g) ↦ elim (Bool-cases (endpoint_of ip m == some addr)) [
          | inl same ↦ rw (e, f, g, same, re_resolve) all
          | inr other ↦
              rw (e, f, g, other, re_resolve) (update_endpoint-AreHealthy x me now m ip addr all)
        ]
      ]
    ]
  ]

  re_resolve_all-AreHealthy :
      (ips : List Ipv4Addr) (m : PeerManager)
      → AreHealthy x me now m
      → AreHealthy x me now (re_resolve_all x ips m)
  unfolding re_resolve_all
  re_resolve_all-AreHealthy [] m all = all
  re_resolve_all-AreHealthy (ip ∷ ips) m all =
      re_resolve_all-AreHealthy ips (re_resolve x ip m) (re_resolve-AreHealthy ip m all)

  load_routes-AreHealthy :
      (o : Option Text) (m : PeerManager)
      → AreHealthy x me now m
      → AreHealthy x me now (load_routes x o m)
  unfolding load_routes
  load_routes-AreHealthy none m all = all
  load_routes-AreHealthy (some content) m all = elim (Option-cases (x.map_of_json content)) [
    | inl e ↦ rw (e, load_routes) all
    | inr (map, e) ↦ rw (e, load_routes) all
  ]

  load_subnet_routes-AreHealthy :
      (o : Option Text) (m : PeerManager)
      → AreHealthy x me now m
      → AreHealthy x me now (load_subnet_routes x o m)
  unfolding load_subnet_routes
  load_subnet_routes-AreHealthy none m all = all
  load_subnet_routes-AreHealthy (some content) m all = elim (Option-cases (x.map_of_json content)) [
    | inl e ↦ rw (e, load_subnet_routes) all
    | inr (map, e) ↦ rw (e, load_subnet_routes) all
  ]

  -- The route files say nothing of the peers.
  pub load_route_files-AreHealthy :
      (files : RouteFiles) (m : PeerManager)
      → AreHealthy x me now m
      → AreHealthy x me now (load_route_files x files m)
  load_route_files-AreHealthy files m all =
      load_subnet_routes-AreHealthy files.subnet_routes (load_routes x files.routes m)
        (load_routes-AreHealthy files.routes m all)

module _ (x : External) (node : Node) (now : ℕ) where
  send_handshakes-AreHealthy :
      (m : PeerManager)
      → AreHealthy x node.keys now m
      → AreHealthy x node.keys now
          (send_handshakes x now node.keys node.wolfnet_ip node.listen_port node.hostname
            node.is_gateway m).0
  unfolding send_handshakes
  send_handshakes-AreHealthy m all =
      let packet =
        build_handshake node.keys node.wolfnet_ip node.listen_port node.hostname node.is_gateway in
      for_each_peer-AreHealthy x node.keys now (λ p. (p, handshakes_to x now packet p)) (all_ips m)
        m (λ ip p h. h) all

  send_keepalives-AreHealthy :
      (m : PeerManager)
      → AreHealthy x node.keys now m
      → AreHealthy x node.keys now (send_keepalives x now node.keys m).0
  unfolding send_keepalives
  send_keepalives-AreHealthy m all =
      let packet = build_keepalive (peer_id x node.keys.public) in
      for_each_peer-AreHealthy x node.keys now
        (λ p. (p, if is_connected now p then to_endpoint p.endpoint packet else [])) (all_ips m) m
        (λ ip p h. h) all

  send_if-Healthy :
      (b : Bool) (sender : PeerManager → PeerManager × List Datagram) (w : World)
      → Healthy x node now w
      → ((m : PeerManager) → AreHealthy x node.keys now m → AreHealthy x node.keys now (sender m).0)
      → Healthy x node now (send_if b sender w)
  send_if-Healthy true sender w all keep = keep w.manager all
  send_if-Healthy false sender w all keep = all

  if_done :
      (b : Bool) (m' m : PeerManager)
      → AreHealthy x node.keys now m'
      → AreHealthy x node.keys now m
      → AreHealthy x node.keys now (if b then m' else m)
  if_done true m' m h all = h
  if_done false m' m h all = all

  pub run_periodic-Healthy :
      (files : RouteFiles) (t : Timers) (w : World)
      → Healthy x node now w
      → Healthy x node now (run_periodic x node now files (t, w)).1
  unfolding run_periodic
  run_periodic-Healthy files t w all =
      let handshakes =
        send_handshakes x now node.keys node.wolfnet_ip node.listen_port node.hostname
          node.is_gateway in
      let exchange = send_peer_exchange x now node.keys node.wolfnet_ip in
      let w1 = send_if (is_due now t.last_handshake 10) handshakes w in
      let h1 = send_if-Healthy _ handshakes w all send_handshakes-AreHealthy in
      let w2 = send_if (is_due now t.last_keepalive 25) (send_keepalives x now node.keys) w1 in
      let h2 =
        send_if-Healthy _ (send_keepalives x now node.keys) w1 h1 send_keepalives-AreHealthy in
      let w3 = send_if (is_due now t.last_pex 30) exchange w2 in
      let h3 : Healthy x node now w3 =
        send_if-Healthy _ exchange w2 h2
          (send_peer_exchange-AreHealthy x node.keys now node.wolfnet_ip) in
      let looked_up = re_resolve_all x (all_ips w3.manager) w3.manager in
      let m4 = if is_due now t.last_dns_resolve 60 then looked_up else w3.manager in
      let h4 =
        if_done (is_due now t.last_dns_resolve 60) looked_up w3.manager
          (re_resolve_all-AreHealthy x node.keys now (all_ips w3.manager) w3.manager h3) h3 in
      if_done (is_due now t.last_route_reload 15) (load_route_files x files m4) m4
        (load_route_files-AreHealthy x node.keys now files m4 h4) h4
