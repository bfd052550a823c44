-- ===== src/Daemon/Link.antt =====
-- How a link between two nodes comes up in src/main.rs, and what goes through it.
pub mod Departure
pub mod Arrival
pub mod Tunnel
use wolf_net.Transport.{build_handshake}
use wolf_net.Shared.{none}
use wolf_net.Shared.{
  false, not, ◌≢◌, List, [], ◌∷◌, ◌++◌, length, ◌<◌, ℕ, ◌≡◌, refl, arith, true, Bool-cases, some,
  inl, inr, lookup, lookup-insert_self, NodupKeys,
}
use wolf_net.Net.{Bytes, Ipv4Addr, ip_eq, SocketAddr}
use wolf_net.External.{External, IsLawful}
use wolf_net.Transport.Wire.{parse_handshake-build_handshake}
use wolf_net.Crypto.Direction.{IsKeyPair, sessions_agree}
use wolf_net.Manager.{Announcement, find_by_key, place_peer, introduce_peer, remove_peer}
use wolf_net.Peer.{new_peer}
use wolf_net.Crypto.Direction.{session}
use wolf_net.Peer.{Peer, is_connected, establish_session}
use wolf_net.Manager.{PeerManager, with_peer_by_ip, update_from_discovery}
use wolf_net.Manager.Announced.{IsKnown, update_from_discovery-IsKnown}
use wolf_net.Transport.{Handshake, parse_handshake}
use wolf_net.Daemon.{Node, World}
use wolf_net.Daemon.Inbound.{handle_handshake, announcement_of, greet, or_false}

-- The peer at this address has this key and a new session under it, and is connected.
abbrev pub IsLinked : External → Node → ℕ → Ipv4Addr → Bytes → PeerManager → Type 0
IsLinked x node now ip key m =
    (p : Peer) × (lookup ip m.peers_by_ip ≡ some p)
    × (p.public_key ≡ key)
    × (p.cipher ≡ some (session x node.keys key))
    × (is_connected now p ≡ true)

greet-IsLinked :
    (x : External) (node : Node) (now : ℕ) (ip : Ipv4Addr) (key : Bytes) (m : PeerManager)
    → IsKnown m ip key
    → IsLinked x node now ip key (with_peer_by_ip ip (greet x node now) m).0
unfolding with_peer_by_ip greet establish_session is_connected
greet-IsLinked x node now ip key m (p, here, same) =
    rw (here, with_peer_by_ip)
      (_, lookup-insert_self ip _ m.peers_by_ip, same, rw same refl, ground arith)

-- A handshake that parses brings the link up, whatever was known of its sender: the address that
-- it names then holds a peer of its key that is connected, under a new session of that key. This
-- is on a table whose addresses are distinct.
pub handle_handshake-IsLinked :
    (x : External) (node : Node) (now : ℕ) (packet : Bytes) (src : SocketAddr) (w : World)
    (h : Handshake)
    → NodupKeys w.manager.peers_by_ip
    → parse_handshake x packet ≡ some h
    → IsLinked x node now h.ip h.public_key (handle_handshake x node now packet src w).manager
unfolding handle_handshake
handle_handshake-IsLinked x node now packet src w h unique parsed =
    let m = update_from_discovery x (announcement_of h src) w.manager in
    let linked =
      greet-IsLinked x node now h.ip h.public_key m
        (update_from_discovery-IsKnown x (announcement_of h src) w.manager unique) in
    elim (Bool-cases (or_false (with_peer_by_ip h.ip (greet x node now) m).1)) [
      | inl on ↦ rw (parsed, handle_handshake, on) linked
      | inr off ↦ rw (parsed, handle_handshake, off) linked
    ]

-- The handshake that a node sends.
abbrev pub handshake_of : Node → Bytes
handshake_of node =
    build_handshake node.keys node.wolfnet_ip node.listen_port node.hostname node.is_gateway

-- What a node must be for its handshake to be readable.
abbrev pub IsPresentable : External → Node → Type 0
IsPresentable x node =
    (length node.keys.public ≡ 32) × (node.listen_port < 65536) × (x.is_utf8 node.hostname ≡ true)

abbrev presented : Node → Handshake
presented node = record {
  public_key = node.keys.public;
  ip = node.wolfnet_ip;
  port = node.listen_port;
  is_gateway = node.is_gateway;
  hostname = node.hostname;
}

handshake_of-presented :
    (x : External) (law : IsLawful x) (node : Node)
    → IsPresentable x node
    → parse_handshake x (handshake_of node) ≡ some (presented node)
handshake_of-presented x law node (whole, small, utf8) =
    parse_handshake-build_handshake x law node.keys node.wolfnet_ip node.listen_port node.hostname
      node.is_gateway whole small utf8

-- Nothing in the table has this address or this key.
abbrev pub IsUnknown : PeerManager → Ipv4Addr → Bytes → Type 0
IsUnknown m ip key = (lookup ip m.peers_by_ip ≡ none) × (find_by_key key m.peers_by_ip ≡ none)

-- A stranger was not connected before its handshake.
stranger_not_connected :
    (x : External) (node : Node) (now : ℕ) (a : Announcement) (m : PeerManager)
    → IsUnknown m a.wolfnet_ip a.key
    → or_false (with_peer_by_ip a.wolfnet_ip (greet x node now) (update_from_discovery x a m)).1
      ≡ false
unfolding update_from_discovery place_peer introduce_peer with_peer_by_ip greet is_connected
    new_peer
stranger_not_connected x node now a m (no_ip, no_key) =
    rw (no_ip, update_from_discovery)
      (rw (no_key, place_peer)
        (rw
          (
            lookup-insert_self a.wolfnet_ip _ (remove_peer a.wolfnet_ip m).peers_by_ip,
            with_peer_by_ip,
          )
          refl))

-- A stranger's handshake is answered, at the address that it came from.
stranger_answered :
    (x : External) (node : Node) (now : ℕ) (packet : Bytes) (src : SocketAddr) (w : World)
    (h : Handshake)
    → parse_handshake x packet ≡ some h
    → IsUnknown w.manager h.ip h.public_key
    → (handle_handshake x node now packet src w).sent ≡ w.sent ++ (src, handshake_of node) ∷ []
unfolding handle_handshake
stranger_answered x node now packet src w h parsed stranger =
    rw
      (
        parsed,
        handle_handshake,
        stranger_not_connected x node now (announcement_of h src) w.manager stranger,
      )
      refl

-- Two nodes link up with one handshake: the node that gets it from a stranger links to its sender
-- and answers with its own handshake, and the sender links to the node when the answer arrives.
-- Each then has a connected peer at the other's address, under the other's key, and the two
-- sessions have one key and opposite sides. The nodes have key pairs of their own with keys of 32
-- bytes, a `u16` port and a UTF-8 host name, and the addresses in each table are distinct.
pub handshake_exchange :
    (x : External) (law : IsLawful x) (a b : Node) (now later : ℕ) (src_a src_b : SocketAddr)
    (w_a w_b : World)
    → IsPresentable x a
    → IsPresentable x b
    → IsKeyPair x a.keys
    → IsKeyPair x b.keys
    → a.keys.public ≢ b.keys.public
    → NodupKeys w_a.manager.peers_by_ip
    → NodupKeys w_b.manager.peers_by_ip
    → IsUnknown w_b.manager a.wolfnet_ip a.keys.public
    → let w_b' = handle_handshake x b now (handshake_of a) src_a w_b in
      let w_a' = handle_handshake x a later (handshake_of b) src_b w_a in
      let at_a = session x a.keys b.keys.public in
      let at_b = session x b.keys a.keys.public in
      IsLinked x b now a.wolfnet_ip a.keys.public w_b'.manager
      × (w_b'.sent ≡ w_b.sent ++ (src_a, handshake_of b) ∷ [])
      × IsLinked x a later b.wolfnet_ip b.keys.public w_a'.manager
      × (at_a.key ≡ at_b.key)
      × (at_a.is_low_side ≡ not at_b.is_low_side)
handshake_exchange x law a b now later src_a src_b w_a w_b pa pb ka kb differ ua ub stranger =
    let parsed_a = handshake_of-presented x law a pa in
    let parsed_b = handshake_of-presented x law b pb in
    let (key, side) = sessions_agree x law a.keys b.keys ka kb differ in
    (
      handle_handshake-IsLinked x b now (handshake_of a) src_a w_b (presented a) ub parsed_a,
      stranger_answered x b now (handshake_of a) src_a w_b (presented a) parsed_a stranger,
      handle_handshake-IsLinked x a later (handshake_of b) src_b w_a (presented b) ua parsed_b,
      key,
      side,
    )
