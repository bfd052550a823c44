-- ===== src/Tests/Run.antt =====
-- The theorems on runs of the daemon of src/main.rs and on links between two nodes, applied.
use wolf_net.Shared.{
  ℕ, ◌≡◌, ◌≢◌, ◌≤◌, refl, arith, true, false, not, [], ◌∷◌, ◌++◌, some, none, replicate, lookup,
  length,
}
use wolf_net.External.Sample.{sample, sample-IsLawful}
use wolf_net.Net.{Bytes, Text, ip_eq, Ipv4Addr}
use wolf_net.Peer.{Peer, is_connected, is_passing_data}
use wolf_net.Peer.Health.{IsHealthy}
use wolf_net.Daemon.{Node, World, send_to_peer}
use wolf_net.Daemon.Periodic.{RouteFiles}
use wolf_net.Daemon.Run.{State, start, datagram, react, Reach}
use wolf_net.Daemon.Run.Reached.{reached-IsHealthy}
use wolf_net.Daemon.Run.Linking.{reached_handshake_links}
use wolf_net.Transport.{Handshake, parse_handshake}
use wolf_net.Crypto.{encrypt, is_stale}
use wolf_net.Crypto.Direction.{session}
use wolf_net.Tun.{get_dest_ip}
use wolf_net.Manager.{new_manager, find_peer, find_ip_by_endpoint_or_id}
use wolf_net.Transport.{build_data_packet}
use wolf_net.Daemon.Inbound.{handle_handshake, handle_datagram}
use wolf_net.Daemon.Link.Tunnel.{MaySend, MayReceive, packet_through_tunnel}
use wolf_net.Peer.{is_passing_data}
use wolf_net.Daemon.{World, send_to_peer}
use wolf_net.Shared.{not}
use wolf_net.Tests.World.{sample_toml, cipher, world, friend}
use wolf_net.Daemon.Outbound.{is_broadcast, handle_tun}
use wolf_net.Daemon.Outbound.Once.{AtMostOne, is_broadcast_packet, handle_tun-AtMostOne}
use wolf_net.Daemon.Link.{IsLinked, handshake_exchange}
use wolf_net.Daemon.Link.{handshake_of, IsLinked, handshake_exchange}
use wolf_net.Tests.World.{address, keys, key, id, home, away, node, world, friend}

abbrev pub no_files : RouteFiles
no_files = record { routes = none; subnet_routes = none }

-- The other node, which is at address 2.
abbrev other : Node
other = record {
  keys = keys 2;
  wolfnet_ip = address 2;
  listen_port = 9600;
  hostname = [];
  is_gateway = false;
}

-- The daemon has started, and at 9 the other node's handshake comes in, and then its data.
abbrev pub begun : State
begun = start sample node 5 [] no_files (replicate 60 0)

abbrev waited : State
waited = record begun { clock = 9 }

abbrev greeted : State
greeted = react sample sample_toml node (datagram (handshake_of other) away) waited

abbrev packet : Bytes
packet = 69 ∷ (replicate 15 0 ++ 10 ∷ 0 ∷ 0 ∷ 1 ∷ [])

abbrev pub supplied : State
supplied =
    react sample sample_toml node
      (datagram (3 ∷ (id 2 ++ replicate 8 0 ++ packet ++ replicate 16 0)) away) greeted

abbrev newcomer : Peer
newcomer = record friend {
  endpoint = some away;
  last_seen = some 9;
  last_handshake = some 9;
  configured_endpoint = none;
}

abbrev active : Peer
active = record newcomer { rx_bytes = 20; last_data_rx = some 9 }

greeted_knows : lookup (address 2) greeted.world.manager.peers_by_ip ≡ some newcomer
unfolding lookup react wolf_net.Transport.build_handshake wolf_net.Daemon.Inbound.handle_handshake
    wolf_net.Transport.parse_handshake start wolf_net.Routes.load_subnet_routes
    wolf_net.Routes.load_routes wolf_net.Manager.place_peer wolf_net.Manager.find_peer
    wolf_net.Manager.introduce_peer wolf_net.Shared.insert ip_eq wolf_net.Daemon.Inbound.greet
    is_connected wolf_net.Crypto.peer_id wolf_net.Crypto.new_cipher wolf_net.Shared.lex_lt
greeted_knows = refl

begun_waits : begun.clock ≤ 9
unfolding start
begun_waits = omega arith

run_to_greeted : Reach sample sample_toml node begun greeted
run_to_greeted =
    Reach.then waited (datagram (handshake_of other) away)
      (Reach.wait begun 9 begun_waits Reach.begin)

reached-IsHealthy_example : IsHealthy sample node.keys greeted.clock (address 2) newcomer
reached-IsHealthy_example =
    reached-IsHealthy sample sample_toml node 5 [] no_files (replicate 60 0) greeted (address 2)
      newcomer run_to_greeted greeted_knows

-- The other node greets again from a new address.
abbrev greeting : Bytes
greeting = key 2 ++ 10 ∷ 0 ∷ 0 ∷ 2 ∷ 128 ∷ 37 ∷ 0 ∷ []

abbrev introduced : Handshake
introduced = record {
  public_key = key 2;
  ip = address 2;
  port = 9600;
  is_gateway = false;
  hostname = [];
}

greeting_parses : parse_handshake sample (1 ∷ greeting) ≡ some introduced
unfolding parse_handshake
greeting_parses = refl

reached_handshake_links_example :
    IsLinked sample node greeted.clock
      (address 2)
      (key 2)
      (react sample sample_toml node (datagram (1 ∷ greeting) home) greeted).world.manager
reached_handshake_links_example =
    reached_handshake_links sample sample_toml node 5 [] no_files (replicate 60 0) greeted 1
      greeting home introduced run_to_greeted greeting_parses

pub run_to_supplied : Reach sample sample_toml node begun supplied
run_to_supplied =
    Reach.then greeted (datagram (3 ∷ (id 2 ++ replicate 8 0 ++ packet ++ replicate 16 0)) away)
      run_to_greeted

supplied_knows : lookup (address 2) supplied.world.manager.peers_by_ip ≡ some active
unfolding lookup react wolf_net.Transport.build_handshake wolf_net.Daemon.Inbound.handle_handshake
    wolf_net.Transport.parse_handshake start wolf_net.Routes.load_subnet_routes
    wolf_net.Routes.load_routes wolf_net.Manager.place_peer wolf_net.Manager.find_peer
    wolf_net.Manager.introduce_peer wolf_net.Shared.insert ip_eq wolf_net.Daemon.Inbound.greet
    is_connected wolf_net.Crypto.peer_id wolf_net.Crypto.new_cipher wolf_net.Shared.lex_lt
    wolf_net.Daemon.Inbound.handle_data wolf_net.Net.socket_eq wolf_net.Daemon.Inbound.open_packet
    wolf_net.Peer.decrypt_into wolf_net.Crypto.decrypt_into wolf_net.Crypto.is_stale
    wolf_net.Daemon.Inbound.handle_plaintext wolf_net.Shared.write_at
    wolf_net.Daemon.Inbound.forward wolf_net.Tun.get_dest_ip wolf_net.Shared.option_eq
    wolf_net.Crypto.advance
supplied_knows = refl

abbrev empty_world : World
empty_world = record { manager = new_manager; send_buf = replicate 60 0; sent = []; delivered = [] }

handshake_exchange_example :
    let w_b' = handle_handshake sample other 5 (handshake_of node) home empty_world in
    let w_a' = handle_handshake sample node 7 (handshake_of other) away empty_world in
    IsLinked sample other 5 (address 1) (key 1) w_b'.manager
    × (w_b'.sent ≡ (home, handshake_of other) ∷ [])
    × IsLinked sample node 7 (address 2) (key 2) w_a'.manager
    × ((session sample (keys 1) (key 2)).key ≡ (session sample (keys 2) (key 1)).key)
    × ((session sample (keys 1) (key 2)).is_low_side
        ≡ not (session sample (keys 2) (key 1)).is_low_side)
unfolding new_manager lookup find_peer
handshake_exchange_example =
    handshake_exchange sample sample-IsLawful node other 5 7 home away empty_world empty_world
      (refl, omega arith, refl) (refl, omega arith, refl) refl refl (λ e. ground arith) tt tt
      (refl, refl)

-- The peer that the other node has for this one.
abbrev sender : Peer
sender = record newcomer {
  public_key = key 1;
  id = id 1;
  wolfnet_ip = address 1;
  cipher = some (record cipher { is_low_side = false });
}

abbrev other_world : World
other_world = record empty_world {
  manager = record new_manager {
    peers_by_ip = (address 1, sender) ∷ [];
    id_to_ip = (id 1, address 1) ∷ [];
  };
}

abbrev outgoing : Bytes
outgoing = 69 ∷ (replicate 15 0 ++ 10 ∷ 0 ∷ 0 ∷ 2 ∷ [])

may_send : MaySend node 5 world (address 2) home cipher outgoing
unfolding lookup ip_eq is_connected
may_send = (friend, refl, refl, refl, refl, omega arith)

may_receive : MayReceive other_world away (id 1) (record cipher { is_low_side = false })
unfolding lookup ip_eq find_ip_by_endpoint_or_id new_manager wolf_net.Shared.bytes_eq
may_receive = (address 1, sender, refl, refl, refl)

packet_through_tunnel_example :
    let sealed = build_data_packet (id 1) 0 (outgoing ++ replicate 16 0) in
    ((send_to_peer sample node 5 outgoing (address 2) world).0.sent ≡ (home, sealed) ∷ [])
    × ((handle_datagram sample other 6 sealed away other_world).delivered ≡ outgoing ∷ [])
unfolding encrypt is_stale get_dest_ip wolf_net.Crypto.peer_id
packet_through_tunnel_example =
    packet_through_tunnel sample sample-IsLawful node other 5 6 outgoing
      (outgoing ++ replicate 16 0) (address 2) home away world other_world cipher
      (record cipher { is_low_side = false }) 0 may_send may_receive refl refl refl (omega arith)
      refl refl

single : is_broadcast_packet node outgoing ≡ false
unfolding is_broadcast get_dest_ip ip_eq
single = refl

handle_tun-AtMostOne_example : AtMostOne world.sent (handle_tun sample node 5 outgoing world).sent
handle_tun-AtMostOne_example = handle_tun-AtMostOne sample node 5 outgoing world single
