-- ===== src/Tests/Daemon.antt =====
-- The theorems on the daemon of src/main.rs, applied.
use wolf_net.Config.{PeerConfig}
use wolf_net.Shared.{true}
use wolf_net.Shared.{◌≡◌, refl, arith, [], ◌∷◌, ◌++◌, some, none, replicate, lookup}
use wolf_net.Shared.{bytes_eq}
use wolf_net.External.Sample.{sample, sample-IsLawful}
use wolf_net.Net.{Bytes, ip_eq, socket_eq}
use wolf_net.Manager.{find_ip_by_endpoint_or_id}
use wolf_net.Transport.Senders.{encrypted_to}
use wolf_net.Daemon.{encrypt_and_send}
use wolf_net.Daemon.Packet.{SendsAs, encrypt_and_send-encrypted_to}
use wolf_net.Daemon.Inbound.{handle_data}
use wolf_net.Daemon.Inbound.Forged.{IsInert, forged-IsInert}
use wolf_net.Daemon.Reload.Ghosts.{StandsAlone, IsGhost, reload_drops_ghosts}
use wolf_net.Daemon.Periodic.{RouteFiles}
use wolf_net.Daemon.Reload.{reload, reload_peers, configured_ips, configured_endpoints}
use wolf_net.Manager.{contains, all_ips, find_ip_by_endpoint}
use wolf_net.Shared.{false}
use wolf_net.Tests.World.{keys}
use wolf_net.Shared.{◌⊎◌, bytes_eq, nat_eq, option_eq}
use wolf_net.Net.{Text, SocketAddr, ipv4_of_parts, parse_socket_v4, is_unusable_endpoint}
use wolf_net.Peer.{Peer}
use wolf_net.Pex.{parse_socket}
use wolf_net.Manager.{update_endpoint_if_roaming}
use wolf_net.Tun.{get_dest_ip}
use wolf_net.Daemon.{resolve_endpoint}
use wolf_net.Daemon.Inbound.{forward}
use wolf_net.Daemon.Inbound.Delivery.{IsOwn, forward_delivers}
use wolf_net.Daemon.Reload.{reload_endpoint}
use wolf_net.Daemon.Reload.Pinning.{reload_misses}
use wolf_net.Tests.World.{address, id, home, away, friend, cipher, table, node, world}

abbrev text : Bytes
text = 69 ∷ 1 ∷ 2 ∷ []

encrypt_and_send-encrypted_to_example :
    SendsAs
      (encrypt_and_send sample 5 (id 1) (replicate 60 9) text friend)
      (encrypted_to sample 5 (id 1) text friend)
encrypt_and_send-encrypted_to_example =
    encrypt_and_send-encrypted_to sample sample-IsLawful 5 (id 1) (replicate 60 9) text friend refl
      (omega arith)

-- Five bytes of ciphertext hold no tag.
abbrev forged : Bytes
forged = 3 ∷ (id 2 ++ replicate 8 0 ++ replicate 5 1)

claimed : find_ip_by_endpoint_or_id away (id 2) (table friend) ≡ some (address 2)
unfolding find_ip_by_endpoint_or_id lookup socket_eq bytes_eq
claimed = refl

known : lookup (address 2) (table friend).peers_by_ip ≡ some friend
unfolding lookup ip_eq
known = refl

forged-IsInert_example : IsInert world (handle_data sample node 5 forged away world)
forged-IsInert_example =
    forged-IsInert sample sample-IsLawful node 5 forged away world (address 2) friend cipher claimed
      known refl refl

-- A reload that finds no entries, with a peer that has not been heard of for too long.
abbrev no_files : RouteFiles
no_files = record { routes = none; subnet_routes = none }

there_before :
    lookup
      (address 2)
      (reload_peers sample 500000000000
        (keys 1)
        (all_ips (table friend))
        []
        (table friend)).peers_by_ip
    ≡ some friend
unfolding reload_peers lookup ip_eq
there_before = refl

reload_drops_ghosts_example :
    let after =
      lookup
        (address 2)
        (reload sample 500000000000 (keys 1) [] no_files (table friend)).peers_by_ip in
    ((contains (configured_ips []) (address 2) ≡ true) × (after ≡ some friend))
    ⊎ (((contains (configured_ips []) (address 2) ≡ false)
          × StandsAlone 500000000000 (configured_endpoints sample []) friend
          × (after ≡ some friend))
        ⊎ ((contains (configured_ips []) (address 2) ≡ false)
            × IsGhost 500000000000 (configured_endpoints sample []) friend
            × (after ≡ none)))
reload_drops_ghosts_example =
    reload_drops_ghosts sample 500000000000 (keys 1) [] no_files (table friend) (address 2) friend
      there_before

abbrev transit : Bytes
transit = 69 ∷ (replicate 15 0 ++ 10 ∷ 0 ∷ 0 ∷ 9 ∷ [])

forward_delivers_example :
    ((forward sample node 5 transit world).delivered ≡ world.delivered)
    ⊎ IsOwn node world.manager (address 9)
unfolding get_dest_ip
forward_delivers_example = forward_delivers sample node 5 transit world (address 9) refl

-- 203.0.113.2:9600
abbrev home_text : Text
home_text =
    b'2' ∷ b'0' ∷ b'3' ∷ b'.' ∷ b'0' ∷ b'.' ∷ b'1' ∷ b'1' ∷ b'3' ∷ b'.' ∷ b'2' ∷ b':' ∷ b'9' ∷ b'6'
    ∷ b'0' ∷ b'0' ∷ []

home_resolves : resolve_endpoint sample home_text ≡ some home
unfolding resolve_endpoint parse_socket parse_socket_v4 ipv4_of_parts is_unusable_endpoint
home_resolves = refl

abbrev entry : PeerConfig
entry = record { public_key = []; endpoint = some home_text; allowed_ip = []; name = none }

-- A peer without an endpoint in the configuration, which was learned at this one.
abbrev roamer : SocketAddr → Peer
roamer ep = record friend { endpoint = some ep; configured_endpoint = none }

roamer_known :
    (ep : SocketAddr) → lookup (address 2) (table (roamer ep)).peers_by_ip ≡ some (roamer ep)
unfolding lookup ip_eq
roamer_known ep = refl

reload_misses_example :
    let after =
      (update_endpoint_if_roaming
        (address 2)
        away
        (reload_endpoint sample entry (address 2) (table (roamer home)))).0 in
    (lookup (address 2) after.peers_by_ip ≡ some (record (roamer home) { endpoint = some away }))
    × (find_ip_by_endpoint away after ≡ some (address 2))
reload_misses_example =
    reload_misses sample entry (address 2) (table (roamer home)) (roamer home) home_text home away
      (roamer_known home) refl home_resolves refl refl
