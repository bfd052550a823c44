-- ===== src/Daemon/Run/Linking.antt =====
-- A handshake in any state that the daemon of src/main.rs reaches.
use mathlib.Core.Option.{none-ne-some}
use wolf_net.Shared.{ℕ, ◌≡◌, true, Bool-cases, inl, inr, List, ◌∷◌, some, length, ltb, ◌==◌, nat_eq}
use wolf_net.Net.{Bytes, SocketAddr}
use wolf_net.External.{External}
use wolf_net.Config.{PeerConfig}
use wolf_net.Config.Files.{Toml}
use wolf_net.Tun.{byte_at}
use wolf_net.Transport.{Handshake, parse_handshake, pkt_handshake}
use wolf_net.Daemon.{Node}
use wolf_net.Daemon.Inbound.{handle_datagram}
use wolf_net.Daemon.Link.{IsLinked, handle_handshake-IsLinked}
use wolf_net.Daemon.Periodic.{RouteFiles}
use wolf_net.Daemon.Run.{State, start, datagram, react, Reach}
use wolf_net.Daemon.Run.Reached.{reached-NodupKeys}

-- What parses is marked as a handshake.
parsed_marked :
    (x : External) (packet : Bytes) (h : Handshake)
    → parse_handshake x packet ≡ some h
    → (byte_at packet 0 == pkt_handshake) ≡ true
unfolding parse_handshake
parsed_marked x packet h parsed = elim (Bool-cases (byte_at packet 0 == pkt_handshake)) [
  | inl marked ↦ marked
  | inr other ↦ elim (Bool-cases (ltb (length packet) 40)) [
    | inl short ↦ let e = rw (short, parse_handshake) at parsed in absurd (none-ne-some h e)
    | inr long ↦ let e = rw (long, other, parse_handshake) at parsed in absurd (none-ne-some h e)
  ]
]

-- In every state that the daemon reaches, a handshake that parses brings the link to its sender up:
-- whatever the table holds of the sender or at its address, the address that the handshake names then
-- has a peer of its key that is connected, under a new session of that key.
pub reached_handshake_links :
    (x : External) (toml : Toml) (node : Node) (now : ℕ) (peers : List PeerConfig)
    (files : RouteFiles) (buf : Bytes) (s : State) (b : ℕ) (packet : Bytes) (src : SocketAddr)
    (h : Handshake)
    → Reach x toml node (start x node now peers files buf) s
    → parse_handshake x (b ∷ packet) ≡ some h
    → IsLinked x node s.clock h.ip h.public_key
        (react x toml node (datagram (b ∷ packet) src) s).world.manager
unfolding react handle_datagram
reached_handshake_links x toml node now peers files buf s b packet src h run parsed =
    rw (parsed_marked x (b ∷ packet) h parsed) (
      handle_handshake-IsLinked x node s.clock (b ∷ packet) src s.world h
        (reached-NodupKeys x toml node now peers files buf s run) parsed)
