-- ===== src/Ctl/Program/Reported.antt =====
-- What `wolfnetctl status` of src/ctl/main.rs says of the peers of the daemon of src/main.rs.
use wolf_net.Shared.{
  ℕ, ◌≡◌, ◌≤◌, ◌<◌, ◌+◌, refl, ap, arith, suc, true, Bool-cases, inl, inr, if◌then◌else◌, take,
  drop, ◌++◌, codes, ◌-◌, List, [], ◌∷◌, map, Option, some, length, get_or, Dict, lookup, NodupKeys,
  values,
}
use wolf_net.Net.{Bytes, Text, Ipv4Addr, ip_eq, ◌>>=◌}
use wolf_net.External.{External}
use wolf_net.Peer.{Peer, is_connected, is_passing_data}
use wolf_net.Status.{PeerStatus, peer_status, status}
use wolf_net.Config.{Config, PeerConfig}
use wolf_net.Config.Files.{Toml}
use wolf_net.Daemon.{Node}
use wolf_net.Daemon.Periodic.{RouteFiles}
use wolf_net.Daemon.Run.{State, start, Reach}
use wolf_net.Daemon.Run.Reached.{reached-NodupKeys, reached_passing_is_connected}
use wolf_net.Ctl.{
  count, is_handshake_only, format_duration, Summary, two_state, three_state, summary,
  daemon_reports_data_flow,
}
use wolf_net.Ctl.Agreement.{summary-shown_peers}
use wolf_net.Ctl.Lines.{NodeStatus}
use wolf_net.Ctl.Program.{
  StatusJson, StatusFile, complete, node_status, write_status, load_status, is_char_boundary,
  short_key, StatusLines, cmd_status, Surroundings, show_status, status_printed, ctl_main,
}

-- The numbers of the line account for all peers, and those that are not offline are the connected
-- ones.
abbrev pub IsAccount : ℕ → ℕ → Summary → Type 0
IsAccount total connected (two_state t c) = (t ≡ total) × (c ≡ connected)
IsAccount total connected (three_state t passing partial offline) =
    (t ≡ total) × (passing + partial ≡ connected) × (connected + offline ≡ total)

-- A property of what every address finds holds of every value.
abbrev pub EachPasses : ℕ → List Peer → Type 0
EachPasses now [] = Unit
EachPasses now (p ∷ ps) =
    (is_passing_data now p ≡ true → is_connected now p ≡ true) × EachPasses now ps

values-EachPasses :
    (now : ℕ) (d : Dict Ipv4Addr Peer)
    → NodupKeys d
    → ((ip : Ipv4Addr) (p : Peer)
        → lookup ip d ≡ some p
        → is_passing_data now p ≡ true
        → is_connected now p ≡ true)
    → EachPasses now (values d)
unfolding values lookup
values-EachPasses now [] unique h = tt
values-EachPasses now ((k, p) ∷ d) (fresh, unique) h =
    (h k p (ground arith), values-EachPasses now d unique (λ ip q found. h ip q (ground arith)))

-- Among such peers, those with data and those with handshakes only are the connected ones.
connected_split :
    (x : External) (now : ℕ) (ps : List Peer)
    → EachPasses now ps
    → count (λ (p : PeerStatus). p.data_flowing) (map (peer_status x now) ps)
        + count is_handshake_only (map (peer_status x now) ps)
      ≡ count (is_connected now) ps
unfolding peer_status
connected_split x now [] each = refl
connected_split x now (p ∷ ps) (here, each) = elim (Bool-cases (is_passing_data now p)) [
  | inl flows ↦ rw (flows, here flows) (omega (arith, connected_split x now ps each))
  | inr dry ↦ elim (Bool-cases (is_connected now p)) [
    | inl on ↦ rw (dry, on) (omega (arith, connected_split x now ps each))
    | inr off ↦ rw (dry, off) (omega (arith, connected_split x now ps each))
  ]
]

connected_count :
    (x : External) (now : ℕ) (ps : List Peer)
    → count (λ (p : PeerStatus). p.connected) (map (peer_status x now) ps)
      ≡ count (is_connected now) ps
unfolding peer_status
connected_count x now [] = refl
connected_count x now (p ∷ ps) =
    ap (λ n. if is_connected now p then 1 + n else n) (connected_count x now ps)

status_length :
    (x : External) (now : ℕ) (ps : List Peer) → length (map (peer_status x now) ps) ≡ length ps
status_length x now [] = refl
status_length x now (p ∷ ps) = ap suc (status_length x now ps)

summary-IsAccount :
    (x : External) (now : ℕ) (ps : List Peer)
    → EachPasses now ps
    → IsAccount (length ps) (count (is_connected now) ps) (summary (map (peer_status x now) ps))
unfolding summary
summary-IsAccount x now ps each =
    let reports = map (peer_status x now) ps in
    elim (Bool-cases (daemon_reports_data_flow reports)) [
      | inr old ↦ rw old (status_length x now ps, connected_count x now ps)
      | inl new ↦ rw new (
        status_length x now ps,
        connected_split x now ps each,
        omega (
          arith,
          status_length x now ps,
          connected_split x now ps each,
          (summary-shown_peers reports).1,
        ),
      )
    ]

-- A text of eight or more bytes, all of ASCII, as base64 gives for a key.
abbrev pub IsPlain : Text → Type 0
IsPlain t = (8 ≤ length t) × ((i : ℕ) → get_or t i 0 < 128)

plain_boundary :
    (i : ℕ) (t : Text) → i ≤ length t → ((j : ℕ) → get_or t j 0 < 128) → is_char_boundary i t ≡ true
unfolding is_char_boundary
plain_boundary i t le plain = let small = plain i in ground arith

short_key-IsPlain :
    (t : Text) → IsPlain t → short_key t ≡ some (take 8 t ++ (codes "..." ++ drop (length t - 4) t))
unfolding short_key
short_key-IsPlain t (long, plain) =
    let front = plain_boundary 8 t long plain in
    let back = plain_boundary (length t - 4) t (omega arith) plain in ground arith

abbrev lines_of : NodeStatus → StatusLines
lines_of n = record {
  hostname = n.hostname;
  address = n.address;
  interface = n.interface;
  listen_port = n.listen_port;
  gateway = n.gateway;
  key = take 8 n.public_key ++ (codes "..." ++ drop (length n.public_key - 4) n.public_key);
  uptime = format_duration n.uptime_secs;
  peers = summary n.peers;
}

cmd_status-IsPlain : (n : NodeStatus) → IsPlain n.public_key → cmd_status n ≡ some (lines_of n)
unfolding cmd_status
cmd_status-IsPlain n plain = rw (short_key-IsPlain n.public_key plain) refl

written_is_shown :
    (json : StatusJson) (n : NodeStatus) (text : Text) (file : StatusFile) (sur : Surroundings)
    → IsPlain n.public_key
    → json.to_text n ≡ some text
    → json.from_text text ≡ some n
    → ctl_main json (write_status json n complete file) sur show_status
      ≡ some (status_printed (lines_of n))
unfolding ctl_main write_status cmd_status short_key
written_is_shown json n text file sur plain printed parsed =
    rw (write_status, printed, ctl_main, load_status, parsed)
      (ap (λ (r : Option StatusLines). r >>= λ lines. some (status_printed lines))
        (cmd_status-IsPlain n plain))

-- In every state that the daemon reaches, once the status has been written: if what JSON wrote is read
-- back as it was, and the text of the public key is a plain one of eight bytes or more, then
-- `wolfnetctl status` does not fail, and the numbers on its line of peers are those of the daemon's
-- table: they account for all its peers, and the peers that are not said to be offline are as many as
-- are connected.
pub reached_status_accounts :
    (x : External) (toml : Toml) (node : Node) (now : ℕ) (peers : List PeerConfig)
    (files : RouteFiles) (buf : Bytes) (s : State) (config : Config) (start_time : ℕ)
    (json : StatusJson) (text : Text) (file : StatusFile) (sur : Surroundings)
    → Reach x toml node (start x node now peers files buf) s
    → IsPlain (x.base64_encode node.keys.public)
    → json.to_text (node_status x config node start_time s) ≡ some text
    → json.from_text text ≡ some (node_status x config node start_time s)
    → let table = values s.world.manager.peers_by_ip in
      (lines : StatusLines) × (ctl_main json
          (write_status json (node_status x config node start_time s) complete file)
          sur
          show_status
        ≡ some (status_printed lines))
      × IsAccount (length table) (count (is_connected s.clock) table) lines.peers
unfolding node_status status
reached_status_accounts x toml node now peers files buf s config start_time json text file sur run
      plain printed parsed =
    (
      lines_of (node_status x config node start_time s),
      written_is_shown json (node_status x config node start_time s) text file sur plain printed
          parsed,
      summary-IsAccount x s.clock (values s.world.manager.peers_by_ip) (
          values-EachPasses s.clock s.world.manager.peers_by_ip
            (reached-NodupKeys x toml node now peers files buf s run)
            (λ ip p. reached_passing_is_connected x toml node now peers files buf s ip p run)),
    )
