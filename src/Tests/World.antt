-- ===== src/Tests/World.antt =====
-- The nodes, peers and packets of the tests.
use wolf_net.Shared.{codes, ℕ, true, false, [], ◌∷◌, none, some, replicate}
use wolf_net.Net.{Bytes, Text, Ipv4Addr, ipv4, SocketAddr, v4}
use wolf_net.Crypto.{KeyPair, SessionCipher}
use wolf_net.Peer.{Peer}
use wolf_net.Manager.{PeerManager, Announcement}
use wolf_net.Config.{default_config}
use wolf_net.Config.Files.{Toml}
use wolf_net.Daemon.{Node, World}

abbrev pub address : ℕ → Ipv4Addr
address n = ipv4 10 0 0 n

abbrev pub key : ℕ → Bytes
key n = n ∷ replicate 31 0

abbrev pub keys : ℕ → KeyPair
keys n = record { secret = key n; public = key n }

abbrev pub id : ℕ → Bytes
id n = n ∷ 0 ∷ 0 ∷ 0 ∷ []

abbrev pub home : SocketAddr
home = v4 (ipv4 203 0 113 2) 9600

abbrev pub away : SocketAddr
away = v4 (ipv4 198 51 100 7) 4500

abbrev pub configured : Text
configured = b'd' ∷ b'n' ∷ b's' ∷ []

abbrev pub cipher : SessionCipher
cipher = record { key = replicate 32 7; send_counter = 0; recv_counter = 0; is_low_side = true }

abbrev pub friend : Peer
friend = record {
  public_key = key 2;
  id = id 2;
  wolfnet_ip = address 2;
  endpoint = some home;
  hostname = [];
  cipher = some cipher;
  is_gateway = false;
  last_seen = some 0;
  rx_bytes = 0;
  tx_bytes = 0;
  last_handshake = some 0;
  relay_via = none;
  configured_endpoint = some configured;
  last_data_rx = none;
}

abbrev pub table : Peer → PeerManager
table p = record {
  peers_by_ip = (address 2, p) ∷ [];
  id_to_ip = (id 2, address 2) ∷ [];
  endpoint_to_ip = (home, address 2) ∷ [];
  subnet_routes = [];
  subnet_routes_cidrs = [];
  subnet_routes_cidrs_v6 = [];
  purged_ips = [];
}

abbrev pub node : Node
node = record {
  keys = keys 1;
  wolfnet_ip = address 1;
  listen_port = 9600;
  hostname = [];
  is_gateway = false;
}

abbrev pub world : World
world = record { manager = table friend; send_buf = replicate 60 0; sent = []; delivered = [] }

abbrev pub hello : Announcement
hello = record {
  key = key 2;
  source = away;
  wolfnet_ip = address 2;
  hostname = b'a' ∷ [];
  is_gateway = true;
}

-- A printer that writes the two sections and a reader that knows the defaults.
abbrev pub sections : Text
sections = codes "[network][security]"

abbrev pub sample_toml : Toml
sample_toml = record { from_str = λ t. some default_config; to_string_pretty = λ c. some sections }
