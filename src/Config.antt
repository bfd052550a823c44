-- ===== src/Config.antt =====
-- The configuration of src/config.rs: its data, its defaults and its two readers. The text of the
-- file is read and written by `toml`, which is a parameter.
pub mod Dedup
pub mod Migration
pub mod Files
use wolf_net.Shared.{ℕ, Bool, true, false, List, [], ◌∷◌, ◌++◌, Option, codes}
use wolf_net.Net.{Text, Ipv4Addr, parse_ipv4, decimal}

pub record NetworkConfig : Type 0 where
  pub interface : Text
  pub address : Text
  pub subnet : ℕ
  pub listen_port : ℕ
  pub bind_address : Text
  pub gateway : Bool
  pub discovery : Bool
  pub mtu : ℕ

pub record SecurityConfig : Type 0 where
  pub private_key_file : Text

pub record PeerConfig : Type 0 where
  pub public_key : Text
  pub endpoint : Option Text
  pub allowed_ip : Text
  pub name : Option Text

pub record Config : Type 0 where
  pub network : NetworkConfig
  pub security : SecurityConfig
  pub peers : List PeerConfig

abbrev default_interface : Text
default_interface = codes "wolfnet0"

abbrev default_subnet : ℕ
default_subnet = 24

abbrev default_port : ℕ
default_port = 9600

abbrev default_mtu : ℕ
default_mtu = 1400

abbrev default_bind_address : Text
default_bind_address = codes "0.0.0.0"

abbrev default_key_path : Text
default_key_path = codes "/etc/wolfnet/private.key"

abbrev pub default_security : SecurityConfig
default_security = record { private_key_file = default_key_path }

abbrev pub default_address : Text
default_address = codes "10.0.10.1"

-- `Config::default`
abbrev pub default_config : Config
default_config = record {
  network = record {
    interface = default_interface;
    address = default_address;
    subnet = default_subnet;
    listen_port = default_port;
    bind_address = default_bind_address;
    gateway = false;
    discovery = true;
    mtu = default_mtu;
  };
  security = default_security;
  peers = [];
}

unfoldable pub ip_addr : Config → Option Ipv4Addr
unfolding parse_ipv4
ip_addr config = parse_ipv4 config.network.address

unfoldable pub cidr : Config → Text
unfolding decimal
cidr config = config.network.address ++ b'/' ∷ decimal config.network.subnet
