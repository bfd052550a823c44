-- ===== src/Daemon/Boot.antt =====
-- `run_daemon` of src/main.rs up to its loop, and what it does after the loop. What the system gives
-- is a Host; the threads, the signal handlers and the log are left out.
pub mod Joined
use wolf_net.Shared.{ℕ, Bool, true, false, not, List, [], Option, none, some, if◌then◌else◌}
use wolf_net.Net.{Bytes, Text, Ipv4Addr}
use wolf_net.External.{External}
use wolf_net.Crypto.{KeyPair}
use wolf_net.Crypto.KeyFile.{load_or_generate}
use wolf_net.Config.{Config, ip_addr, cidr}
use wolf_net.Config.Files.{Toml}
use wolf_net.Cli.{Disk, Supply, load_config}
use wolf_net.Gateway.{Command, System, enable_gateway, disable_gateway}
use wolf_net.Tun.Device.{Machine, Interface, configure}
use wolf_net.Daemon.{Node}
use wolf_net.Daemon.Periodic.{RouteFiles}
use wolf_net.Daemon.Run.{State, start}

-- The device is created under a name, and the socket is bound, or not; `words` are those of the
-- default route.
pub record Host : Type 0 where
  pub supply : Supply
  pub hostname : Text
  pub device : Option Text
  pub machine : Machine
  pub is_nm_wanted : Bool
  pub is_bound : Bool
  pub gateway : System
  pub words : List Text
  pub now : ℕ
  pub routes : RouteFiles
  pub send_buf : Bytes

-- A daemon that is in its loop, with the commands that its gateway has tried.
pub record Running : Type 0 where
  pub config : Config
  pub device : Text
  pub node : Node
  pub state : State
  pub gateway_commands : List Command

abbrev pub interface_of : Config → Text → Interface
interface_of c device = record {
  name = device;
  address = c.network.address;
  subnet = c.network.subnet;
  mtu = c.network.mtu;
}

abbrev pub node_of : Host → Config → Ipv4Addr → KeyPair → Node
node_of host c ip keys = record {
  keys = keys;
  wolfnet_ip = ip;
  listen_port = c.network.listen_port;
  hostname = host.hostname;
  is_gateway = c.network.gateway;
}

abbrev pub running : External → Host → Config → Ipv4Addr → KeyPair → Text → Running
running x host c ip keys device = record {
  config = c;
  device = device;
  node = node_of host c ip keys;
  state = start x (node_of host c ip keys) host.now c.peers host.routes host.send_buf;
  gateway_commands =
      if c.network.gateway then (enable_gateway host.gateway host.words device (cidr c)).0 else [];
}

-- The device and the socket.
unfoldable pub bring_online : External → Host → Config → Ipv4Addr → KeyPair → Option Running
unfolding configure start enable_gateway cidr
bring_online x host c ip keys = elim host.device [
  | none ↦ none
  | some device ↦
      if not (configure host.machine (interface_of c device) host.is_nm_wanted).1
      then none
      else if not host.is_bound
      then none
      else some (running x host c ip keys device)
]

-- The daemon, unless it exits with an error, and the files afterwards. A key pair is only made where
-- the configuration names an address.
unfoldable pub boot : External → Toml → Host → Disk → Option Running × Disk
unfolding load_config ip_addr load_or_generate bring_online
boot x toml host disk =
    let (config, files) = load_config x toml disk.config in
    elim config [
      | none ↦ (none, record disk { config = files })
      | some c ↦ elim (ip_addr c) [
        | none ↦ (none, record disk { config = files })
        | some ip ↦
            let (made, file) = load_or_generate x host.supply.random host.supply.outcome disk.key in
            elim made [
              | none ↦ (none, record { config = files; key = file })
              | some keys ↦ (bring_online x host c ip keys, record { config = files; key = file })
            ]
      ]
    ]

-- The commands after the loop.
unfoldable pub shut_down : Running → List Text → List Command
unfolding disable_gateway cidr
shut_down r words =
    if r.config.network.gateway then disable_gateway words r.device (cidr r.config) else []
