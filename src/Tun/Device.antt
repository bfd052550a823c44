-- ===== src/Tun/Device.antt =====
-- `TunDevice` of src/tun.rs: the name of the device, and `configure` as the steps that it takes, in
-- order. What a command returns is the system's, and is given for the steps that came before it.
pub mod Configured
use wolf_net.Shared.{
  ℕ, ◌-◌, Bool, true, false, not, ◌&&◌, List, [], ◌∷◌, ◌++◌, Option, none, some, if◌then◌else◌,
  ◌==◌, nat_eq, take, length, replicate, codes,
}
use wolf_net.Net.{Bytes, Text, decimal}
use wolf_net.External.{External}
use wolf_net.Gateway.{Command, Exit, not_started, exited}

-- `ifr_name`: at most fifteen bytes of the name, then zeros.
unfoldable pub ifr_name : Text → Bytes
ifr_name name = take 15 name ++ replicate (16 - length (take 15 name)) 0

-- `trim_end_matches('\\0')`
unfoldable pub trim_zeros : Text → Text
unfolding nat_eq
trim_zeros [] = []
trim_zeros (c ∷ s) =
    let rest = trim_zeros s in elim rest [ [] ↦ if c == 0 then [] else c ∷ [] | d ∷ t ↦ c ∷ d ∷ t ]

-- The name of the device, from the field that the system has filled in.
unfoldable pub device_name : External → Text → Bytes → Text
unfolding trim_zeros
device_name x name field = trim_zeros (if x.is_utf8 field then field else name)

-- `read`: the bytes, none where it would block, or an error.
pub data Reading : Type 0 where
  packet : Bytes → Reading
  would_block : Reading
  failed : Reading

unfoldable pub read : Reading → Option Bytes
read (packet bytes) = some bytes
read would_block = some []
read failed = none

pub data Step : Type 0 where
  run : Command → Step
  write : Text → Text → Step

-- What the next command returns, after the steps that were taken.
abbrev pub Machine : Type 0
Machine = List Step → Command → Exit

pub record Interface : Type 0 where
  pub name : Text
  pub address : Text
  pub subnet : ℕ
  pub mtu : ℕ

abbrev command : Text → List Text → Command
command program args = record { program = program; args = args }

abbrev ip_link : Interface → List Text → Command
ip_link i change = command (codes "ip") (codes "link" ∷ codes "set" ∷ codes "dev" ∷ i.name ∷ change)

unfoldable pub cidr_of : Interface → Text
unfolding decimal
cidr_of i = i.address ++ b'/' ∷ decimal i.subnet

abbrev pub add_address : Interface → Command
add_address i =
    command (codes "ip") (codes "addr" ∷ codes "add" ∷ cidr_of i ∷ codes "dev" ∷ i.name ∷ [])

abbrev pub set_mtu : Interface → Command
set_mtu i = ip_link i (codes "mtu" ∷ decimal i.mtu ∷ [])

abbrev pub bring_up : Interface → Command
bring_up i = ip_link i (codes "up" ∷ [])

abbrev nm_conf : Text
nm_conf = codes "/etc/NetworkManager/conf.d/wolfnet.conf"

abbrev nm_text : Text
nm_text =
    codes "# WolfNet: prevent NetworkManager from managing the overlay interface."
    ++ 10 ∷ codes "[keyfile]"
    ++ 10 ∷ codes "unmanaged-devices=interface-name:wolfnet*"
    ++ 10 ∷ []

-- Written where its directory is there and the file is not.
abbrev network_manager : Bool → List Step
network_manager is_wanted =
    if is_wanted
    then write nm_conf nm_text
      ∷ run (command (codes "nmcli") (codes "general" ∷ codes "reload" ∷ []))
      ∷ []
    else []

-- The steps whose results are ignored.
unfoldable pub quiet_steps : Interface → Bool → List Step
quiet_steps i is_wanted =
    write (codes "/proc/sys/net/ipv6/conf/" ++ (i.name ++ codes "/disable_ipv6")) (codes "1")
    ∷ run (ip_link i (codes "multicast" ∷ codes "off" ∷ []))
    ∷ (network_manager is_wanted
        ++ run (
            command (codes "nmcli")
              (codes "device" ∷ codes "set" ∷ i.name ∷ codes "managed" ∷ codes "no" ∷ []))
          ∷ [])

abbrev pub find_tailscale : Command
find_tailscale = command (codes "pidof") (codes "tailscaled" ∷ [])

-- The rule against the loop, under `-C` and `-I`.
abbrev tailscale_rule : Text → Interface → Command
tailscale_rule flag i = command (codes "iptables") (
    flag
    ∷ codes "OUTPUT"
    ∷ codes "-p"
    ∷ codes "udp"
    ∷ codes "--dport"
    ∷ codes "41641"
    ∷ codes "-d"
    ∷ cidr_of i
    ∷ codes "-j"
    ∷ codes "DROP"
    ∷ [])

abbrev pub check_rule : Interface → Command
check_rule = tailscale_rule (codes "-C")

abbrev pub insert_rule : Interface → Command
insert_rule = tailscale_rule (codes "-I")

abbrev pub succeeds : Exit → Bool
succeeds not_started = false
succeeds (exited ok) = ok

-- The steps against the loop through Tailscale, after those that were taken.
unfoldable pub block_tailscale : Machine → Interface → List Step → List Step
block_tailscale sys i taken =
    let looked = taken ++ run find_tailscale ∷ [] in
    let checked = looked ++ run (check_rule i) ∷ [] in
    if succeeds (sys taken find_tailscale)
    then if not (succeeds (sys looked (check_rule i)))
      then checked ++ run (insert_rule i) ∷ []
      else checked
    else looked

-- The steps taken, and whether it is `Ok`.
unfoldable pub configure : Machine → Interface → Bool → List Step × Bool
unfolding block_tailscale quiet_steps
configure sys i is_wanted =
    let one = run (add_address i) ∷ [] in
    let two = run (add_address i) ∷ run (set_mtu i) ∷ [] in
    let three = run (add_address i) ∷ run (set_mtu i) ∷ run (bring_up i) ∷ [] in
    if not (succeeds (sys [] (add_address i))) then (one, false) else elim (sys one (set_mtu i)) [
      | not_started ↦ (two, false)
      | exited ok ↦
          if not (succeeds (sys two (bring_up i)))
          then (three, false)
          else (block_tailscale sys i (three ++ quiet_steps i is_wanted), true)
    ]
