-- ===== src/Tun.antt =====
-- The packet readers of src/tun.rs. The device itself (`TunDevice`) is input and output.
pub mod Header
pub mod Device
use wolf_net.Shared.{
  ℕ, ◌/◌, Bool, Option, none, some, ltb, if◌then◌else◌, not, ◌==◌, nat_eq, length, take, drop,
  get_or,
}
use wolf_net.Net.{Bytes, Ipv4Addr, ipv4, Ipv6Addr}

-- `packet[i]`, where the length has been tested
abbrev pub byte_at : Bytes → ℕ → ℕ
byte_at packet i = get_or packet i 0

unfoldable pub get_dest_ip : Bytes → Option Ipv4Addr
unfolding nat_eq
get_dest_ip packet =
    if ltb (length packet) 20
    then none
    else if not (byte_at packet 0 / 16 == 4)
    then none
    else some (ipv4 (byte_at packet 16) (byte_at packet 17) (byte_at packet 18) (byte_at packet 19))

unfoldable pub get_src_ip : Bytes → Option Ipv4Addr
unfolding nat_eq
get_src_ip packet =
    if ltb (length packet) 20
    then none
    else if not (byte_at packet 0 / 16 == 4)
    then none
    else some (ipv4 (byte_at packet 12) (byte_at packet 13) (byte_at packet 14) (byte_at packet 15))

unfoldable pub get_dest_ip6 : Bytes → Option Ipv6Addr
unfolding nat_eq
get_dest_ip6 packet =
    if ltb (length packet) 40
    then none
    else if not (byte_at packet 0 / 16 == 6)
    then none
    else some (take 16 (drop 24 packet))
