-- ===== src/Tun/Header.antt =====
-- The addresses that the readers of src/tun.rs find in a packet.
use wolf_net.Shared.{◌≡◌, arith, none, some, length, drop, length-take, length-drop}
use wolf_net.Net.{Bytes}
use wolf_net.Tun.{get_dest_ip, get_dest_ip6}

-- A packet with a v6 destination has no v4 destination, and the address has sixteen octets.
pub dest_families :
    (packet ip : Bytes)
    → get_dest_ip6 packet ≡ some ip
    → (get_dest_ip packet ≡ none) × (length ip ≡ 16)
unfolding get_dest_ip get_dest_ip6
dest_families packet ip h =
    (ground arith, ground (arith, length-take 16 (drop 24 packet), length-drop 24 packet))
