-- ===== src/Net/Address.antt =====
-- `Ipv4Addr`, `Ipv6Addr` and `SocketAddr`, with `is_routable_endpoint` of src/peer.rs and
-- `is_unusable_endpoint` of src/main.rs. An `Ipv6Addr` is the list of its sixteen octets; a v6
-- socket address keeps its address and port.
use native.Mathlib.Decide.{ℕ_discrete}
use wolf_net.Shared.{
  ℕ, ◌<◌, Bool, true, false, ◌&&◌, ◌||◌, List, [], ◌∷◌, ◌++◌, leb, if◌then◌else◌, Eq, ◌==◌,
  bytes_eq, nat_eq, replicate, length, ◌≡◌,
}

abbrev pub Bytes : Type 0
Bytes = List ℕ

-- A `String` is the list of its UTF-8 bytes.
abbrev pub Text : Type 0
Text = List ℕ

pub record Ipv4Addr : Type 0 where
  pub a : ℕ
  pub b : ℕ
  pub c : ℕ
  pub d : ℕ

abbrev pub Ipv6Addr : Type 0
Ipv6Addr = Bytes

pub data SocketAddr : Type 0 where
  v4 : Ipv4Addr → ℕ → SocketAddr
  v6 : Ipv6Addr → ℕ → SocketAddr

ip_dec : Discrete Ipv4Addr
unfolding ℕ_discrete
ip_dec = hlevel ℕ_discrete

instance unfoldable pub ip_eq : Eq Ipv4Addr
unfolding ip_dec
ip_eq = record { dec = ip_dec }

socket_dec : Discrete SocketAddr
unfolding ℕ_discrete
socket_dec = hlevel ℕ_discrete

instance unfoldable pub socket_eq : Eq SocketAddr
unfolding socket_dec
socket_eq = record { dec = socket_dec }

abbrev pub IsByte : ℕ → Type 0
IsByte n = n < 256

abbrev pub IsIpv4 : Ipv4Addr → Type 0
IsIpv4 ip = IsByte ip.a × IsByte ip.b × IsByte ip.c × IsByte ip.d

abbrev pub AreBytes : Bytes → Type 0
AreBytes [] = Unit
AreBytes (b ∷ bs) = IsByte b × AreBytes bs

-- Sixteen octets.
abbrev pub IsIpv6 : Ipv6Addr → Type 0
IsIpv6 ip = (length ip ≡ 16) × AreBytes ip

abbrev pub ipv4 : ℕ → ℕ → ℕ → ℕ → Ipv4Addr
ipv4 a b c d = record { a = a; b = b; c = c; d = d }

abbrev pub octets : Ipv4Addr → Bytes
octets ip = ip.a ∷ ip.b ∷ ip.c ∷ ip.d ∷ []

-- `Ipv4Addr::BROADCAST`
abbrev pub broadcast : Ipv4Addr
broadcast = ipv4 255 255 255 255

-- `Ipv4Addr::new(o[0], o[1], o[2], 255)`
abbrev pub subnet_broadcast : Ipv4Addr → Ipv4Addr
subnet_broadcast ip = record ip { d = 255 }

abbrev pub is_loopback : Ipv4Addr → Bool
is_loopback ip = ip.a == 127

abbrev pub is_unspecified : Ipv4Addr → Bool
is_unspecified ip = ip.a == 0 && ip.b == 0 && ip.c == 0 && ip.d == 0

abbrev pub is_link_local : Ipv4Addr → Bool
is_link_local ip = ip.a == 169 && ip.b == 254

-- The first octet is 224 to 239.
abbrev pub is_multicast : Ipv4Addr → Bool
is_multicast ip = leb 224 ip.a && leb ip.a 239

unfoldable pub is_routable_ipv4 : Ipv4Addr → Bool
unfolding nat_eq
is_routable_ipv4 ip =
    if is_loopback ip
    then false
    else if is_unspecified ip
    then false
    else if is_link_local ip
    then false
    else if is_multicast ip
    then false
    else if ip.a == 10
    then false
    else if ip.a == 172 && (leb 16 ip.b && leb ip.b 31)
    then false
    else if ip.a == 192 && ip.b == 168
    then false
    else true

unfoldable pub is_routable_endpoint : SocketAddr → Bool
unfolding is_routable_ipv4
is_routable_endpoint (v4 ip port) = is_routable_ipv4 ip
is_routable_endpoint (v6 ip port) = true

unfoldable pub is_unusable_endpoint : SocketAddr → Bool
unfolding nat_eq bytes_eq
is_unusable_endpoint (v4 ip port) = is_unspecified ip || is_loopback ip
is_unusable_endpoint (v6 ip port) = ip == replicate 16 0 || ip == replicate 15 0 ++ 1 ∷ []

-- `SocketAddr::new(src.ip(), port)`
unfoldable pub with_port : SocketAddr → ℕ → SocketAddr
with_port (v4 ip old) port = v4 ip port
with_port (v6 ip old) port = v6 ip port
