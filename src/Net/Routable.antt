-- ===== src/Net/Routable.antt =====
-- What `is_routable_endpoint` and `is_unusable_endpoint` accept.
use wolf_net.Shared.{ℕ, ◌≤◌, ◌<◌, ◌≡◌, ◌↔◌, ◌⊎◌, true, false, arith, nat_eq, bytes_eq}
use wolf_net.Net.Address.{Ipv4Addr, v4, is_routable_endpoint, is_unusable_endpoint}

-- The ranges that are never dialled, as their documents list them.
abbrev pub IsPrivate : Ipv4Addr → Type 0
IsPrivate ip =
    (ip.a ≡ 10)
    ⊎ (ip.a ≡ 127)
    ⊎ ((ip.a ≡ 172) × (16 ≤ ip.b) × (ip.b < 32))
    ⊎ ((ip.a ≡ 192) × (ip.b ≡ 168))
    ⊎ ((ip.a ≡ 169) × (ip.b ≡ 254))
    ⊎ ((224 ≤ ip.a) × (ip.a < 240))
    ⊎ ((ip.a ≡ 0) × (ip.b ≡ 0) × (ip.c ≡ 0) × (ip.d ≡ 0))

-- A v4 endpoint is refused exactly when its address lies in one of the reserved ranges.
pub routable_iff :
    (ip : Ipv4Addr) (port : ℕ) → (is_routable_endpoint (v4 ip port) ≡ false) ↔ IsPrivate ip
unfolding is_routable_endpoint
routable_iff ip port = ground arith

-- Every address that the PEX filter lets through is one that the resolver accepts, if it is v4.
pub routable-usable :
    (ip : Ipv4Addr) (port : ℕ)
    → is_routable_endpoint (v4 ip port) ≡ true
    → is_unusable_endpoint (v4 ip port) ≡ false
unfolding is_routable_endpoint is_unusable_endpoint
routable-usable ip port h = ground arith
