-- ===== src/Tests/Wire.antt =====
-- The theorems on addresses, packets and headers, applied.
use wolf_net.Shared.{refl}
use wolf_net.External.Sample.{sample_gateway}
use wolf_net.Net.{IsIpv4, parse_ipv4, ipv4_of_parts}
use wolf_net.Net.Parsed.{parse_ipv4-IsIpv4}
use wolf_net.Tests.World.{address}

parse_ipv4-IsIpv4_example : IsIpv4 (address 2)
unfolding parse_ipv4 ipv4_of_parts
parse_ipv4-IsIpv4_example = parse_ipv4-IsIpv4 sample_gateway (address 2) refl
