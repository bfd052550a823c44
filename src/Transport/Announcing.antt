-- ===== src/Transport/Announcing.antt =====
-- The discovery message of src/transport.rs, from the broadcaster to the listener.
use wolf_net.Shared.{
  ℕ, ◌≤◌, ◌≡◌, refl, arith, Bool, true, false, [], ◌∷◌, ◌++◌, none, some, if◌then◌else◌, ◌==◌,
  bytes_eq, nat_eq, length,
}
use wolf_net.Net.{
  Bytes, Text, Ipv4Addr, IsIpv4, SocketAddr, with_port, ipv4_to_text, decimal, split,
}
use wolf_net.Net.Printed.{
  Lacks, split-append, split-Lacks, decimal-Lacks, parse_uint-decimal, parse_ipv4-ipv4_to_text,
}
use wolf_net.External.{External, IsLawful}
use wolf_net.Crypto.{parse_public_key, ok}
use wolf_net.Transport.{
  format_discovery, parse_discovery, discovery_of_parts, discovery_announcement, discovery_prefix,
  announced,
}

Lacks-append : (sep : ℕ) (s t : Text) → Lacks sep s → Lacks sep t → Lacks sep (s ++ t)
Lacks-append sep [] t h k = k
Lacks-append sep (c ∷ s) t h k = (h.0, Lacks-append sep s t h.1 k)

ipv4_to_text-Lacks : (ip : Ipv4Addr) → Lacks b'|' (ipv4_to_text ip)
unfolding ipv4_to_text
ipv4_to_text-Lacks ip =
    let free : (n : ℕ) → Lacks b'|' (decimal n) = λ n. decimal-Lacks b'|' n refl in
    Lacks-append b'|' (decimal ip.a) _ (free ip.a) (
      omega arith,
      Lacks-append b'|' (decimal ip.b) _ (free ip.b)
          (omega arith, Lacks-append b'|' (decimal ip.c) _ (free ip.c) (omega arith, free ip.d)),
    )

pub parse_public_key-encode :
    (x : External) (law : IsLawful x) (key : Bytes)
    → length key ≡ 32
    → parse_public_key x (x.base64_encode key) ≡ ok key
unfolding parse_public_key
parse_public_key-encode x law key whole =
    rw (law.trim-encode key, parse_public_key, law.base64_decode-encode key, whole) refl

abbrev flag_text : Bool → Text
flag_text b = (if b then b'G' else b'N') ∷ []

role_read : (b : Bool) → flag_text b == b'G' ∷ [] ≡ b
unfolding bytes_eq
role_read true = refl
role_read false = refl

role_Lacks : (b : Bool) → Lacks b'|' (flag_text b)
role_Lacks true = (omega arith, tt)
role_Lacks false = (omega arith, tt)

-- What the listener of one node makes of the broadcast of another: an announcement of its key, its
-- address, its name and its role, at the source's address with the advertised port.
module _ (x : External) (law : IsLawful x) (node_id : Text) (key : Bytes) (ip : Ipv4Addr) (port : ℕ)
    (hostname : Text) (is_gateway : Bool) (whole : length key ≡ 32) (four : IsIpv4 ip)
    (small : port ≤ 65535) (plain_id : Lacks b'|' node_id)
    (plain_key : Lacks b'|' (x.base64_encode key)) (plain_name : Lacks b'|' hostname) where
  split_message :
      split b'|' (format_discovery x node_id key ip port hostname is_gateway)
      ≡ discovery_prefix
        ∷ (b'1' ∷ [])
        ∷ node_id
        ∷ x.base64_encode key
        ∷ ipv4_to_text ip
        ∷ decimal port
        ∷ hostname
        ∷ flag_text is_gateway
        ∷ []
  unfolding format_discovery
  split_message =
      rw
        (
          split-append b'|' discovery_prefix _ (omega arith),
          split-append b'|' (b'1' ∷ []) _ (omega arith),
          split-append b'|' node_id _ plain_id,
          split-append b'|' (x.base64_encode key) _ plain_key,
          split-append b'|' (ipv4_to_text ip) _ (ipv4_to_text-Lacks ip),
          split-append b'|' (decimal port) _ (decimal-Lacks b'|' port refl),
          split-append b'|' hostname _ plain_name,
          split-Lacks b'|' _ (role_Lacks is_gateway),
        )
        refl

  pub parse_discovery-format_discovery :
      parse_discovery x (format_discovery x node_id key ip port hostname is_gateway)
      ≡ some (record {
        node_id = node_id;
        public_key = key;
        wolfnet_ip = ip;
        listen_port = port;
        hostname = hostname;
        is_gateway = is_gateway;
      })
  unfolding parse_discovery discovery_of_parts
  parse_discovery-format_discovery =
      rw
        (
          split_message,
          discovery_of_parts,
          parse_public_key-encode x law key whole,
          parse_ipv4-ipv4_to_text ip four,
          parse_uint-decimal 65535 port small (omega arith),
          role_read is_gateway,
        )
        refl

  -- What the listener announces to its manager.
  pub announcement_heard :
      (my_node_id : Text) (src : SocketAddr)
      → x.is_utf8 (format_discovery x node_id key ip port hostname is_gateway) ≡ true
      → discovery_announcement x my_node_id
          (format_discovery x node_id key ip port hostname is_gateway)
          src
        ≡ (if node_id == my_node_id
            then none
            else some (record {
              key = key;
              source = with_port src port;
              wolfnet_ip = ip;
              hostname = hostname;
              is_gateway = is_gateway;
            }))
  unfolding discovery_announcement announced
  announcement_heard my_node_id src utf8 =
      rw (discovery_announcement, utf8, parse_discovery-format_discovery) refl
