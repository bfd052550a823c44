-- ===== src/External.antt =====
-- The code that the program calls and does not contain: the crates sha2, x25519-dalek,
-- chacha20poly1305, base64 and serde_json, the system's name resolution, and of the standard
-- library the text forms of IPv6 addresses and the UTF-8 and Unicode tables. They are the fields
-- of one record, an argument of every definition that uses one; `IsLawful` states what their
-- documents promise.
pub mod Sample
use wolf_net.Shared.{ℕ, ◌+◌, ◌<◌, ◌≡◌, List, ◌++◌, Option, none, some, Bool, true, length}
use wolf_net.Net.{Bytes, Text, Ipv6Addr, IsIpv6, SocketAddr}

-- `PexEntry` of src/transport.rs.
pub record PexEntry : Type 0 where
  pub public_key : Text
  pub wolfnet_ip : Text
  pub endpoint : Option Text
  pub hostname : Text
  pub is_gateway : Bool

pub record External : Type 0 where
  -- SHA-256
  pub sha256 : Bytes → Bytes
  -- `PublicKey::from(&secret)`, and the shared secret of a secret and a public key
  pub public_of : Bytes → Bytes
  pub diffie_hellman : Bytes → Bytes → Bytes
  -- ChaCha20-Poly1305 by key and nonce: ciphertext with the tag behind it
  pub seal : Bytes → Bytes → Bytes → Option Bytes
  pub unseal : Bytes → Bytes → Bytes → Option Bytes
  -- and with the tag apart
  pub seal_detached : Bytes → Bytes → Bytes → Option (Bytes × Bytes)
  pub unseal_detached : Bytes → Bytes → Bytes → Bytes → Option Bytes
  pub base64_encode : Bytes → Text
  pub base64_decode : Text → Option Bytes
  pub trim : Text → Text
  pub from_utf8_lossy : Bytes → Text
  pub is_utf8 : Bytes → Bool
  pub parse_ipv6 : Text → Option Ipv6Addr
  pub parse_socket_v6 : Text → Option SocketAddr
  pub socket_v6_to_text : Ipv6Addr → ℕ → Text
  -- `to_socket_addrs`; `none` is an error
  pub resolve : Text → Option (List SocketAddr)
  -- serde_json on lists of PEX entries and on maps of strings
  pub entries_to_json : List PexEntry → Option Bytes
  pub entries_of_json : Bytes → Option (List PexEntry)
  pub map_of_json : Text → Option (List (Text × Text))

pub record IsLawful (x : External) : Type 0 where
  pub length-sha256 : (b : Bytes) → length (x.sha256 b) ≡ 32
  pub dh_comm :
      (s t : Bytes) → x.diffie_hellman s (x.public_of t) ≡ x.diffie_hellman t (x.public_of s)
  pub unseal-seal : (k n p c : Bytes) → x.seal k n p ≡ some c → x.unseal k n c ≡ some p
  pub length-seal : (k n p c : Bytes) → x.seal k n p ≡ some c → length c ≡ length p + 16
  pub seal_split :
      (k n p c t : Bytes) → x.seal_detached k n p ≡ some (c, t) → x.seal k n p ≡ some (c ++ t)
  pub seal_none : (k n p : Bytes) → x.seal_detached k n p ≡ none → x.seal k n p ≡ none
  pub length-seal_detached :
      (k n p c t : Bytes)
      → x.seal_detached k n p ≡ some (c, t)
      → (length c ≡ length p) × (length t ≡ 16)
  pub unseal_split :
      (k n c t : Bytes) → length t ≡ 16 → x.unseal k n (c ++ t) ≡ x.unseal_detached k n c t
  pub unseal_short : (k n c : Bytes) → length c < 16 → x.unseal k n c ≡ none
  pub length-unseal_detached :
      (k n c t p : Bytes) → x.unseal_detached k n c t ≡ some p → length p ≡ length c
  pub base64_decode-encode : (b : Bytes) → x.base64_decode (x.base64_encode b) ≡ some b
  pub trim-encode : (b : Bytes) → x.trim (x.base64_encode b) ≡ x.base64_encode b
  pub lossy_valid : (t : Text) → x.is_utf8 t ≡ true → x.from_utf8_lossy t ≡ t
  pub parse_ipv6-IsIpv6 : (t : Text) (ip : Ipv6Addr) → x.parse_ipv6 t ≡ some ip → IsIpv6 ip
  pub entries_round_trip :
      (es : List PexEntry) (b : Bytes)
      → x.entries_to_json es ≡ some b
      → x.entries_of_json b ≡ some es
