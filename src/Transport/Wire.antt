-- ===== src/Transport/Wire.antt =====
-- The packets of src/transport.rs, built and read back.
use wolf_net.Shared.{
  ℕ, ◌≤◌, ◌<◌, ◌^◌, ◌≡◌, ◌∙◌, ◌%◌, ◌/◌, refl, ap, arith, true, false, some, Bool, not, ◌∷◌, ◌++◌,
  [], length, get_or-append, take-append, drop-append, drop-append_add, length-append, ltb, ◌==◌,
  nat_eq, to_le_bytes, from_le_bytes, from_le_bytes-to_le_bytes, length-to_le_bytes,
}
use wolf_net.Net.{Bytes, Text, Ipv4Addr, ipv4}
use wolf_net.External.{External, IsLawful}
use wolf_net.Crypto.{KeyPair}
use wolf_net.Transport.{
  flag, pkt_handshake, pkt_data, build_handshake, parse_handshake, build_data_packet,
  parse_data_packet,
}

data_parts :
    (id le ciphertext : Bytes)
    → length id ≡ 4
    → length le ≡ 8
    → 1 ≤ length ciphertext
    → parse_data_packet (pkt_data ∷ (id ++ (le ++ ciphertext)))
      ≡ some (id, from_le_bytes le, ciphertext)
unfolding parse_data_packet
data_parts id le ciphertext four eight full =
    rw
      (
        long_enough,
        take-append 4 id (le ++ ciphertext) four,
        drop-append 4 id (le ++ ciphertext) four,
        take-append 8 le ciphertext eight,
        drop-append_add 4 8 id (le ++ ciphertext) four,
        drop-append 8 le ciphertext eight,
      )
      refl
  where
    long_enough : ltb (length (pkt_data ∷ (id ++ (le ++ ciphertext)))) 14 ≡ false
    long_enough = ground (arith, length-append id (le ++ ciphertext), length-append le ciphertext)

-- A data packet with a peer id of four bytes, a counter of 64 bits and a ciphertext that is not
-- empty is read back as its parts.
pub parse_data-build_data :
    (id : Bytes) (counter : ℕ) (ciphertext : Bytes)
    → length id ≡ 4
    → counter < 2 ^ 64
    → 1 ≤ length ciphertext
    → parse_data_packet (build_data_packet id counter ciphertext) ≡ some (id, counter, ciphertext)
unfolding build_data_packet
parse_data-build_data id counter ciphertext four small full =
    data_parts id (to_le_bytes 8 counter) ciphertext four (length-to_le_bytes 8 counter) full
    ∙ ap (λ n. some (id, n, ciphertext)) (from_le_bytes-to_le_bytes 8 counter small)

handshake_parts :
    (x : External) (key hostname : Bytes) (a b c d p q f : ℕ)
    → length key ≡ 32
    → parse_handshake x (pkt_handshake ∷ (key ++ (a ∷ b ∷ c ∷ d ∷ p ∷ q ∷ f ∷ hostname)))
      ≡ some (record {
        public_key = key;
        ip = ipv4 a b c d;
        port = from_le_bytes (p ∷ q ∷ []);
        is_gateway = not (f == 0);
        hostname = x.from_utf8_lossy hostname;
      })
unfolding parse_handshake
handshake_parts x key hostname a b c d p q f whole =
    rw
      (
        long_enough,
        take-append 32 key rest whole,
        get_or-append 32 0 key rest 0 whole,
        get_or-append 32 1 key rest 0 whole,
        get_or-append 32 2 key rest 0 whole,
        get_or-append 32 3 key rest 0 whole,
        get_or-append 32 4 key rest 0 whole,
        get_or-append 32 5 key rest 0 whole,
        get_or-append 32 6 key rest 0 whole,
        drop-append_add 32 7 key rest whole,
      )
      refl
  where
    rest : Bytes
    rest = a ∷ b ∷ c ∷ d ∷ p ∷ q ∷ f ∷ hostname

    long_enough : ltb (length (pkt_handshake ∷ (key ++ rest))) 40 ≡ false
    long_enough = ground (arith, length-append key rest)

flag_read : (b : Bool) → not (flag b == 0) ≡ b
unfolding nat_eq
flag_read true = refl
flag_read false = refl

-- A handshake is read back as its parts, where the key has 32 bytes, the port is a `u16` and the
-- host name is UTF-8.
pub parse_handshake-build_handshake :
    (x : External) (law : IsLawful x) (me : KeyPair) (ip : Ipv4Addr) (port : ℕ) (hostname : Text)
    (is_gateway : Bool)
    → length me.public ≡ 32
    → port < 65536
    → x.is_utf8 hostname ≡ true
    → parse_handshake x (build_handshake me ip port hostname is_gateway)
      ≡ some (record {
        public_key = me.public;
        ip = ip;
        port = port;
        is_gateway = is_gateway;
        hostname = hostname;
      })
unfolding build_handshake to_le_bytes
parse_handshake-build_handshake x law me ip port hostname is_gateway whole small utf8 =
    handshake_parts x me.public hostname ip.a ip.b ip.c ip.d (port % 256) (port / 256 % 256)
      (flag is_gateway) whole
    ∙ rw
        (
          from_le_bytes-to_le_bytes 2 port small,
          flag_read is_gateway,
          law.lossy_valid hostname utf8,
        )
        refl
