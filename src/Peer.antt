-- ===== src/Peer.antt =====
-- `Peer` of src/peer.rs: one known peer, its session and its counters. An `Instant` is a number
-- of nanoseconds, and each method takes the time of its call.
pub mod Session
pub mod Health
use wolf_net.Shared.{ℕ, ◌+◌, ◌-◌, ◌/◌, Bool, true, false, ◌&&◌, [], Option, none, some, ltb, length}
use wolf_net.Net.{Bytes, Text, Ipv4Addr, SocketAddr}
use wolf_net.External.{External}
use wolf_net.Crypto.{SessionCipher, KeyPair, Result, ok, err, no_session, u64, new_cipher, peer_id}
use wolf_net.Crypto

pub record Peer : Type 0 where
  pub public_key : Bytes
  pub id : Bytes
  pub wolfnet_ip : Ipv4Addr
  pub endpoint : Option SocketAddr
  pub hostname : Text
  pub cipher : Option SessionCipher
  pub is_gateway : Bool
  pub last_seen : Option ℕ
  pub rx_bytes : ℕ
  pub tx_bytes : ℕ
  pub last_handshake : Option ℕ
  pub relay_via : Option Ipv4Addr
  pub configured_endpoint : Option Text
  pub last_data_rx : Option ℕ

unfoldable pub new_peer : External → Bytes → Ipv4Addr → Peer
new_peer x public_key wolfnet_ip = record {
  public_key = public_key;
  id = peer_id x public_key;
  wolfnet_ip = wolfnet_ip;
  endpoint = none;
  hostname = [];
  cipher = none;
  is_gateway = false;
  last_seen = none;
  rx_bytes = 0;
  tx_bytes = 0;
  last_handshake = none;
  relay_via = none;
  configured_endpoint = none;
  last_data_rx = none;
}

unfoldable pub establish_session : External → ℕ → KeyPair → Peer → Peer
establish_session x now me p = record p {
  cipher = some (new_cipher (x.diffie_hellman me.secret p.public_key) me.public p.public_key);
  last_handshake = some now;
}

abbrev pub is_some {ℓ} : {A : Type ℓ} → Option A → Bool
is_some none = false
is_some (some a) = true

-- `t.map_or(false, |t| t.elapsed().as_secs() < 120)`; `elapsed` stops at zero.
abbrev pub is_recent : ℕ → Option ℕ → Bool
is_recent now none = false
is_recent now (some t) = ltb ((now - t) / 1_000_000_000) 120

unfoldable pub is_connected : ℕ → Peer → Bool
is_connected now p = is_some p.cipher && is_recent now p.last_seen

unfoldable pub is_passing_data : ℕ → Peer → Bool
is_passing_data now p = is_some p.cipher && is_recent now p.last_data_rx

-- The cipher is advanced also by a call that fails; the byte count is not.
abbrev pub sent {ℓ} : {A : Type ℓ} → Peer → SessionCipher → Result A → ℕ → Peer
sent p s (ok a) n = record p { cipher = some s; tx_bytes = u64 (p.tx_bytes + n) }
sent p s (err e) n = record p { cipher = some s }

abbrev pub received {ℓ} : {A : Type ℓ} → ℕ → Peer → SessionCipher → Result A → (A → ℕ) → Peer
received now p s (ok a) size = record p {
  cipher = some s;
  rx_bytes = u64 (p.rx_bytes + size a);
  last_seen = some now;
  last_data_rx = some now;
}
received now p s (err e) size = record p { cipher = some s }

unfoldable pub encrypt : External → Peer → Bytes → Peer × Result (ℕ × Bytes)
encrypt x p text = elim p.cipher [
  | none ↦ (p, err no_session)
  | some s ↦ let (s', r) = Crypto.encrypt x s text in (sent p s' r (length text), r)
]

unfoldable pub decrypt : External → ℕ → Peer → ℕ → Bytes → Peer × Result Bytes
decrypt x now p counter packet = elim p.cipher [
  | none ↦ (p, err no_session)
  | some s ↦ let (s', r) = Crypto.decrypt x s counter packet in (received now p s' r length, r)
]

unfoldable pub encrypt_into : External → Peer → Bytes → ℕ → Peer × Result (ℕ × ℕ) × Bytes
encrypt_into x p buf len = elim p.cipher [
  | none ↦ (p, err no_session, buf)
  | some s ↦ let (s', r, buf') = Crypto.encrypt_into x s buf len in (sent p s' r len, r, buf')
]

unfoldable pub decrypt_into : External → ℕ → Peer → ℕ → Bytes → ℕ → Peer × Result ℕ × Bytes
decrypt_into x now p counter buf len = elim p.cipher [
  | none ↦ (p, err no_session, buf)
  | some s ↦
      let (s', r, buf') = Crypto.decrypt_into x s counter buf len in
      (received now p s' r (λ n. n), r, buf')
]
