-- ===== src/Crypto.antt =====
-- src/crypto.rs: key pairs, peer ids and the session cipher with its replay window.
pub mod Nonce
pub mod Replay
pub mod Keyed
pub mod Sealing
pub mod Direction
pub mod KeyFile
use wolf_net.Shared.{
  ℕ, zero, suc, ◌+◌, ◌-◌, ◌%◌, ◌^◌, ◌≤◌, ◌<◌, Bool, true, false, not, ◌&&◌, ◌||◌, List, [], ◌∷◌,
  ◌++◌, Option, none, some, leb, ltb, if◌then◌else◌, ◌==◌, nat_eq, length, take, drop, replicate,
  to_le_bytes, from_le_bytes, lex_lt, write_at, Option-cases,
}
use wolf_net.Net.{Bytes, Text}
use wolf_net.External.{External}

pub data Error : Type 0 where
  no_session encryption_failed stale_nonce too_short decryption_failed invalid_key : Error

pub data Result {ℓ} (A : Type ℓ) : Type ℓ where
  ok : A → Result A
  err : Error → Result A

abbrev pub map_err {ℓ} : {A : Type ℓ} → Option A → Error → Result A
map_err none e = err e
map_err (some a) e = ok a

pub record KeyPair : Type 0 where
  pub secret : Bytes
  pub public : Bytes

-- The cipher of the crate is its key.
pub record SessionCipher : Type 0 where
  pub key : Bytes
  pub send_counter : ℕ
  pub recv_counter : ℕ
  pub is_low_side : Bool

-- `u64` arithmetic of a release build.
abbrev pub u64 : ℕ → ℕ
u64 n = n % 2 ^ 64

-- `KeyPair::load`, from the bytes that the trimmed file decodes to
unfoldable pub keypair_of_bytes : External → Bytes → Option KeyPair
unfolding nat_eq
keypair_of_bytes x bytes =
    if length bytes == 32
    then some (record { secret = bytes; public = x.public_of bytes })
    else none

unfoldable pub peer_id : External → Bytes → Bytes
peer_id x public_key = take 4 (x.sha256 public_key)

unfoldable pub parse_public_key : External → Text → Result Bytes
unfolding nat_eq
parse_public_key x b64 = elim (x.base64_decode (x.trim b64)) [
  | none ↦ err invalid_key
  | some bytes ↦ if length bytes == 32 then ok bytes else err invalid_key
]

unfoldable pub new_cipher : Bytes → Bytes → Bytes → SessionCipher
new_cipher shared_secret my_public peer_public = record {
  key = shared_secret;
  send_counter = 0;
  recv_counter = 0;
  is_low_side = lex_lt my_public peer_public;
}

-- Eight bytes of counter, three zero bytes, and the direction.
unfoldable pub make_nonce : ℕ → Bool → Bytes
unfolding to_le_bytes
make_nonce counter is_low_side =
    to_le_bytes 8 counter ++ (0 ∷ 0 ∷ 0 ∷ (if is_low_side then 0 else 1) ∷ [])

unfoldable pub encrypt : External → SessionCipher → Bytes → SessionCipher × Result (ℕ × Bytes)
encrypt x s plaintext =
    let counter = s.send_counter in
    (
      record s { send_counter = u64 (counter + 1) },
      elim (x.seal s.key (make_nonce counter s.is_low_side) plaintext) [
        | none ↦ err encryption_failed
        | some ciphertext ↦ ok (counter, ciphertext)
      ],
    )

-- The buffer is the third result; its first `len` bytes are sealed where they stand and the tag
-- is written behind them.
unfoldable pub encrypt_into :
    External → SessionCipher → Bytes → ℕ → SessionCipher × Result (ℕ × ℕ) × Bytes
encrypt_into x s buf len =
    let counter = s.send_counter in
    let s' = record s { send_counter = u64 (counter + 1) } in
    elim (x.seal_detached s.key (make_nonce counter s.is_low_side) (take len buf)) [
      | none ↦ (s', err encryption_failed, buf)
      | some (body, tag) ↦ (s', ok (counter, len + 16), write_at (write_at buf 0 body) len tag)
    ]

unfoldable pub is_likely_restart : SessionCipher → ℕ → Bool
is_likely_restart s counter = ltb counter 100 && ltb 100 s.recv_counter

-- The replay test that both decryption routines begin with.
unfoldable pub is_stale : SessionCipher → ℕ → Bool
unfolding is_likely_restart
is_stale s counter =
    if leb counter s.recv_counter && (ltb 0 s.recv_counter && not (is_likely_restart s counter))
    then ltb 32 (s.recv_counter - counter)
    else false

-- The counter after a packet that decrypted.
unfoldable pub advance : SessionCipher → ℕ → SessionCipher
unfolding is_likely_restart
advance s counter =
    if ltb s.recv_counter counter || is_likely_restart s counter
    then record s { recv_counter = counter }
    else s

unfoldable pub decrypt : External → SessionCipher → ℕ → Bytes → SessionCipher × Result Bytes
decrypt x s counter ciphertext =
    if is_stale s counter
    then (s, err stale_nonce)
    else elim (x.unseal s.key (make_nonce counter (not s.is_low_side)) ciphertext) [
      | none ↦ (s, err decryption_failed)
      | some plaintext ↦ (advance s counter, ok plaintext)
    ]

-- A failed call of the crate leaves the buffer as it was.
unfoldable pub decrypt_into :
    External → SessionCipher → ℕ → Bytes → ℕ → SessionCipher × Result ℕ × Bytes
decrypt_into x s counter buf len =
    if is_stale s counter
    then (s, err stale_nonce, buf)
    else if ltb len 16
    then (s, err too_short, buf)
    else let body_len = len - 16 in
      let nonce = make_nonce counter (not s.is_low_side) in
      let tag = take 16 (drop body_len buf) in
      elim (x.unseal_detached s.key nonce (take body_len buf) tag) [
        | none ↦ (s, err decryption_failed, buf)
        | some body ↦ (advance s counter, ok body_len, write_at buf 0 body)
      ]
