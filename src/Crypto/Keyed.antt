-- ===== src/Crypto/Keyed.antt =====
-- The key and the direction of a session of src/crypto.rs, which no call changes.
use wolf_net.Shared.{ℕ, ◌≡◌, refl, not, ltb, Bool-cases, Option-cases, inl, inr, take, drop, ◌-◌}
use wolf_net.Net.{Bytes}
use wolf_net.External.{External}
use wolf_net.Crypto.{SessionCipher, encrypt, encrypt_into, decrypt_into, is_stale, make_nonce}
use wolf_net.Crypto.Replay.{advance_counter}

abbrev pub SameKey : SessionCipher → SessionCipher → Type 0
SameKey t s = (t.key ≡ s.key) × (t.is_low_side ≡ s.is_low_side)

pub encrypt-SameKey :
    (x : External) (s : SessionCipher) (text : Bytes) → SameKey (encrypt x s text).0 s
unfolding encrypt
encrypt-SameKey x s text = (refl, refl)

pub encrypt_into-SameKey :
    (x : External) (s : SessionCipher) (buf : Bytes) (len : ℕ)
    → SameKey (encrypt_into x s buf len).0 s
unfolding encrypt_into
encrypt_into-SameKey x s buf len =
    elim (Option-cases
      (x.seal_detached s.key (make_nonce s.send_counter s.is_low_side) (take len buf))) [
        | inl e ↦ rw (e, encrypt_into) (refl, refl)
        | inr ((body, tag), e) ↦ rw (e, encrypt_into) (refl, refl)
      ]

pub decrypt_into-SameKey :
    (x : External) (s : SessionCipher) (n : ℕ) (buf : Bytes) (len : ℕ)
    → SameKey (decrypt_into x s n buf len).0 s
unfolding decrypt_into
decrypt_into-SameKey x s n buf len = elim (Bool-cases (is_stale s n)) [
  | inl old ↦ rw old (refl, refl)
  | inr fresh ↦ elim (Bool-cases (ltb len 16)) [
    | inl short ↦ rw (fresh, short) (refl, refl)
    | inr full ↦
        let nonce = make_nonce n (not s.is_low_side) in
        let tag = take 16 (drop (len - 16) buf) in
        elim (Option-cases (x.unseal_detached s.key nonce (take (len - 16) buf) tag)) [
          | inl e ↦ rw (fresh, full, e, decrypt_into) (refl, refl)
          | inr (body, e) ↦
              let (key, count, side, rest) = advance_counter s n in
              rw (fresh, full, e, decrypt_into) (key, side)
        ]
  ]
]
