-- ===== src/Peer/Session.antt =====
-- What the methods of `Peer` do with its session.
use wolf_net.Shared.{ap}
use wolf_net.Shared.{some}
use wolf_net.Shared.{none}
use wolf_net.Shared.{
  Bool-cases, not, ◌∙◌, ℕ, ◌+◌, ◌≤◌, ◌≡◌, refl, arith, Option-cases, inl, inr, length, take,
  length-take,
}
use wolf_net.Net.{Bytes}
use wolf_net.External.{External, IsLawful}
use wolf_net.Crypto.{
  make_nonce, is_stale, stale_nonce, decryption_failed, Error, KeyPair, new_cipher, SessionCipher,
  Result, ok, err, no_session,
}
use wolf_net.Crypto
use wolf_net.Crypto.Sealing.{OpenedAs, decrypt_into-decrypt, SealedAs, encrypt_into-encrypt}
use wolf_net.Peer.{decrypt_into, received, Peer, establish_session, sent, encrypt, encrypt_into}

sent_equal :
    (p : Peer) (s t : SessionCipher) (r : Result (ℕ × Bytes)) (q : Result (ℕ × ℕ))
    (buf text : Bytes) (len : ℕ)
    → t ≡ s
    → SealedAs r (q, buf)
    → length text ≡ len
    → sent p t q len ≡ sent p s r (length text)
sent_equal p s t (ok (n, c)) q buf text len h k e = rw (h, k.0, e) refl
sent_equal p s t (err e') q buf text len h k e = rw (h, k) refl

-- The peer's encryption in place is its encryption: the same peer afterwards, byte count
-- included, and the same packet.
pub encrypt_into-encrypt_peer :
    (x : External) (law : IsLawful x) (p : Peer) (buf : Bytes) (len : ℕ)
    → len + 16 ≤ length buf
    → ((encrypt_into x p buf len).0 ≡ (encrypt x p (take len buf)).0)
      × SealedAs
          (encrypt x p (take len buf)).1
          ((encrypt_into x p buf len).1, (encrypt_into x p buf len).2)
unfolding encrypt encrypt_into
encrypt_into-encrypt_peer x law p buf len fits = elim (Option-cases p.cipher) [
  | inl e ↦ rw (e, encrypt, encrypt_into) (refl, refl)
  | inr (s, e) ↦
      let lem = encrypt_into-encrypt x law s buf len fits in
      rw (e, encrypt, encrypt_into)
        (
          sent_equal p (Crypto.encrypt x s (take len buf)).0 (Crypto.encrypt_into x s buf len).0
              (Crypto.encrypt x s (take len buf)).1 (Crypto.encrypt_into x s buf len).1
              (Crypto.encrypt_into x s buf len).2 (take len buf) len lem.0 lem.1
              (omega (arith, length-take len buf)),
          lem.1,
        )
]

-- What is sent leaves the key of the peer.
sent-key :
    (p : Peer) (s : SessionCipher) (r : Result (ℕ × Bytes)) (n : ℕ)
    → (sent p s r n).public_key ≡ p.public_key
sent-key p s (ok a) n = refl
sent-key p s (err e) n = refl

-- After a packet has been sent in a new session, a further handshake with the same peer puts the
-- session back to what it was before the packet, its key and its counters included.
pub establish-encrypt-establish :
    (x : External) (me : KeyPair) (now later : ℕ) (p : Peer) (text : Bytes)
    → (establish_session x later me (encrypt x (establish_session x now me p) text).0).cipher
      ≡ (establish_session x now me p).cipher
unfolding establish_session encrypt
establish-encrypt-establish x me now later p text =
    rw
      (sent-key (establish_session x now me p)
        (Crypto.encrypt x
          (new_cipher (x.diffie_hellman me.secret p.public_key) me.public p.public_key) text).0
        (Crypto.encrypt x
          (new_cipher (x.diffie_hellman me.secret p.public_key) me.public p.public_key) text).1
        (length text))
      refl

received_err :
    (now : ℕ) (p : Peer) (s t : SessionCipher) (r : Result ℕ) (e : Error)
    → t ≡ s
    → r ≡ err e
    → received now p t r (λ n. n) ≡ record p { cipher = some s }
received_err now p s t r e h k = rw (h, k) refl

decrypt-err :
    (x : External) (s : SessionCipher) (n : ℕ) (c : Bytes)
    → x.unseal s.key (make_nonce n (not s.is_low_side)) c ≡ none
    → (e : Error) × (Crypto.decrypt x s n c ≡ (s, err e))
unfolding Crypto.decrypt
decrypt-err x s n c bad = elim (Bool-cases (is_stale s n)) [
  | inl old ↦ (stale_nonce, rw (Crypto.decrypt, old) refl)
  | inr fresh ↦ (decryption_failed, rw (Crypto.decrypt, fresh, bad) refl)
]

opened_err :
    (r : Result Bytes) (q : Result ℕ) (buf : Bytes) (e : Error)
    → r ≡ err e
    → OpenedAs r (q, buf)
    → (d : Error) × (q ≡ err d)
opened_err (ok p) q buf e h k = absurd (ground arith)
opened_err (err e') q buf e h k = k

-- A packet that does not authenticate under the session leaves the peer as it was, its counters
-- and its `last_seen` included, and the call fails.
pub decrypt_into-forged :
    (x : External) (law : IsLawful x) (now : ℕ) (p : Peer) (s : SessionCipher) (n : ℕ) (buf : Bytes)
    → p.cipher ≡ some s
    → x.unseal s.key (make_nonce n (not s.is_low_side)) buf ≡ none
    → ((decrypt_into x now p n buf (length buf)).0 ≡ p)
      × (e : Error) × ((decrypt_into x now p n buf (length buf)).1 ≡ err e)
unfolding decrypt_into
decrypt_into-forged x law now p s n buf c bad =
    let (e, failed) = decrypt-err x s n buf bad in
    let same = decrypt_into-decrypt x law s n buf (length buf) refl in
    let (d, refused) =
      opened_err (Crypto.decrypt x s n buf).1 (Crypto.decrypt_into x s n buf (length buf)).1
        (Crypto.decrypt_into x s n buf (length buf)).2 e (ap (λ r. r.1) failed) same.1 in
    rw (c, decrypt_into)
      (
        received_err now p s (Crypto.decrypt_into x s n buf (length buf)).0
            (Crypto.decrypt_into x s n buf (length buf)).1 d (same.0 ∙ ap (λ r. r.0) failed)
            refused,
        d,
        refused,
      )
