-- ===== src/Crypto/Sealing.antt =====
-- Encryption against decryption, and the in-place routines against those that allocate.
use wolf_net.Shared.{
  ℕ, ◌+◌, ◌-◌, ◌≤◌, ◌≡◌, inl, inr, refl, sym, ap, ◌∙◌, false, not, ◌++◌, length, take, drop, ltb,
  Bool-cases, Option-cases, arith, take-write_at_two, take-write_at_front, length-take, length-drop,
  take-append-drop, take_all,
}
use wolf_net.Net.{Bytes}
use wolf_net.External.{External, IsLawful}
use wolf_net.Crypto.{
  SessionCipher, Result, ok, err, Error, make_nonce, is_stale, advance, encrypt, decrypt,
  encrypt_into, decrypt_into, too_short, stale_nonce, decryption_failed,
}

-- What one end encrypts the other decrypts, if they share the key, have opposite sides and the
-- counter is inside the receiver's window.
pub decrypt-encrypt :
    (x : External) (law : IsLawful x) (s r : SessionCipher) (p : Bytes) (n : ℕ) (c : Bytes)
    → s.key ≡ r.key
    → s.is_low_side ≡ not r.is_low_side
    → (encrypt x s p).1 ≡ ok (n, c)
    → is_stale r n ≡ false
    → decrypt x r n c ≡ (advance r n, ok p)
unfolding encrypt decrypt
decrypt-encrypt x law s r p n c key side sent fresh =
    elim (Option-cases (x.seal s.key (make_nonce s.send_counter s.is_low_side) p)) [
      | inl e ↦ ground arith
      | inr (b, e) ↦
          ground (arith, law.unseal-seal s.key (make_nonce s.send_counter s.is_low_side) p b e)
    ]

-- The buffer and result of `encrypt_into` carry the packet of `encrypt`.
abbrev pub SealedAs : Result (ℕ × Bytes) → Result (ℕ × ℕ) × Bytes → Type 0
SealedAs (ok (n, c)) (r, buf) = (r ≡ ok (n, length c)) × (take (length c) buf ≡ c)
SealedAs (err e) (r, buf) = r ≡ err e

-- Encryption in place, in a buffer with room for the tag, is encryption: the same session
-- afterwards, the same counter, and the ciphertext with its tag at the front of the buffer.
pub encrypt_into-encrypt :
    (x : External) (law : IsLawful x) (s : SessionCipher) (buf : Bytes) (len : ℕ)
    → len + 16 ≤ length buf
    → ((encrypt_into x s buf len).0 ≡ (encrypt x s (take len buf)).0)
      × SealedAs
          (encrypt x s (take len buf)).1
          ((encrypt_into x s buf len).1, (encrypt_into x s buf len).2)
unfolding encrypt encrypt_into
encrypt_into-encrypt x law s buf len fits =
    let nonce = make_nonce s.send_counter s.is_low_side in
    elim (Option-cases (x.seal_detached s.key nonce (take len buf))) [
      | inl e ↦
          rw (e, encrypt_into)
            (rw (law.seal_none s.key nonce (take len buf) e, encrypt) (refl, refl))
      | inr ((body, tag), e) ↦
          let sizes = law.length-seal_detached s.key nonce (take len buf) body tag e in
          let whole = law.seal_split s.key nonce (take len buf) body tag e in
          let total = law.length-seal s.key nonce (take len buf) (body ++ tag) whole in
          let short : length (take len buf) ≡ len = omega (arith, length-take len buf) in
          rw (e, encrypt_into, whole, encrypt)
            (
              refl,
              (
                ap (λ (t : ℕ). ok (s.send_counter, t)) (omega arith),
                take-write_at_two buf body tag len (length (body ++ tag)) (omega arith)
                    (omega arith),
              ),
            )
    ]

-- The buffer and result of `decrypt_into` carry the plaintext of `decrypt`.
abbrev pub OpenedAs : Result Bytes → Result ℕ × Bytes → Type 0
OpenedAs (ok p) (r, buf) = (r ≡ ok (length p)) × (take (length p) buf ≡ p)
OpenedAs (err e) (r, buf) = (f : Error) × (r ≡ err f)

-- Both routines read the same body and tag from a packet of at least sixteen bytes.
unseal_parts :
    (x : External) (law : IsLawful x) (k n : Bytes) (buf : Bytes) (len : ℕ)
    → len ≡ length buf
    → 16 ≤ len
    → x.unseal k n buf ≡ x.unseal_detached k n (take (len - 16) buf) (take 16 (drop (len - 16) buf))
unseal_parts x law k n buf len whole long =
    let body = take (len - 16) buf in
    let tag = drop (len - 16) buf in
    let sized : length tag ≡ 16 = omega (arith, length-drop (len - 16) buf) in
    rw (take_all 16 tag (omega arith)) (
      ap (x.unseal k n) (sym (take-append-drop (len - 16) buf))
      ∙ law.unseal_split k n body tag sized)

decrypt_long :
    (x : External) (law : IsLawful x) (s : SessionCipher) (n : ℕ) (buf : Bytes) (len : ℕ)
    → len ≡ length buf
    → 16 ≤ len
    → is_stale s n ≡ false
    → ltb len 16 ≡ false
    → ((decrypt_into x s n buf len).0 ≡ (decrypt x s n buf).0)
      × OpenedAs
          (decrypt x s n buf).1
          ((decrypt_into x s n buf len).1, (decrypt_into x s n buf len).2)
unfolding decrypt decrypt_into
decrypt_long x law s n buf len whole long fresh test =
    let nonce = make_nonce n (not s.is_low_side) in
    let body = take (len - 16) buf in
    let tag = take 16 (drop (len - 16) buf) in
    let joined = unseal_parts x law s.key nonce buf len whole long in
    elim (Option-cases (x.unseal_detached s.key nonce body tag)) [
      | inl e ↦
          rw (fresh, test, e, decrypt_into, joined ∙ e, decrypt) (refl, (decryption_failed, refl))
      | inr (p, e) ↦
          let size : length p ≡ len - 16 = omega (
            arith,
            law.length-unseal_detached s.key nonce body tag p e,
            length-take (len - 16) buf,
          ) in
          rw (fresh, test, e, decrypt_into, joined ∙ e, decrypt)
            (refl, (ap ok (sym size), take-write_at_front buf p (length p) refl))
    ]

-- Decryption in place of a whole buffer is decryption: the same session afterwards, success on
-- the same packets, and the plaintext at the front of the buffer.
pub decrypt_into-decrypt :
    (x : External) (law : IsLawful x) (s : SessionCipher) (n : ℕ) (buf : Bytes) (len : ℕ)
    → len ≡ length buf
    → ((decrypt_into x s n buf len).0 ≡ (decrypt x s n buf).0)
      × OpenedAs
          (decrypt x s n buf).1
          ((decrypt_into x s n buf len).1, (decrypt_into x s n buf len).2)
unfolding decrypt decrypt_into
decrypt_into-decrypt x law s n buf len whole = elim (Bool-cases (is_stale s n)) [
  | inl old ↦ rw old (refl, (stale_nonce, refl))
  | inr fresh ↦ elim (Bool-cases (ltb len 16)) [
    | inl short ↦
        rw (fresh, short, law.unseal_short s.key _ buf (ground arith)) (refl, (too_short, refl))
    | inr long ↦ decrypt_long x law s n buf len whole (ground arith) fresh long
  ]
]
