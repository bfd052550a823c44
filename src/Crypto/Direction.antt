-- ===== src/Crypto/Direction.antt =====
-- The two ends of a tunnel: one key, and opposite directions.
use wolf_net.Shared.{
  ℕ, ◌≡◌, ◌≢◌, sym, ap, ◌∙◌, false, not, inl, inr, Bool-cases, arith, lex_lt, lex_lt_total,
  lex_lt_asym,
}
use wolf_net.Net.{Bytes}
use wolf_net.External.{External, IsLawful}
use wolf_net.Crypto.{KeyPair, SessionCipher, ok, new_cipher, encrypt, decrypt, advance, is_stale}
use wolf_net.Crypto.Sealing.{decrypt-encrypt}

-- The session that a node makes with a peer, as `Peer::establish_session` does.
abbrev pub session : External → KeyPair → Bytes → SessionCipher
session x me peer_public = new_cipher (x.diffie_hellman me.secret peer_public) me.public peer_public

abbrev pub IsKeyPair : External → KeyPair → Type 0
IsKeyPair x k = k.public ≡ x.public_of k.secret

lex_lt-not : (a b : Bytes) → a ≢ b → lex_lt a b ≡ not (lex_lt b a)
lex_lt-not a b n = elim (Bool-cases (lex_lt a b)) [
  | inl h ↦ rw (h, lex_lt_asym a b h)
  | inr h ↦ elim (Bool-cases (lex_lt b a)) [
    | inl k ↦ rw (h, k)
    | inr k ↦ absurd (n (lex_lt_total a b h k))
  ]
]

-- Both ends of a tunnel derive the same key and take opposite sides, if their public keys differ.
pub sessions_agree :
    (x : External) (law : IsLawful x) (a b : KeyPair)
    → IsKeyPair x a
    → IsKeyPair x b
    → a.public ≢ b.public
    → ((session x a b.public).key ≡ (session x b a.public).key)
      × ((session x a b.public).is_low_side ≡ not (session x b a.public).is_low_side)
unfolding new_cipher
sessions_agree x law a b ka kb n = (
  ap (x.diffie_hellman a.secret) kb
      ∙ law.dh_comm a.secret b.secret
      ∙ sym (ap (x.diffie_hellman b.secret) ka),
  lex_lt-not a.public b.public n,
)

fresh_session : (k m p : Bytes) (n : ℕ) → is_stale (new_cipher k m p) n ≡ false
unfolding is_stale new_cipher
fresh_session k m p n = ground arith

-- What one node encrypts in a session with another, the other decrypts with the session that it
-- derived on its own, if that one is new, the keys are key pairs and the public keys differ.
pub tunnel_round_trip :
    (x : External) (law : IsLawful x) (a b : KeyPair) (s : SessionCipher) (p c : Bytes) (n : ℕ)
    → IsKeyPair x a
    → IsKeyPair x b
    → a.public ≢ b.public
    → s.key ≡ (session x a b.public).key
    → s.is_low_side ≡ (session x a b.public).is_low_side
    → (encrypt x s p).1 ≡ ok (n, c)
    → decrypt x (session x b a.public) n c ≡ (advance (session x b a.public) n, ok p)
tunnel_round_trip x law a b s p c n ka kb differ key side sent =
    let agree = sessions_agree x law a b ka kb differ in
    decrypt-encrypt x law s (session x b a.public) p n c (key ∙ agree.0) (side ∙ agree.1) sent
      (fresh_session _ b.public a.public n)
