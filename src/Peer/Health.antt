-- ===== src/Peer/Health.antt =====
-- What every peer in the table of src/peer.rs is to satisfy at a time, and the methods of `Peer`.
use wolf_net.Peer.{Bool}
use wolf_net.Shared.{subst}
use wolf_net.Shared.{
  ℕ, ◌≤◌, ◌≡◌, refl, ◌∙◌, arith, true, ◌&&◌, Option, none, some, Option-cases, inl, inr, length,
  lex_lt,
}
use wolf_net.Net.{Bytes, Ipv4Addr}
use wolf_net.External.{External}
use wolf_net.Crypto.{SessionCipher, KeyPair, Result, ok, err, peer_id, new_cipher}
use wolf_net.Crypto
use wolf_net.Crypto.Keyed.{SameKey, encrypt-SameKey, encrypt_into-SameKey, decrypt_into-SameKey}
use wolf_net.Peer.{
  Peer, new_peer, establish_session, is_some, is_recent, is_connected, is_passing_data, sent,
  received, encrypt, encrypt_into, decrypt_into,
}

-- A session has the key that the two key pairs share, and the side that they give this node.
abbrev pub IsKeyed : External → KeyPair → Bytes → Option SessionCipher → Type 0
IsKeyed x me public_key none = Unit
IsKeyed x me public_key (some s) =
    (s.key ≡ x.diffie_hellman me.secret public_key) × (s.is_low_side ≡ lex_lt me.public public_key)

-- The last data packet is not later than the last sign of life.
abbrev pub IsBefore : ℕ → Option ℕ → Type 0
IsBefore t none = ⊥
IsBefore t (some seen) = t ≤ seen

abbrev pub IsTimed : ℕ → Option ℕ → Option ℕ → Type 0
IsTimed now none seen = Unit
IsTimed now (some t) seen = (t ≤ now) × IsBefore t seen

abbrev pub IsHealthy : External → KeyPair → ℕ → Ipv4Addr → Peer → Type 0
IsHealthy x me now ip p =
    (p.wolfnet_ip ≡ ip)
    × (p.id ≡ peer_id x p.public_key)
    × IsKeyed x me p.public_key p.cipher
    × IsTimed now p.last_data_rx p.last_seen

later-IsTimed :
    (now later : ℕ) (rx seen : Option ℕ) → now ≤ later → IsTimed now rx seen → IsTimed later rx seen
later-IsTimed now later none seen le h = tt
later-IsTimed now later (some t) seen le h = (omega arith, h.1)

seen_now : (now : ℕ) (rx seen : Option ℕ) → IsTimed now rx seen → IsTimed now rx (some now)
seen_now now none seen h = tt
seen_now now (some t) seen h = (h.0, h.0)

module _ (x : External) (me : KeyPair) where
  pub later-IsHealthy :
      (now later : ℕ) (ip : Ipv4Addr) (p : Peer)
      → now ≤ later
      → IsHealthy x me now ip p
      → IsHealthy x me later ip p
  later-IsHealthy now later ip p le h =
      (h.0, h.1, h.2, later-IsTimed now later p.last_data_rx p.last_seen le h.3)

  pub new_peer-IsHealthy :
      (now : ℕ) (ip : Ipv4Addr) (key : Bytes) → IsHealthy x me now ip (new_peer x key ip)
  unfolding new_peer
  new_peer-IsHealthy now ip key = (refl, refl, tt, tt)

  pub establish_session-IsHealthy :
      (now : ℕ) (ip : Ipv4Addr) (p : Peer)
      → IsHealthy x me now ip p
      → IsHealthy x me now ip (establish_session x now me p)
  unfolding establish_session new_cipher
  establish_session-IsHealthy now ip p h = (h.0, h.1, (refl, refl), h.3)

  -- A sign of life at the present time.
  pub seen-IsHealthy :
      (now : ℕ) (ip : Ipv4Addr) (p : Peer)
      → IsHealthy x me now ip p
      → IsHealthy x me now ip (record p { last_seen = some now })
  seen-IsHealthy now ip p h = (h.0, h.1, h.2, seen_now now p.last_data_rx p.last_seen h.3)

  same_key :
      (key : Bytes) (t s : SessionCipher)
      → SameKey t s
      → IsKeyed x me key (some s)
      → IsKeyed x me key (some t)
  same_key key t s same h = (same.0 ∙ h.0, same.1 ∙ h.1)

  sent-IsHealthy {ℓ} :
      {A : Type ℓ} (now : ℕ) (ip : Ipv4Addr) (p : Peer) (s t : SessionCipher) (r : Result A) (n : ℕ)
      → p.cipher ≡ some s
      → SameKey t s
      → IsHealthy x me now ip p
      → IsHealthy x me now ip (sent p t r n)
  sent-IsHealthy now ip p s t (ok a) n e same h =
      (h.0, h.1, same_key p.public_key t s same (subst (IsKeyed x me p.public_key) e h.2), h.3)
  sent-IsHealthy now ip p s t (err a) n e same h =
      (h.0, h.1, same_key p.public_key t s same (subst (IsKeyed x me p.public_key) e h.2), h.3)

  received-IsHealthy {ℓ} :
      {A : Type ℓ} (now : ℕ) (ip : Ipv4Addr) (p : Peer) (s t : SessionCipher) (r : Result A)
      (size : A → ℕ)
      → p.cipher ≡ some s
      → SameKey t s
      → IsHealthy x me now ip p
      → IsHealthy x me now ip (received now p t r size)
  received-IsHealthy now ip p s t (ok a) size e same h = (
    h.0,
    h.1,
    same_key p.public_key t s same (subst (IsKeyed x me p.public_key) e h.2),
    (omega arith, omega arith),
  )
  received-IsHealthy now ip p s t (err a) size e same h =
      (h.0, h.1, same_key p.public_key t s same (subst (IsKeyed x me p.public_key) e h.2), h.3)

  pub encrypt-IsHealthy :
      (now : ℕ) (ip : Ipv4Addr) (p : Peer) (text : Bytes)
      → IsHealthy x me now ip p
      → IsHealthy x me now ip (encrypt x p text).0
  unfolding encrypt
  encrypt-IsHealthy now ip p text h = elim (Option-cases p.cipher) [
    | inl e ↦ rw (e, encrypt) h
    | inr (s, e) ↦
        rw (e, encrypt)
          (sent-IsHealthy now ip p s (Crypto.encrypt x s text).0 (Crypto.encrypt x s text).1
            (length text) e (encrypt-SameKey x s text) h)
  ]

  pub encrypt_into-IsHealthy :
      (now : ℕ) (ip : Ipv4Addr) (p : Peer) (buf : Bytes) (len : ℕ)
      → IsHealthy x me now ip p
      → IsHealthy x me now ip (encrypt_into x p buf len).0
  unfolding encrypt_into
  encrypt_into-IsHealthy now ip p buf len h = elim (Option-cases p.cipher) [
    | inl e ↦ rw (e, encrypt_into) h
    | inr (s, e) ↦
        rw (e, encrypt_into)
          (sent-IsHealthy now ip p s (Crypto.encrypt_into x s buf len).0
            (Crypto.encrypt_into x s buf len).1 len e (encrypt_into-SameKey x s buf len) h)
  ]

  pub decrypt_into-IsHealthy :
      (now : ℕ) (ip : Ipv4Addr) (p : Peer) (n : ℕ) (buf : Bytes) (len : ℕ)
      → IsHealthy x me now ip p
      → IsHealthy x me now ip (decrypt_into x now p n buf len).0
  unfolding decrypt_into
  decrypt_into-IsHealthy now ip p n buf len h = elim (Option-cases p.cipher) [
    | inl e ↦ rw (e, decrypt_into) h
    | inr (s, e) ↦
        rw (e, decrypt_into)
          (received-IsHealthy now ip p s (Crypto.decrypt_into x s n buf len).0
            (Crypto.decrypt_into x s n buf len).1 (λ k. k) e (decrypt_into-SameKey x s n buf len) h)
  ]

-- The reading of the clock: a peer whose data is recent is connected.
passing_is_connected_on :
    (now : ℕ) (c : Bool) (rx seen : Option ℕ)
    → IsTimed now rx seen
    → (c && is_recent now rx) ≡ true
    → (c && is_recent now seen) ≡ true
passing_is_connected_on now c none seen h r = absurd (ground arith)
passing_is_connected_on now c (some t) none h r = absurd h.1
passing_is_connected_on now c (some t) (some seen) h r = ground arith

pub passing_is_connected :
    (x : External) (me : KeyPair) (now : ℕ) (ip : Ipv4Addr) (p : Peer)
    → IsHealthy x me now ip p
    → is_passing_data now p ≡ true
    → is_connected now p ≡ true
unfolding is_passing_data is_connected
passing_is_connected x me now ip p h r =
    passing_is_connected_on now (is_some p.cipher) p.last_data_rx p.last_seen h.3 r
