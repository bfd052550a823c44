-- ===== src/Crypto/Replay.antt =====
-- The replay window of `decrypt`.
use wolf_net.Shared.{
  ◌↔◌, ap, ℕ, ◌+◌, ◌≤◌, ◌<◌, ◌≡◌, ◌⊎◌, inl, inr, true, false, not, some, Bool-cases, Option-cases,
  arith,
}
use wolf_net.Net.{Bytes}
use wolf_net.External.{External}
use wolf_net.Crypto.{
  SessionCipher, Result, ok, err, Error, stale_nonce, decryption_failed, make_nonce, is_stale,
  advance, decrypt,
}

-- The counters that the window refuses, in the words of its comment: more than 32 behind the
-- highest seen, unless the peer looks restarted.
abbrev pub IsStale : SessionCipher → ℕ → Type 0
IsStale s counter = (counter + 32 < s.recv_counter) × ((100 ≤ counter) ⊎ (s.recv_counter ≤ 100))

-- The test at the start of decryption refuses just the counters that are more than 32 behind the
-- highest seen, unless the peer looks restarted: a counter below 100 after one past 100.
pub is_stale_iff :
    (s : SessionCipher) (counter : ℕ) → (is_stale s counter ≡ true) ↔ IsStale s counter
unfolding is_stale
is_stale_iff s counter = ground arith

-- A packet behind the window is refused before it is decrypted, and the session is unchanged.
pub decrypt_stale :
    (x : External) (s : SessionCipher) (counter : ℕ) (c : Bytes)
    → IsStale s counter
    → decrypt x s counter c ≡ (s, err stale_nonce)
unfolding decrypt
decrypt_stale x s counter c h = ground (arith, (is_stale_iff s counter).1 h)

-- A call of decryption fails and leaves the session as it was, or it returns what the packet
-- authenticates under the session's key and the sender's nonce, and advances the session.
pub decrypt_effect :
    (x : External) (s : SessionCipher) (counter : ℕ) (c : Bytes)
    → ((e : Error) × ((decrypt x s counter c) ≡ (s, err e)))
      ⊎ ((p : Bytes) × (decrypt x s counter c ≡ (advance s counter, ok p))
          × (x.unseal s.key (make_nonce counter (not s.is_low_side)) c ≡ some p))
unfolding decrypt
decrypt_effect x s counter c = elim (Bool-cases (is_stale s counter)) [
  | inl stale ↦ inl (stale_nonce, rw stale)
  | inr fresh ↦ elim (Option-cases (x.unseal s.key (make_nonce counter (not s.is_low_side)) c)) [
    | inl bad ↦ inl (decryption_failed, rw (fresh, bad))
    | inr (p, good) ↦ inr (p, rw (fresh, good), good)
  ]
]

pub advance_counter :
    (s : SessionCipher) (counter : ℕ)
    → ((advance s counter).key ≡ s.key)
      × ((advance s counter).send_counter ≡ s.send_counter)
      × ((advance s counter).is_low_side ≡ s.is_low_side)
      × (((s.recv_counter ≤ (advance s counter).recv_counter)
            × (counter ≤ (advance s counter).recv_counter))
          ⊎ ((advance s counter).recv_counter ≡ counter) × (counter < 100) × (100 < s.recv_counter))
unfolding advance
advance_counter s counter = ground arith

advance-not-stale :
    (s : SessionCipher) (counter : ℕ)
    → is_stale s counter ≡ false
    → is_stale (advance s counter) counter ≡ false
unfolding is_stale advance
advance-not-stale s counter h = ground arith

pub decrypt-eq-ok :
    (x : External) (s : SessionCipher) (counter : ℕ) (c p : Bytes)
    → is_stale s counter ≡ false
    → x.unseal s.key (make_nonce counter (not s.is_low_side)) c ≡ some p
    → decrypt x s counter c ≡ (advance s counter, ok p)
unfolding decrypt
decrypt-eq-ok x s counter c p fresh good = rw (fresh, good)

pub decrypt-ok-inv :
    (x : External) (s : SessionCipher) (counter : ℕ) (c p : Bytes)
    → (decrypt x s counter c).1 ≡ ok p
    → (is_stale s counter ≡ false)
      × (x.unseal s.key (make_nonce counter (not s.is_low_side)) c ≡ some p)
unfolding decrypt
decrypt-ok-inv x s counter c p h = ground arith

-- A packet that was accepted is accepted again by the session that the first call left.
pub decrypt_again :
    (x : External) (s : SessionCipher) (counter : ℕ) (c p : Bytes)
    → (decrypt x s counter c).1 ≡ ok p
    → (decrypt x (decrypt x s counter c).0 counter c).1 ≡ ok p
decrypt_again x s counter c p h =
    let (fresh, good) = decrypt-ok-inv x s counter c p h in
    let kept = advance_counter s counter in
    rw (decrypt-eq-ok x s counter c p fresh good) (
      ap (λ (r : SessionCipher × Result Bytes). r.1)
        (decrypt-eq-ok x (advance s counter) counter c p (advance-not-stale s counter fresh)
          (rw (kept.0, kept.2) good)))

rewound-not-stale :
    (s : SessionCipher) (counter later : ℕ)
    → counter < 100
    → 100 < s.recv_counter
    → counter ≤ later
    → is_stale (advance s counter) later ≡ false
unfolding advance is_stale
rewound-not-stale s counter later low high above = ground arith

-- One accepted packet with a counter below 100 opens a session to old packets: a packet from behind
-- the window, with a counter of 100 or more, that authenticates under the session's key is refused
-- before, and accepted after it.
pub rewind_reopens :
    (x : External) (s : SessionCipher) (counter later : ℕ) (c p old text : Bytes)
    → (decrypt x s counter c).1 ≡ ok p
    → counter < 100
    → 100 ≤ later
    → later + 32 < s.recv_counter
    → x.unseal s.key (make_nonce later (not s.is_low_side)) old ≡ some text
    → (decrypt x s later old ≡ (s, err stale_nonce))
      × ((decrypt x (decrypt x s counter c).0 later old).1 ≡ ok text)
rewind_reopens x s counter later c p old text accepted low old_one behind good =
    let (fresh, opens) = decrypt-ok-inv x s counter c p accepted in
    let kept = advance_counter s counter in
    (
      decrypt_stale x s later old (behind, inl old_one),
      rw (decrypt-eq-ok x s counter c p fresh opens) (
          ap (λ (r : SessionCipher × Result Bytes). r.1)
            (decrypt-eq-ok x (advance s counter) later old text
              (rewound-not-stale s counter later low (omega arith) (omega arith))
              (rw (kept.0, kept.2) good))),
    )
