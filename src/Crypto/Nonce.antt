-- ===== src/Crypto/Nonce.antt =====
-- Nonces: which packets share one.
use wolf_net.Shared.{
  ℕ, suc, ◌+◌, ◌^◌, ◌<◌, ◌≡◌, ◌≢◌, refl, sym, ap, ◌∙◌, Bool, take, drop, List, [], ◌∷◌, take-append,
  drop-append, to_le_bytes, length-to_le_bytes, to_le_bytes-injective, if◌then◌else◌, arith, none,
  some,
}
use wolf_net.Net.{Bytes}
use wolf_net.External.{External}
use wolf_net.Crypto.{SessionCipher, ok, err, encryption_failed, make_nonce, encrypt}

flag_tail : Bool → Bytes
flag_tail low = 0 ∷ 0 ∷ 0 ∷ (if low then 0 else 1) ∷ []

flag_tail-injective : (p q : Bool) → flag_tail p ≡ flag_tail q → p ≡ q
unfolding flag_tail
flag_tail-injective p q h = ground arith

-- Two nonces of 64-bit counters are equal only if both the counter and the direction are.
pub make_nonce-injective :
    (a b : ℕ) (p q : Bool)
    → a < 2 ^ 64
    → b < 2 ^ 64
    → make_nonce a p ≡ make_nonce b q
    → (a ≡ b) × (p ≡ q)
unfolding make_nonce flag_tail
make_nonce-injective a b p q ha hb e = (
  to_le_bytes-injective 8 a b ha hb (
      sym (take-append 8 (to_le_bytes 8 a) (flag_tail p) (length-to_le_bytes 8 a))
      ∙ ap (take 8) e
      ∙ take-append 8 (to_le_bytes 8 b) (flag_tail q) (length-to_le_bytes 8 b)),
  flag_tail-injective p q (
      sym (drop-append 8 (to_le_bytes 8 a) (flag_tail p) (length-to_le_bytes 8 a))
      ∙ ap (drop 8) e
      ∙ drop-append 8 (to_le_bytes 8 b) (flag_tail q) (length-to_le_bytes 8 b)),
)

-- The cipher after a run of packets, whatever each call returned.
unfoldable pub encrypt_all : External → SessionCipher → List Bytes → SessionCipher
unfolding encrypt
encrypt_all x s [] = s
encrypt_all x s (p ∷ ps) = encrypt_all x (encrypt x s p).0 ps

abbrev count : List Bytes → ℕ
count [] = 0
count (p ∷ ps) = suc (count ps)

pub encrypt_all_state :
    (x : External) (s : SessionCipher) (ps : List Bytes)
    → s.send_counter + count ps < 2 ^ 64
    → ((encrypt_all x s ps).send_counter ≡ s.send_counter + count ps)
      × ((encrypt_all x s ps).key ≡ s.key)
      × ((encrypt_all x s ps).is_low_side ≡ s.is_low_side)
unfolding encrypt_all
encrypt_all_state x s [] h = (omega arith, refl, refl)
encrypt_all_state x s (p ∷ ps) h =
    let ih = encrypt_all_state x (encrypt x s p).0 ps (unfold encrypt in omega arith) in
    unfold encrypt in (omega (arith, ih), ih.1, ih.2)

-- The packet is sealed under this nonce, with the session's key and its counter on the wire.
abbrev pub SealsUnder : External → SessionCipher → Bytes → Bytes → Type 0
SealsUnder x s p nonce = (encrypt x s p).1 ≡ elim (x.seal s.key nonce p) [
  | none ↦ err encryption_failed
  | some ciphertext ↦ ok (s.send_counter, ciphertext)
]

encrypt-SealsUnder :
    (x : External) (s : SessionCipher) (p : Bytes)
    → SealsUnder x s p (make_nonce s.send_counter s.is_low_side)
unfolding encrypt
encrypt-SealsUnder x s p = refl

-- Within one session, and as long as the 64-bit counter does not wrap, the packet sealed after a
-- non-empty run of others, whose first is p, is sealed under a nonce different from that of p, and
-- under the same key.
pub encrypt-fresh :
    (x : External) (s : SessionCipher) (p q : Bytes) (ps : List Bytes)
    → s.send_counter + suc (count ps) < 2 ^ 64
    → let later = encrypt_all x s (p ∷ ps) in
      (nonce : Bytes) × (nonce' : Bytes) × SealsUnder x s p nonce
      × SealsUnder x later q nonce'
      × (later.key ≡ s.key)
      × (nonce' ≢ nonce)
encrypt-fresh x s p q ps h =
    let later = encrypt_all x s (p ∷ ps) in
    let st = encrypt_all_state x s (p ∷ ps) h in
    (
      make_nonce s.send_counter s.is_low_side,
      make_nonce later.send_counter later.is_low_side,
      encrypt-SealsUnder x s p,
      encrypt-SealsUnder x later q,
      st.1,
      λ e.
          let same =
            make_nonce-injective later.send_counter s.send_counter later.is_low_side s.is_low_side
              (omega arith) (omega arith) e in
          omega (arith, same.0),
    )
