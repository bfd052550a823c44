-- ===== src/Tests/Crypto.antt =====
-- The theorems on src/crypto.rs and on the sessions of src/peer.rs, applied.
use wolf_net.Shared.{◌≡◌, ◌≢◌, refl, arith, false, [], ◌∷◌, ◌++◌, replicate}
use wolf_net.External.Sample.{sample, sample-IsLawful}
use wolf_net.Net.{Bytes}
use wolf_net.Crypto.{
  new_cipher, SessionCipher, ok, encrypt, decrypt, advance, is_stale, err, stale_nonce,
}
use wolf_net.Crypto.Nonce.{SealsUnder, encrypt-fresh, encrypt_all}
use wolf_net.Crypto.Replay.{decrypt_again, rewind_reopens}
use wolf_net.Crypto.Direction.{session, tunnel_round_trip}
use wolf_net.Peer.{establish_session}
use wolf_net.Peer
use wolf_net.Peer.Session.{establish-encrypt-establish}
use wolf_net.Tests.World.{cipher, keys, key, friend}

abbrev text : Bytes
text = 69 ∷ 1 ∷ 2 ∷ []

abbrev sealed : Bytes
sealed = text ++ replicate 16 0

abbrev other : SessionCipher
other = record cipher { is_low_side = false }

abbrev late : SessionCipher
late = record cipher { recv_counter = 200 }

abbrev here : SessionCipher
here = session sample (keys 1) (key 2)

tunnel_round_trip_example :
    decrypt sample (session sample (keys 2) (key 1)) 0 sealed
    ≡ (advance (session sample (keys 2) (key 1)) 0, ok text)
unfolding encrypt new_cipher
tunnel_round_trip_example =
    tunnel_round_trip sample sample-IsLawful (keys 1) (keys 2) here text sealed 0 refl refl
      (λ e. ground arith) refl refl refl

encrypt-fresh_example :
    let later = encrypt_all sample cipher (text ∷ sealed ∷ []) in
    (nonce : Bytes) × (nonce' : Bytes) × SealsUnder sample cipher text nonce
    × SealsUnder sample later text nonce'
    × (later.key ≡ cipher.key)
    × (nonce' ≢ nonce)
encrypt-fresh_example = encrypt-fresh sample cipher text text (sealed ∷ []) (omega arith)

accepted : (decrypt sample other 7 sealed).1 ≡ ok text
unfolding decrypt is_stale
accepted = refl

decrypt_again_example : (decrypt sample (decrypt sample other 7 sealed).0 7 sealed).1 ≡ ok text
decrypt_again_example = decrypt_again sample other 7 sealed text accepted

accepted_late : (decrypt sample late 3 sealed).1 ≡ ok text
unfolding decrypt is_stale
accepted_late = refl

rewind_reopens_example :
    (decrypt sample late 150 sealed ≡ (late, err stale_nonce))
    × ((decrypt sample (decrypt sample late 3 sealed).0 150 sealed).1 ≡ ok text)
rewind_reopens_example =
    rewind_reopens sample late 3 150 sealed text sealed text accepted_late (omega arith)
      (omega arith) (omega arith) refl

establish-encrypt-establish_example :
    (establish_session sample 9
      (keys 1)
      (Peer.encrypt sample (establish_session sample 0 (keys 1) friend) text).0).cipher
    ≡ (establish_session sample 0 (keys 1) friend).cipher
establish-encrypt-establish_example = establish-encrypt-establish sample (keys 1) 0 9 friend text
