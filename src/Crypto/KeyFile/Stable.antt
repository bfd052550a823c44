-- ===== src/Crypto/KeyFile/Stable.antt =====
-- The identity of a node over its starts, in src/crypto.rs.
use mathlib.Core.Logic.{if_pos, if_neg}
use mathlib.Core.Option.{some-injective, none-ne-some}
use wolf_net.Net.Parsed.{bind-some}
use wolf_net.Crypto.Direction.{IsKeyPair}
use wolf_net.Shared.{nat_eq, ◌≡◌, refl, ◌∙◌, sym, ap, Option, none, some, length}
use wolf_net.Net.{Bytes, Text}
use wolf_net.External.{External, IsLawful}
use wolf_net.Crypto.{KeyPair, keypair_of_bytes}
use wolf_net.Crypto.KeyFile.{
  Saving, broken, unrestricted, saved, load, generate, save, load_or_generate,
}

-- What `save` writes, `load` reads.
load_encoded :
    (x : External) (law : IsLawful x) (secret : Bytes)
    → length secret ≡ 32
    → load x (some (x.base64_encode secret)) ≡ some (generate x secret)
unfolding load generate keypair_of_bytes
load_encoded x law secret whole =
    rw (law.trim-encode secret, load, law.base64_decode-encode secret, whole) refl

of_bytes :
    (x : External) (bytes : Bytes) (keys : KeyPair)
    → keypair_of_bytes x bytes ≡ some keys
    → IsKeyPair x keys × (length keys.secret ≡ 32)
unfolding keypair_of_bytes
of_bytes x bytes keys h = elim (nat_eq.dec (length bytes) 32) [
  | yes whole ↦
      let e = some-injective _ _ (rw (if_pos _ whole) at h) in
      (
        sym (ap (λ (k : KeyPair). k.public) e) ∙ ap (λ (k : KeyPair). x.public_of k.secret) e,
        sym (ap (λ (k : KeyPair). length k.secret) e) ∙ whole,
      )
  | no short ↦ let e = rw (if_neg _ short) at h in absurd (none-ne-some _ e)
]

loaded_pair :
    (x : External) (file : Option Text) (keys : KeyPair)
    → load x file ≡ some keys
    → IsKeyPair x keys × (length keys.secret ≡ 32)
unfolding load
loaded_pair x file keys h =
    let (content, there, h') = bind-some file _ keys h in
    let (bytes, decoded, h'') = bind-some (x.base64_decode (x.trim content)) _ keys h' in
    of_bytes x bytes keys h''

-- A node keeps its identity: when a start has loaded or made a key pair, every later start has the
-- same one and leaves the file as it is, whatever its random bytes are and however its save would
-- go; and the public key is that of the secret, which has 32 bytes. The random bytes are 32.
pub identity_is_stable :
    (x : External) (law : IsLawful x) (random random' : Bytes) (outcome outcome' : Saving)
    (file : Option Text) (keys : KeyPair)
    → length random ≡ 32
    → (load_or_generate x random outcome file).0 ≡ some keys
    → (load_or_generate x random' outcome' (load_or_generate x random outcome file).1
        ≡ (some keys, (load_or_generate x random outcome file).1))
      × IsKeyPair x keys
      × (length keys.secret ≡ 32)
unfolding load_or_generate save
identity_is_stable x law random random' outcome outcome' (some content) keys whole h =
    let (pair, full) = loaded_pair x (some content) keys h in
    (ap (λ k. (k, some content)) h, pair, full)
identity_is_stable x law random random' saved outcome' none keys whole h =
    let file = some (x.base64_encode random) in
    let again = load_encoded x law random whole ∙ h in
    let (pair, full) = loaded_pair x file keys again in (ap (λ k. (k, file)) again, pair, full)
identity_is_stable x law random random' unrestricted outcome' none keys whole h =
    absurd (none-ne-some keys h)
identity_is_stable x law random random' (broken left) outcome' none keys whole h =
    absurd (none-ne-some keys h)
