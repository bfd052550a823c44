-- ===== src/Crypto/KeyFile.antt =====
-- The key file of src/crypto.rs: `KeyPair::generate`, `load`, `save` and `load_or_generate`. The
-- random bytes are given, and so is how far a save gets.
pub mod Stable
use wolf_net.Shared.{Bool, true, false, List, Option, none, some, if◌then◌else◌}
use wolf_net.Net.{Bytes, Text, ◌>>=◌}
use wolf_net.External.{External}
use wolf_net.Crypto.{KeyPair, keypair_of_bytes}

unfoldable pub generate : External → Bytes → KeyPair
generate x random = record { secret = random; public = x.public_of random }

-- `none` is a file that is not there, or an error.
unfoldable pub load : External → Option Text → Option KeyPair
unfolding keypair_of_bytes
load x file = do content ← file; bytes ← x.base64_decode (x.trim content); keypair_of_bytes x bytes

-- A save fails before the text is whole in the file, or at the permissions, or it succeeds.
pub data Saving : Type 0 where
  broken : Option Text → Saving
  unrestricted : Saving
  saved : Saving

-- Whether it is `Ok`, and the file afterwards.
unfoldable pub save : External → KeyPair → Saving → Bool × Option Text
save x keys (broken left) = (false, left)
save x keys unrestricted = (false, some (x.base64_encode keys.secret))
save x keys saved = (true, some (x.base64_encode keys.secret))

unfoldable pub load_or_generate :
    External → Bytes → Saving → Option Text → Option KeyPair × Option Text
unfolding load generate save
load_or_generate x random outcome (some content) = (load x (some content), some content)
load_or_generate x random outcome none =
    let keys = generate x random in
    let (done, file) = save x keys outcome in (if done then some keys else none, file)
