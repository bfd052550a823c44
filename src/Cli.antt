-- ===== src/Cli.antt =====
-- The commands of src/main.rs that read and write the configuration and the key file. What they print
-- is their result; `none` is an exit with an error. A save of the configuration succeeds, unless it is
-- refused; how far one of the key file gets is given.
pub mod Program
use wolf_net.Shared.{
  ℕ, Bool, true, false, List, [], ◌∷◌, ◌++◌, Option, none, some, if◌then◌else◌, codes,
}
use wolf_net.Net.{Bytes, Text, decimal, ◌>>=◌}
use wolf_net.External.{External}
use wolf_net.Crypto.{KeyPair}
use wolf_net.Crypto.KeyFile.{Saving, generate, load_or_generate}
use wolf_net.Crypto.KeyFile
use wolf_net.Peer.{is_some}
use wolf_net.Config.{Config, default_config}
use wolf_net.Config.Files.{Files, Toml, save_content, save, load}
use wolf_net.Join.Token.{Token, TokenJson, Inviter, invite, cmd_join}

-- The files of a node.
pub record Disk : Type 0 where
  pub config : Files
  pub key : Option Text

-- What the system gives to a command: the random bytes, and how far a save of the key file gets.
pub record Supply : Type 0 where
  pub random : Bytes
  pub outcome : Saving

unfoldable pub load_config : External → Toml → Files → Option Config × Files
unfolding load
load_config x toml f = if is_some f.primary then load x toml f else (some default_config, f)

-- The text of the public key of `kp.save(..)`, where it succeeds.
unfoldable pub cmd_genkey : External → Supply → Disk → Option Text × Disk
unfolding generate KeyFile.save
cmd_genkey x sup disk =
    let keys = generate x sup.random in
    let (done, file) = KeyFile.save x keys sup.outcome in
    (if done then some (x.base64_encode keys.public) else none, record disk { key = file })

-- The configuration and the key pair that most commands start with.
unfoldable pub open_node : External → Toml → Supply → Disk → Option Config × Option KeyPair × Disk
unfolding load_config load_or_generate
open_node x toml sup disk =
    let (config, files) = load_config x toml disk.config in
    elim config [
      | none ↦ (none, none, record disk { config = files })
      | some c ↦
          let (keys, file) = load_or_generate x sup.random sup.outcome disk.key in
          (some c, keys, record { config = files; key = file })
    ]

abbrev printed : Option KeyPair → (KeyPair → Text) → Option Text
printed none line = none
printed (some keys) line = some (line keys)

unfoldable pub cmd_pubkey : External → Toml → Supply → Disk → Option Text × Disk
unfolding open_node
cmd_pubkey x toml sup disk =
    let (config, keys, after) = open_node x toml sup disk in
    (printed keys (λ (k : KeyPair). x.base64_encode k.public), after)

-- The first line: the public key and the port on all addresses.
unfoldable pub token_line : External → Config → KeyPair → Text
unfolding decimal
token_line x config keys =
    x.base64_encode keys.public ++ (b'@' ∷ (codes "0.0.0.0:" ++ decimal config.network.listen_port))

unfoldable pub cmd_token : External → Toml → Supply → Disk → Option Text × Disk
unfolding open_node token_line
cmd_token x toml sup disk =
    let (config, keys, after) = open_node x toml sup disk in
    (config >>= λ c. printed keys (token_line x c), after)

abbrev init_config : Text → Config
init_config address = record default_config {
  network = record default_config.network { address = address };
}

-- The new files, where the configuration is not refused; the key is made anew and replaces the one
-- in the file. A key that cannot be saved is a warning.
unfoldable pub cmd_init : External → Toml → Supply → Text → Disk → Option Disk
unfolding save save_content generate KeyFile.save
cmd_init x toml sup address disk = elim (save_content x toml (init_config address)) [
  | none ↦ none
  | some content ↦ some (record {
    config = save x toml (init_config address) disk.config;
    key = (KeyFile.save x (generate x sup.random) sup.outcome).1;
  })
]

-- What `detect_public_ip` and the host name of the system give.
pub record Place : Type 0 where
  pub public_ip : Option Text
  pub hostname : Text

abbrev pub at : KeyPair → Place → Inviter
at keys place = record { keys = keys; public_ip = place.public_ip; hostname = place.hostname }

unfoldable pub invite_node :
    External → Toml → TokenJson → Supply → Place → Disk → Option Text × Disk
unfolding open_node invite
invite_node x toml json sup place disk =
    let (config, keys, after) = open_node x toml sup disk in
    (config >>= λ c. printed keys (λ (k : KeyPair). invite x json (at k place) c), after)

-- The configuration of a join, which is none where there is no file.
abbrev pub existing : External → Toml → Files → Option (Option Config)
existing x toml f =
    if is_some f.primary then (load x toml f).0 >>= (λ c. some (some c)) else some none

-- The reverse token, and the files afterwards: the key file is made if there is none, and then the
-- configuration is saved.
unfoldable pub join_node :
    External → Toml → TokenJson → Supply → Place → Text → Disk → Option (Text × Disk)
unfolding load load_or_generate cmd_join save_content save
join_node x toml json sup place token disk =
    let (made, file) = load_or_generate x sup.random sup.outcome disk.key in
    let files = if is_some disk.config.primary then (load x toml disk.config).1 else disk.config in
    do
      loaded ← existing x toml disk.config
      keys ← made
      (config, back) ← cmd_join x json (at keys place) token loaded
      content ← save_content x toml config
      some (back, record { config = save x toml config files; key = file })
