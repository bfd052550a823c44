-- ===== src/Tests/Node.antt =====
-- The theorems on the commands and the start of a node, of src/main.rs, src/crypto.rs and src/tun.rs,
-- applied.
use wolf_net.Shared.{
  ◌≡◌, ◌≢◌, ◌≤◌, refl, arith, false, true, [], ◌∷◌, ◌++◌, Option, none, some, length, take, drop,
  replicate, take-append, drop-append, codes, bytes_eq,
}
use wolf_net.External.Sample.{sample, sample-IsLawful}
use wolf_net.Net.{Bytes, Text, ipv4_of_parts}
use wolf_net.Crypto.Direction.{IsKeyPair}
use wolf_net.Crypto.KeyFile.{saved, broken, load_or_generate}
use wolf_net.Crypto.KeyFile.Stable.{identity_is_stable}
use wolf_net.Manager.{contains}
use wolf_net.Config.{Config, PeerConfig, default_config}
use wolf_net.Config.Dedup.Best.{entry_of}
use wolf_net.Join.{Invite}
use wolf_net.Join.Token.{Token, TokenJson, ReadsTokens, Inviter, invite, cmd_join, public_endpoint}
use wolf_net.Join.Token.Exchange.{HasPeer, exchange_links, default_inviter_moves}
use wolf_net.Gateway.{exited}
use wolf_net.Tun.Device.{Machine, Interface}
use wolf_net.Tun.Device.Configured.{Outcome, configure_outcomes}
use wolf_net.Transport.{format_discovery}
use wolf_net.Daemon.Run.{handle_discovery}
use wolf_net.Daemon.Run.Heard.{announced_by, broadcast_is_heard}
use wolf_net.Shared.{◌⊎◌, NodupKeys, lookup}
use wolf_net.Net.{ip_eq}
use wolf_net.Manager.Announced.{Holds, expected_endpoint}
use wolf_net.Tests.World.{address, key, keys, away, node, world}

message_fits :
    length (format_discovery sample (codes "b") (key 2) (address 2) 9600 (codes "b") false) ≤ 512
unfolding format_discovery
message_fits = omega arith

one_entry : NodupKeys world.manager.peers_by_ip
unfolding lookup ip_eq
one_entry = (refl, tt)

broadcast_is_heard_example :
    let message = format_discovery sample (codes "b") (key 2) (address 2) 9600 (codes "b") false in
    let after = handle_discovery sample node message away world in
    let a = announced_by away (key 2) (address 2) 9600 (codes "b") false in
    ((codes "b" ≡ node.hostname) × (after ≡ world))
    ⊎ ((codes "b" ≢ node.hostname) × Holds after.manager a (expected_endpoint world.manager a))
broadcast_is_heard_example =
    broadcast_is_heard sample sample-IsLawful node (codes "b") (key 2) (address 2) 9600 (codes "b")
      false away world refl (omega arith) (omega arith) (omega arith) (omega arith) (omega arith)
      message_fits refl one_entry

abbrev random : Bytes
random = replicate 32 5

made :
    (load_or_generate sample random saved none).0
    ≡ some (record { secret = random; public = random })
unfolding load_or_generate
made = refl

identity_is_stable_example :
    (load_or_generate sample
        (replicate 32 6)
        (broken none)
        (load_or_generate sample random saved none).1
      ≡ (
        some (record { secret = random; public = random }),
        (load_or_generate sample random saved none).1,
      ))
    × IsKeyPair sample (record { secret = random; public = random })
    × (length random ≡ 32)
identity_is_stable_example =
    identity_is_stable sample sample-IsLawful random (replicate 32 6) saved (broken none) none
      (record { secret = random; public = random }) refl made

-- Tokens are written field by field, each with its length in front.
abbrev pub field_of : Text → Bytes → Bytes
field_of s rest = length s ∷ (s ++ rest)

abbrev pub read_field : Bytes → Text × Bytes
read_field [] = ([], [])
read_field (n ∷ s) = (take n s, drop n s)

abbrev pub written : Token → Bytes
written t = t.sn ∷ field_of t.pk (field_of t.ep (field_of t.ip (field_of t.hn [])))

abbrev pub read_token : Bytes → Option Invite
read_token [] = none
read_token (sn ∷ s) =
    let (pk, s1) = read_field s in
    let (ep, s2) = read_field s1 in
    let (ip, s3) = read_field s2 in
    let (hn, s4) = read_field s3 in
    some (record { pk = some pk; ep = some ep; ip = some ip; sn = some sn; hn = some hn })

abbrev pub plain_json : TokenJson
plain_json = record { to_string = written; from_slice = read_token }

pub plain_json-ReadsTokens : ReadsTokens plain_json
plain_json-ReadsTokens t =
    let four = field_of t.hn [] in
    let three = field_of t.ip four in
    let two = field_of t.ep three in
    rw
      (
        take-append (length t.pk) t.pk two refl,
        drop-append (length t.pk) t.pk two refl,
        take-append (length t.ep) t.ep three refl,
        drop-append (length t.ep) t.ep three refl,
        take-append (length t.ip) t.ip four refl,
        drop-append (length t.ip) t.ip four refl,
        take-append (length t.hn) t.hn [] refl,
      )
      refl

abbrev pub inviter : Inviter
inviter = record { keys = keys 1; public_ip = some (codes "203.0.113.2"); hostname = codes "a" }

abbrev pub joiner : Inviter
joiner = record { keys = keys 2; public_ip = none; hostname = codes "b" }

abbrev pub at_address : Text → Config
at_address address = record default_config {
  network = record default_config.network { address = address };
}

-- The joiner takes the first free address above the inviter's.
abbrev pub joined_at : Text → Text → Config
joined_at ip address = record (at_address address) {
  peers =
      (record {
        public_key = key 1;
        endpoint = some (codes "203.0.113.2:9600");
        allowed_ip = ip;
        name = some (codes "a");
      })
      ∷ [];
}

abbrev pub back_from : Text → Text → Text
back_from ip address = invite sample plain_json joiner (joined_at ip address)

joins_own :
    cmd_join sample plain_json joiner
      (invite sample plain_json inviter (at_address (codes "10.0.10.7")))
      none
    ≡ some (
      joined_at (codes "10.0.10.7") (codes "10.0.10.8"),
      back_from (codes "10.0.10.7") (codes "10.0.10.8"),
    )
unfolding cmd_join invite ipv4_of_parts
joins_own = refl

exchange_links_example :
    let ca = at_address (codes "10.0.10.7") in
    let cb = joined_at (codes "10.0.10.7") (codes "10.0.10.8") in
    (ca' : Config) × (again : Text) × (cmd_join sample plain_json inviter
        (back_from (codes "10.0.10.7") (codes "10.0.10.8"))
        (some ca)
      ≡ some (ca', again))
    × (ca'.network.address ≡ ca.network.address)
    × HasPeer
        (sample.base64_encode (keys 1).public)
        (public_endpoint inviter.public_ip ca)
        ca'.network.address
        cb.peers
    × HasPeer
        (sample.base64_encode (keys 2).public)
        (public_endpoint joiner.public_ip cb)
        cb.network.address
        ca'.peers
unfolding contains bytes_eq
exchange_links_example =
    exchange_links sample sample-IsLawful plain_json inviter joiner (at_address (codes "10.0.10.7"))
      (joined_at (codes "10.0.10.7") (codes "10.0.10.8")) none
      (back_from (codes "10.0.10.7") (codes "10.0.10.8")) plain_json-ReadsTokens refl joins_own

-- The inviter has the default address 10.0.10.1, and the joiner takes 10.0.10.2.
joins_default :
    cmd_join sample plain_json joiner (invite sample plain_json inviter default_config) none
    ≡ some (
      joined_at (codes "10.0.10.1") (codes "10.0.10.2"),
      back_from (codes "10.0.10.1") (codes "10.0.10.2"),
    )
unfolding cmd_join invite ipv4_of_parts
joins_default = refl

-- The inviter afterwards.
abbrev moved : Config
moved = record (at_address (codes "10.0.10.3")) {
  peers =
      (record {
        public_key = key 2;
        endpoint = some (codes "10.0.10.2:9600");
        allowed_ip = codes "10.0.10.2";
        name = some (codes "b");
      })
      ∷ [];
}

moves :
    cmd_join sample plain_json inviter
      (back_from (codes "10.0.10.1") (codes "10.0.10.2"))
      (some default_config)
    ≡ some (moved, invite sample plain_json inviter moved)
unfolding cmd_join invite ipv4_of_parts
moves = refl

default_inviter_moves_example :
    (e : PeerConfig) × (entry_of (key 1) (joined_at (codes "10.0.10.1") (codes "10.0.10.2")).peers
      ≡ some e)
    × (e.allowed_ip ≡ codes "10.0.10.1")
    × (codes "10.0.10.3" ≢ codes "10.0.10.1")
unfolding contains bytes_eq
default_inviter_moves_example =
    default_inviter_moves sample sample-IsLawful plain_json inviter joiner default_config
      (joined_at (codes "10.0.10.1") (codes "10.0.10.2")) moved none
      (back_from (codes "10.0.10.1") (codes "10.0.10.2")) (invite sample plain_json inviter moved)
      plain_json-ReadsTokens refl joins_default moves

-- Every command succeeds.
abbrev pub willing : Machine
willing = λ taken c. exited true

abbrev interface : Interface
interface = record { name = codes "wolfnet0"; address = codes "10.0.10.1"; subnet = 24; mtu = 1400 }

configure_outcomes_example : Outcome willing interface true
configure_outcomes_example = configure_outcomes willing interface true
