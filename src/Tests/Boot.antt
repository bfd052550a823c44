-- ===== src/Tests/Boot.antt =====
-- The theorem on a node that joins and boots, in src/main.rs, applied.
use wolf_net.Daemon.Reload.{peer_of_config}
use wolf_net.Shared.{lookup, ◌≡◌, refl, true, false, [], none, some, codes, replicate}
use wolf_net.External.Sample.{sample, sample-IsLawful}
use wolf_net.Net.{ipv4, parse_ipv4, ipv4_of_parts}
use wolf_net.Crypto.KeyFile.{saved, load_or_generate}
use wolf_net.Config.{Config}
use wolf_net.Config.Files.{Toml, save_content, save}
use wolf_net.Config.Migration.{migrate, contains_text, starts_with}
use wolf_net.Join.{join}
use wolf_net.Join.Token.{token_of, invite, public_endpoint}
use wolf_net.Join.Token.Exchange.{fields}
use wolf_net.Gateway.{System, exited}
use wolf_net.Cli.{Disk, Supply, Place, at, join_node}
use wolf_net.Daemon.Boot.{Host, Running, running, boot}
use wolf_net.Daemon.Boot.Joined.{Knows, joined_node_boots}
use wolf_net.Shared.{List, ◌∷◌}
use wolf_net.Cli.Program.{CliCommand, Caller, history}
use wolf_net.Cli.Program
use wolf_net.Cli.Program.Kept.{history-KeepsKey}
use wolf_net.Tests.World.{key, keys, sections}
use wolf_net.Tests.Node.{
  plain_json, plain_json-ReadsTokens, inviter, at_address, joined_at, willing,
}

-- The inviter is at 10.0.10.7, and the node that joins takes 10.0.10.8.
abbrev result : Config
result = joined_at (codes "10.0.10.7") (codes "10.0.10.8")

abbrev result_toml : Toml
result_toml = record { from_str = λ t. some result; to_string_pretty = λ c. some sections }

abbrev empty_disk : Disk
empty_disk = record { config = record { primary = none; bak = none; tmp = none }; key = none }

abbrev supply : Supply
supply = record { random = key 2; outcome = saved }

abbrev site : Place
site = record { public_ip = none; hostname = codes "b" }

abbrev joined_disk : Disk
joined_disk = record {
  config = save sample result_toml result empty_disk.config;
  key = some (key 2);
}

abbrev rules_willing : System
rules_willing = λ tried c. exited true

abbrev host : Host
host = record {
  supply = record { random = key 9; outcome = saved };
  hostname = codes "b";
  device = some (codes "wolfnet0");
  machine = willing;
  is_nm_wanted = false;
  is_bound = true;
  gateway = rules_willing;
  words = [];
  now = 5;
  routes = record { routes = none; subnet_routes = none };
  send_buf = replicate 60 0;
}

abbrev daemon : Running
daemon = running sample host result (ipv4 10 0 10 8) (keys 2) (codes "wolfnet0")

key_made :
    load_or_generate sample supply.random supply.outcome empty_disk.key
    ≡ (some (keys 2), some (key 2))
unfolding load_or_generate
key_made = refl

merged :
    join sample (fields (token_of sample inviter (at_address (codes "10.0.10.7")))) none
    ≡ some result
unfolding join token_of ipv4_of_parts public_endpoint
merged = refl

written : save_content sample result_toml result ≡ some sections
unfolding save_content contains_text starts_with
written = refl

not_old : migrate sample sections ≡ (sections, false)
unfolding migrate
not_old = refl

booted : boot sample result_toml host joined_disk ≡ (some daemon, joined_disk)
unfolding boot save ipv4_of_parts lookup peer_of_config
booted = refl

joined_node_boots_example :
    (join_node sample result_toml plain_json supply site
        (invite sample plain_json inviter (at_address (codes "10.0.10.7")))
        empty_disk
      ≡ some (invite sample plain_json (at (keys 2) site) result, joined_disk))
    × (daemon.node.keys ≡ keys 2)
    × (parse_ipv4 result.network.address ≡ some daemon.node.wolfnet_ip)
    × Knows sample
        (keys 2)
        (public_endpoint inviter.public_ip (at_address (codes "10.0.10.7")))
        (ipv4 10 0 10 7)
        (key 1)
        daemon.state.world.manager
unfolding parse_ipv4 ipv4_of_parts
joined_node_boots_example =
    joined_node_boots sample sample-IsLawful result_toml plain_json inviter
      (at_address (codes "10.0.10.7")) result supply site empty_disk joined_disk (keys 2)
      (some (key 2)) sections sections (ipv4 10 0 10 7) host daemon plain_json-ReadsTokens refl refl
      refl refl key_made merged written refl not_old refl booted

-- The daemon, a join whose token is no token, the same by a user who is not root, and `pubkey`.
abbrev root : Caller
root = record { is_root = true; place = site; host = host }

abbrev user : Caller
user = record root { is_root = false }

abbrev visits : List (Caller × CliCommand)
visits =
    (root, Program.run)
    ∷ (root, Program.join [])
    ∷ (user, Program.join [])
    ∷ (user, Program.pubkey)
    ∷ []

history-KeepsKey_example :
    (history sample result_toml plain_json visits joined_disk).key ≡ some (key 2)
history-KeepsKey_example =
    history-KeepsKey sample result_toml plain_json visits joined_disk (key 2)
      (refl, (refl, (refl, (refl, tt)))) refl
