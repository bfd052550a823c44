-- ===== src/Tests/Ctl.antt =====
-- The theorems on wolfnetctl, src/ctl/main.rs, with its daemon, applied.
use wolf_net.Shared.{◌≡◌, refl, true, false, [], ◌∷◌, none, some, codes, replicate}
use wolf_net.External.Sample.{sample}
use wolf_net.Manager.{find_route}
use wolf_net.Config.Files.{Files}
use wolf_net.Ctl.Purge.{cmd_purge}
use wolf_net.Ctl.Purge.Stale.{purge_leaves_routes}
use wolf_net.Ctl.{count}
use wolf_net.Daemon.Run.{State, start, hangup, react}
use wolf_net.Shared.{ℕ, ◌<◌, arith, length, get_or, values, suc, zero}
use wolf_net.Peer.{is_connected}
use wolf_net.Config.{default_config}
use wolf_net.Ctl.Program.{
  StatusJson, StatusLines, Surroundings, absent, complete, node_status, write_status, ctl_main,
  show_status, status_printed,
}
use wolf_net.Ctl.Program.Reported.{IsPlain, IsAccount, reached_status_accounts}
use wolf_net.Tests.Run.{no_files, supplied, run_to_supplied}
use wolf_net.Tests.World.{address, node, world, sections, sample_toml}

-- A daemon with one container route.
abbrev routed : State
routed =
    let s =
      start sample node 5 [] (record { routes = none; subnet_routes = none }) (replicate 60 0) in
    record s {
      world = record world {
        manager = record world.manager { subnet_routes = (address 7, address 2) ∷ [] };
      };
    }

abbrev config_files : Files
config_files = record { primary = some sections; bak = none; tmp = none }

purge_leaves_routes_example :
    find_route
      (address 7)
      (react sample sample_toml node
        (hangup config_files (record {
          routes = (cmd_purge (some (codes "{}")) true (some (codes "314" ∷ []))).0;
          subnet_routes = none;
        }))
        routed).world.manager
    ≡ find_route (address 7) routed.world.manager
unfolding cmd_purge
purge_leaves_routes_example =
    purge_leaves_routes sample sample_toml node routed config_files (some (codes "{}")) none true
      (some (codes "314" ∷ [])) (address 7) refl

-- JSON that can write and read one status, at 9 after a start at 5.
abbrev one_json : StatusJson
one_json = record {
  to_text = λ _. some [];
  from_text = λ _. some (node_status sample default_config node 5 supplied);
}

abbrev quiet : Surroundings
quiet = record { routes = none; is_removed = false; pids = none }

zeros_plain : (n i : ℕ) → get_or (replicate n 0) i 0 < 128
zeros_plain zero i = omega arith
zeros_plain (suc n) zero = omega arith
zeros_plain (suc n) (suc i) = zeros_plain n i

key-IsPlain : IsPlain (sample.base64_encode node.keys.public)
key-IsPlain = (omega arith, at_each)
  where
    at_each : (i : ℕ) → get_or (1 ∷ replicate 31 0) i 0 < 128
    at_each zero = omega arith
    at_each (suc i) = zeros_plain 31 i

reached_status_accounts_example :
    let table = values supplied.world.manager.peers_by_ip in
    (lines : StatusLines) × (ctl_main one_json
        (write_status one_json (node_status sample default_config node 5 supplied) complete absent)
        quiet
        show_status
      ≡ some (status_printed lines))
    × IsAccount (length table) (count (is_connected supplied.clock) table) lines.peers
reached_status_accounts_example =
    reached_status_accounts sample sample_toml node 5 [] no_files (replicate 60 0) supplied
      default_config 5 one_json [] absent quiet run_to_supplied key-IsPlain refl refl
