-- ===== src/Ctl/Purge/Stale.antt =====
-- What `cmd_purge` of src/ctl/main.rs leaves of the container routes in the daemon.
use wolf_net.Shared.{◌≡◌, refl, Bool, List, Option, none, Option-cases, inl, inr}
use wolf_net.Net.{Text, Ipv4Addr}
use wolf_net.External.{External}
use wolf_net.Config.Files.{Toml, Files, load}
use wolf_net.Manager.{find_route}
use wolf_net.Ctl.Purge.{cmd_purge}
use wolf_net.Daemon.{Node}
use wolf_net.Daemon.Reload.Dropped.{reload-find_route}
use wolf_net.Daemon.Run.{State, hangup, react}

-- After a purge that has deleted the file of the container routes, the daemon that gets its signal
-- still has every container route: whatever its configuration is, and whatever the file of the CIDR
-- routes holds.
pub purge_leaves_routes :
    (x : External) (toml : Toml) (node : Node) (s : State) (config : Files)
    (file subnets : Option Text) (is_removed : Bool) (pids : Option (List Text)) (dest : Ipv4Addr)
    → (cmd_purge file is_removed pids).0 ≡ none
    → find_route dest
        (react x toml node
          (hangup config
            (record { routes = (cmd_purge file is_removed pids).0; subnet_routes = subnets }))
          s).world.manager
      ≡ find_route dest s.world.manager
unfolding react
purge_leaves_routes x toml node s config file subnets is_removed pids dest gone =
    elim (Option-cases (load x toml config).0) [
      | inl e ↦ rw (e, react) refl
      | inr (c, e) ↦
          rw (e, react)
            (reload-find_route x s.clock node.keys c.peers
              (record { routes = (cmd_purge file is_removed pids).0; subnet_routes = subnets })
              s.world.manager dest gone)
    ]
