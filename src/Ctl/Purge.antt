-- ===== src/Ctl/Purge.antt =====
-- `cmd_purge` of src/ctl/main.rs: the file of the container routes, and the signal to the daemon.
pub mod Stale
use wolf_net.Shared.{Bool, List, [], ◌∷◌, Option, none, some, if◌then◌else◌, codes}
use wolf_net.Net.{Text}
use wolf_net.Gateway.{Command}

-- The words that `pidof` prints, where it succeeds; the first is taken.
abbrev signal : Option (List Text) → Option Command
signal none = none
signal (some []) = none
signal (some (pid ∷ pids)) =
    some (record { program = codes "kill"; args = codes "-HUP" ∷ pid ∷ [] })

-- The file afterwards, which may resist, and the command that is tried.
unfoldable pub cmd_purge : Option Text → Bool → Option (List Text) → Option Text × Option Command
cmd_purge none is_removed pids = (none, signal pids)
cmd_purge (some content) is_removed pids = (if is_removed then none else some content, signal pids)
