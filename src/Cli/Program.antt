-- ===== src/Cli/Program.antt =====
-- `main` of src/main.rs: the test for root and the choice of the command, on the files of a node. The
-- log is left out, and so is an output of `genkey` other than the configured key file.
pub mod Kept
use wolf_net.Shared.{Bool, true, false, not, ◌&&◌, List, [], ◌∷◌, Option, none, some, if◌then◌else◌}
use wolf_net.Net.{Text, ◌>>=◌}
use wolf_net.External.{External}
use wolf_net.Crypto.KeyFile.{load_or_generate}
use wolf_net.Config.Files.{Toml, load}
use wolf_net.Join.{Invite}
use wolf_net.Join
use wolf_net.Join.Token.{TokenJson, decode_token}
use wolf_net.Cli.{
  Disk, Supply, Place, existing, cmd_genkey, cmd_pubkey, cmd_token, cmd_init, invite_node,
  join_node,
}
use wolf_net.Peer.{is_some}
use wolf_net.Daemon.Boot.{Host, Running, boot}

pub data CliCommand : Type 0 where
  genkey : CliCommand
  pubkey : CliCommand
  token : CliCommand
  init : Text → CliCommand
  invite : CliCommand
  join : Text → CliCommand
  run : CliCommand

-- Who calls, and what the system gives to the command.
pub record Caller : Type 0 where
  pub is_root : Bool
  pub place : Place
  pub host : Host

pub data CliOutcome : Type 0 where
  failed : CliOutcome
  printed : Text → CliOutcome
  initialised : CliOutcome
  started : Running → CliOutcome

abbrev needs_root : CliCommand → Bool
needs_root invite = true
needs_root (join sent) = true
needs_root run = true
needs_root _ = false

-- The token has what a join needs.
abbrev readable : Invite → Option Invite
readable sent = do _ ← sent.pk; _ ← sent.ep; _ ← sent.ip; some sent

-- The files after a join that fails: before the configuration is read, before the key file is, or at
-- the key or at the save.
unfoldable pub after_failed_join : External → Toml → TokenJson → Supply → Text → Disk → Disk
unfolding decode_token load Join.join load_or_generate
after_failed_join x toml json sup sent disk = elim (decode_token x json sent >>= readable) [
  | none ↦ disk
  | some opened ↦
      let read = record disk {
        config = if is_some disk.config.primary then (load x toml disk.config).1 else disk.config;
      } in
      elim (existing x toml disk.config >>= Join.join x opened) [
        | none ↦ read
        | some config ↦ record read { key = (load_or_generate x sup.random sup.outcome disk.key).1 }
      ]
]

abbrev answer : Option Text → CliOutcome
answer none = failed
answer (some text) = printed text

abbrev daemon : Option Running → CliOutcome
daemon none = failed
daemon (some r) = started r

unfoldable pub dispatch :
    External → Toml → TokenJson → Caller → CliCommand → Disk → CliOutcome × Disk
unfolding cmd_genkey cmd_pubkey cmd_token cmd_init invite_node join_node boot after_failed_join
dispatch x toml json caller genkey disk =
    let (text, after) = cmd_genkey x caller.host.supply disk in (answer text, after)
dispatch x toml json caller pubkey disk =
    let (text, after) = cmd_pubkey x toml caller.host.supply disk in (answer text, after)
dispatch x toml json caller token disk =
    let (text, after) = cmd_token x toml caller.host.supply disk in (answer text, after)
dispatch x toml json caller (init address) disk =
    elim (cmd_init x toml caller.host.supply address disk) [
      | none ↦ (failed, disk)
      | some after ↦ (initialised, after)
    ]
dispatch x toml json caller invite disk =
    let (text, after) = invite_node x toml json caller.host.supply caller.place disk in
    (answer text, after)
dispatch x toml json caller (join sent) disk =
    elim (join_node x toml json caller.host.supply caller.place sent disk) [
      | none ↦ (failed, after_failed_join x toml json caller.host.supply sent disk)
      | some (back, after) ↦ (printed back, after)
    ]
dispatch x toml json caller run disk =
    let (r, after) = boot x toml caller.host disk in (daemon r, after)

unfoldable pub cli_main :
    External → Toml → TokenJson → Caller → CliCommand → Disk → CliOutcome × Disk
unfolding dispatch
cli_main x toml json caller command disk =
    if needs_root command && not caller.is_root
    then (failed, disk)
    else dispatch x toml json caller command disk

-- One command after another, on one disk.
unfoldable pub history : External → Toml → TokenJson → List (Caller × CliCommand) → Disk → Disk
unfolding cli_main
history x toml json [] disk = disk
history x toml json ((caller, command) ∷ rest) disk =
    history x toml json rest (cli_main x toml json caller command disk).1
