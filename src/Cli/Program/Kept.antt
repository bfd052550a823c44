-- ===== src/Cli/Program/Kept.antt =====
-- The key file over the commands of src/main.rs.
use wolf_net.Shared.{
  ◌≡◌, refl, sym, ap, arith, ◌∙◌, Bool, true, false, not, ◌&&◌, Bool-cases, inl, inr, List, [], ◌∷◌,
  Option, some, Option-cases,
}
use mathlib.Core.Option.{some-injective}
use wolf_net.Net.Parsed.{bind-some}
use wolf_net.Net.{Text, ◌>>=◌}
use wolf_net.External.{External}
use wolf_net.Crypto.KeyFile.{load_or_generate}
use wolf_net.Config.{ip_addr}
use wolf_net.Config.Files.{Toml, save_content}
use wolf_net.Join.{Invite}
use wolf_net.Join
use wolf_net.Join.Token.{TokenJson, decode_token, cmd_join}
use wolf_net.Cli.{
  Disk, Supply, Place, at, existing, load_config, open_node, cmd_pubkey, cmd_token, invite_node,
  join_node,
}
use wolf_net.Cli.Program.{
  CliCommand, genkey, pubkey, token, init, invite, join, run, Caller, readable, after_failed_join,
  needs_root, dispatch, cli_main, history,
}
use wolf_net.Daemon.Boot.{Host, boot}

abbrev pub makes_key : CliCommand → Bool
makes_key genkey = true
makes_key (init address) = true
makes_key _ = false

-- No command of the history is `genkey` or `init`.
abbrev pub KeepsKey : List (Caller × CliCommand) → Type 0
KeepsKey [] = Unit
KeepsKey ((_, command) ∷ rest) = (makes_key command ≡ false) × KeepsKey rest

module _ (x : External) (toml : Toml) (json : TokenJson) (content : Text) where
  abbrev Holds : Disk → Type 0
  Holds disk = disk.key ≡ some content

  -- A key file that is there stays.
  file_stays :
      (sup : Supply) (key : Option Text)
      → key ≡ some content
      → (load_or_generate x sup.random sup.outcome key).1 ≡ some content
  unfolding load_or_generate
  file_stays sup key there = rw there refl

  open_node-Holds : (sup : Supply) (disk : Disk) → Holds disk → Holds (open_node x toml sup disk).2
  unfolding open_node
  open_node-Holds sup disk there = elim (Option-cases (load_config x toml disk.config).0) [
    | inl e ↦ rw (e, open_node) there
    | inr (c, e) ↦ rw (e, open_node) (file_stays sup disk.key there)
  ]

  boot-Holds : (host : Host) (disk : Disk) → Holds disk → Holds (boot x toml host disk).1
  unfolding boot
  boot-Holds host disk there = elim (Option-cases (load_config x toml disk.config).0) [
    | inl e ↦ rw (e, boot) there
    | inr (c, e) ↦ elim (Option-cases (ip_addr c)) [
      | inl f ↦ rw (e, f, boot) there
      | inr (ip, f) ↦
          let stays = file_stays host.supply disk.key there in
          elim (Option-cases
            (load_or_generate x host.supply.random host.supply.outcome disk.key).0) [
              | inl g ↦ rw (e, f, g, boot) stays
              | inr (keys, g) ↦ rw (e, f, g, boot) stays
            ]
    ]
  ]

  after_failed_join-Holds :
      (sup : Supply) (sent : Text) (disk : Disk)
      → Holds disk
      → Holds (after_failed_join x toml json sup sent disk)
  unfolding after_failed_join
  after_failed_join-Holds sup sent disk there =
      elim (Option-cases (decode_token x json sent >>= readable)) [
        | inl e ↦ rw (e, after_failed_join) there
        | inr (opened, e) ↦
            elim (Option-cases (existing x toml disk.config >>= Join.join x opened)) [
              | inl f ↦ rw (e, f, after_failed_join) there
              | inr (config, f) ↦ rw (e, f, after_failed_join) (file_stays sup disk.key there)
            ]
      ]

  join_node-Holds :
      (sup : Supply) (place : Place) (sent back : Text) (disk after : Disk)
      → Holds disk
      → join_node x toml json sup place sent disk ≡ some (back, after)
      → Holds after
  unfolding join_node
  join_node-Holds sup place sent back disk after there h =
      let (loaded, _, h1) = bind-some (existing x toml disk.config) _ (back, after) h in
      let (keys, _, h2) =
        bind-some (load_or_generate x sup.random sup.outcome disk.key).0 _ (back, after) h1 in
      let (made, _, h3) =
        bind-some (cmd_join x json (at keys place) sent loaded) _ (back, after) h2 in
      let (text, _, h4) = bind-some (save_content x toml made.0) _ (back, after) h3 in
      let same = ap (λ (r : Text × Disk). r.1.key) (some-injective _ _ h4) in
      sym same ∙ file_stays sup disk.key there

  dispatch-Holds :
      (caller : Caller) (command : CliCommand) (disk : Disk)
      → makes_key command ≡ false
      → Holds disk
      → Holds (dispatch x toml json caller command disk).1
  unfolding dispatch cmd_pubkey cmd_token invite_node
  dispatch-Holds caller genkey disk keeps there = absurd (ground arith)
  dispatch-Holds caller (init address) disk keeps there = absurd (ground arith)
  dispatch-Holds caller pubkey disk keeps there = open_node-Holds caller.host.supply disk there
  dispatch-Holds caller token disk keeps there = open_node-Holds caller.host.supply disk there
  dispatch-Holds caller invite disk keeps there = open_node-Holds caller.host.supply disk there
  dispatch-Holds caller run disk keeps there = boot-Holds caller.host disk there
  dispatch-Holds caller (join sent) disk keeps there =
      elim (Option-cases (join_node x toml json caller.host.supply caller.place sent disk)) [
        | inl e ↦ rw (dispatch, e) (after_failed_join-Holds caller.host.supply sent disk there)
        | inr ((back, after), e) ↦
            rw (dispatch, e)
              (join_node-Holds caller.host.supply caller.place sent back disk after there e)
      ]

  cli_main-Holds :
      (caller : Caller) (command : CliCommand) (disk : Disk)
      → makes_key command ≡ false
      → Holds disk
      → Holds (cli_main x toml json caller command disk).1
  unfolding cli_main
  cli_main-Holds caller command disk keeps there =
      elim (Bool-cases (needs_root command && not caller.is_root)) [
        | inl refused ↦ rw (cli_main, refused) there
        | inr let_in ↦ rw (cli_main, let_in) (dispatch-Holds caller command disk keeps there)
      ]

-- A node whose key file is there keeps it, and with it its identity, through any commands, runs of the
-- daemon and joins among them, whoever calls them and whether they fail or not, as long as none of them
-- is `genkey` or `init`.
pub history-KeepsKey :
    (x : External) (toml : Toml) (json : TokenJson) (commands : List (Caller × CliCommand))
    (disk : Disk) (content : Text)
    → KeepsKey commands
    → disk.key ≡ some content
    → (history x toml json commands disk).key ≡ some content
unfolding history
history-KeepsKey x toml json [] disk content keeps there = there
history-KeepsKey x toml json ((caller, command) ∷ rest) disk content (keeps, others) there =
    history-KeepsKey x toml json rest (cli_main x toml json caller command disk).1 content others
      (cli_main-Holds x toml json content caller command disk keeps there)
