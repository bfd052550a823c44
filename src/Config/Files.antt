-- ===== src/Config/Files.antt =====
-- The files of `Config::load` and `Config::save` in src/config.rs: the configuration, its backup
-- and its staging file. A save is a list of file operations, which may stop at any point.
pub mod Stop
pub mod RoundTrip
use wolf_net.Shared.{
  ℕ, ◌-◌, Bool, true, false, not, ◌||◌, List, [], ◌∷◌, ◌++◌, Option, none, some, if◌then◌else◌,
  ◌==◌, bytes_eq, ltb, length, take, codes,
}
use wolf_net.Net.{Text}
use wolf_net.External.{External}
use wolf_net.Peer.{is_some}
use wolf_net.Config.{Config}
use wolf_net.Config.Dedup.{dedup}
use wolf_net.Config.Migration.{contains_text, migrate}

-- `toml::from_str` and `toml::to_string_pretty`; `none` is an error
pub record Toml : Type 0 where
  pub from_str : Text → Option Config
  pub to_string_pretty : Config → Option Text

pub record Files : Type 0 where
  pub primary : Option Text
  pub bak : Option Text
  pub tmp : Option Text

pub data FileOp : Type 0 where
  write_tmp : Text → FileOp
  copy_to_bak : FileOp
  rename_tmp : FileOp

unfoldable pub apply : FileOp → Files → Files
apply (write_tmp content) f = record f { tmp = some content }
apply copy_to_bak f = record f { bak = f.primary }
apply rename_tmp f = record f { primary = f.tmp; tmp = none }

abbrev cut : ℕ → Option Text → Option Text
cut n none = none
cut n (some content) = some (take n content)

-- An operation that stops after `n` bytes. A rename has happened, or it has not.
unfoldable pub torn : FileOp → ℕ → Files → Files
torn (write_tmp content) n f = record f { tmp = some (take n content) }
torn copy_to_bak n f = record f { bak = cut n f.primary }
torn rename_tmp n f = f

-- What is to be saved, unless the save is refused.
unfoldable pub save_content : External → Toml → Config → Option Text
unfolding contains_text bytes_eq
save_content x toml config = elim (toml.to_string_pretty config) [
  | none ↦ none
  | some content ↦
      if x.trim content == []
        || not (contains_text (codes "[network]") content)
        || not (contains_text (codes "[security]") content)
      then none
      else some content
]

-- The operations of a save, in order.
abbrev pub save_ops : Text → Files → List FileOp
save_ops content f =
    write_tmp content
    ∷ (if is_some f.primary then copy_to_bak ∷ rename_tmp ∷ [] else rename_tmp ∷ [])

unfoldable pub run_ops : List FileOp → Files → Files
unfolding apply
run_ops [] f = f
run_ops (op ∷ ops) f = run_ops ops (apply op f)

-- A save in which every operation succeeds, in a directory that is there; a refused one touches
-- nothing.
unfoldable pub save : External → Toml → Config → Files → Files
unfolding save_content run_ops
save x toml config f = elim (save_content x toml config) [
  | none ↦ f
  | some content ↦ run_ops (save_ops content f) f
]

-- The file exists and is not empty.
abbrev pub is_usable : Option Text → Bool
is_usable none = false
is_usable (some []) = false
is_usable (some (c ∷ content)) = true

-- A configuration that is missing or empty is restored from the backup, where that is usable
-- and the copy succeeds.
unfoldable pub recover : Files → Files
recover f =
    if is_usable f.primary then f else if is_usable f.bak then record f { primary = f.bak } else f

-- The configuration in a text, and whether it is to be written back.
unfoldable pub read_config : External → Toml → Text → Option (Config × Bool)
unfolding migrate dedup
read_config x toml content =
    if not (x.is_utf8 content)
    then none
    else let (fixed, migrated) = migrate x content in
      elim (toml.from_str fixed) [
        | none ↦ none
        | some config ↦
            let kept = dedup config.peers in
            let removed = length config.peers - length kept in
            some (record config { peers = kept }, migrated || ltb 0 removed)
      ]

-- What is loaded, and the files afterwards.
unfoldable pub load : External → Toml → Files → Option Config × Files
unfolding recover read_config save
load x toml f =
    let f' = recover f in
    elim f'.primary [
      | none ↦ (none, f')
      | some content ↦ elim (read_config x toml content) [
        | none ↦ (none, f')
        | some (config, changed) ↦ (some config, if changed then save x toml config f' else f')
      ]
    ]
