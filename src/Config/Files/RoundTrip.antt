-- ===== src/Config/Files/RoundTrip.antt =====
-- `Config::load` after `Config::save` in src/config.rs.
use wolf_net.Config.{ℕ}
use wolf_net.Shared.{
  ℕ, Bool, ◌-◌, ◌≡◌, refl, ◌∙◌, ap, arith, inl, inr, true, false, Bool-cases, List, Option, some,
  length, ltb,
}
use wolf_net.Net.{Text}
use wolf_net.External.{External}
use wolf_net.Peer.{is_some}
use wolf_net.Config.{Config, PeerConfig}
use wolf_net.Config.Dedup.Best.{HasDistinctKeys}
use wolf_net.Config.Dedup.Distinct.{dedup_distinct}
use wolf_net.Config.Migration.{migrate}
use wolf_net.Config.Files.{Toml, Files, apply, save_content, run_ops, save, read_config, load}
use wolf_net.Config.Files.Stop.{usable_kept, saved_usable}

pub saved_primary :
    (x : External) (toml : Toml) (config : Config) (content : Text) (f : Files)
    → save_content x toml config ≡ some content
    → (save x toml config f).primary ≡ some content
unfolding save run_ops apply
saved_primary x toml config content f h = elim (Bool-cases (is_some f.primary)) [
  | inl e ↦ rw (h, save, e) refl
  | inr e ↦ rw (h, save, e) refl
]

none_removed : (n : ℕ) → ltb 0 (n - n) ≡ false
none_removed n = ground arith

read_back :
    (x : External) (toml : Toml) (config : Config) (content fixed : Text)
    → x.is_utf8 content ≡ true
    → migrate x content ≡ (fixed, false)
    → toml.from_str fixed ≡ some config
    → HasDistinctKeys config.peers
    → read_config x toml content ≡ some (config, false)
unfolding read_config
read_back x toml config content fixed utf8 plain parsed distinct =
    let same = dedup_distinct config.peers distinct in
    let result : List PeerConfig → Option (Config × Bool) =
      λ ps. some (record config { peers = ps }, ltb 0 (length config.peers - length ps)) in
    let flagged : Bool → Option (Config × Bool) = λ b. some (config, b) in
    let text_same : (migrate x content).0 ≡ fixed = ap (λ t. t.0) plain in
    let flag_same : (migrate x content).1 ≡ false = ap (λ t. t.1) plain in
    rw (utf8, text_same, parsed, flag_same)
      (ap result same ∙ ap flagged (none_removed (length config.peers)))

-- A configuration that was saved is loaded as it was, and the loading leaves the files alone. This
-- is for a save that was not refused and a `toml` that reads what it wrote, where the text has no
-- line of the old form, and for peers of distinct keys.
pub load-save :
    (x : External) (toml : Toml) (config : Config) (content fixed : Text) (f : Files)
    → save_content x toml config ≡ some content
    → x.is_utf8 content ≡ true
    → migrate x content ≡ (fixed, false)
    → toml.from_str fixed ≡ some config
    → HasDistinctKeys config.peers
    → load x toml (save x toml config f) ≡ (some config, save x toml config f)
unfolding load
load-save x toml config content fixed f written utf8 plain parsed distinct =
    let g = save x toml config f in
    let here = saved_primary x toml config content f written in
    let kept = usable_kept content g here (saved_usable x toml config content written) in
    let result : Files → Option Config × Files = λ h. (some config, h) in
    rw (kept, here, read_back x toml config content fixed utf8 plain parsed distinct, load)
      (ap result kept)
